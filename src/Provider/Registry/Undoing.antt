-- ===== src/Provider/Registry/Undoing.antt =====
-- What `Remove` does right after `CreateInstance`, as the provider manager calls them.
use dnsweaver.Base.{ℕ, suc, String, ◌≡◌, refl, none, List, [], ◌∷◌, ◌++◌, arith, All, eq_refl}
use dnsweaver.Base.Map.{Map, lookup, insert, delete, lookup-insert}
use dnsweaver.Provider.Instance.{ProviderInstance}
use dnsweaver.Provider.Registry.{Registry, Slot, add_instance, remove, remove_address}
use dnsweaver.Provider.Registry.Bookkeeping.{IsConsistent, IsBelow}

delete-insert :
    {V : Type 0} (k : String) (v : V) (m : Map V) → lookup k m ≡ none → delete k (insert k v m) ≡ m
unfolding lookup insert delete
delete-insert k v [] new = ground (arith, eq_refl k)
delete-insert k v ((j, w) ∷ m) new = ground (arith, delete-insert k v m)

module _ {W : Type 0} where
  remove_address-snoc :
      (n : ℕ) (slots : List (Slot W)) (slot : Slot W)
      → slot.address ≡ n
      → All (IsBelow n) slots
      → remove_address n (slots ++ slot ∷ []) ≡ slots
  unfolding remove_address
  remove_address-snoc n [] slot here below = ground arith
  remove_address-snoc n (x ∷ xs) slot here (low, below) =
      let rest = remove_address-snoc n xs slot here below in ground (arith, rest, low)

  -- `Remove` right after the instance was added gives back the registry, but for the address used.
  pub remove-add_instance :
      (name : String) (pi : ProviderInstance W) (r : Registry W)
      → lookup name r.by_name ≡ none
      → IsConsistent r
      → (remove name (add_instance name pi r)).1 ≡ record r { next_address = suc r.next_address }
  unfolding remove add_instance
  remove-add_instance name pi r new c =
      let slot : Slot W = record { address = r.next_address; value = pi } in
      let found = lookup-insert name name slot r.by_name in
      let same = eq_refl name in
      let slots = remove_address-snoc r.next_address r.instances slot refl c.below in
      let entries = delete-insert name slot r.by_name new in
      rw (remove, found, same, slots, entries) refl
