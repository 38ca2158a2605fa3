-- ===== src/Provider/Registry/Bookkeeping.antt =====
-- The two ways in which a registry holds its instances: the list, and the map by name.
use dnsweaver.Base.{
  ℕ, suc, ◌<◌, String, ◌≡◌, refl, ap, ◌∙◌, Bool, Option, none, some, List, [], ◌∷◌, ◌++◌, arith,
  ◌==◌, eq_iff, All, Bool-cases, Option-cases, inl, inr, subst, sym, eq_refl,
}
use dnsweaver.Base.Map.{Map, lookup, insert, delete, lookup-delete}
use dnsweaver.Base.Map.Keys.{KeysDiffer, KeysDiffer-insert, KeysDiffer-delete, delete_absent}
use dnsweaver.Provider.Failure.{Result, ok, err}
use dnsweaver.Provider.Config.{Family, ProviderInstanceConfig, validate}
use dnsweaver.Provider.Interface.{Provider}
use dnsweaver.Provider.Instance.{ProviderInstance}
use dnsweaver.Matcher.{DomainMatcher}
use dnsweaver.Provider.Registry.{
  get, Factory, Slot, Registry, add_instance, remove_address, remove, construct, create_instance,
  make, finish, build_instance,
}

module _ {W : Type 0} where
  abbrev pub values : Map (Slot W) → List (Slot W)
  values [] = []
  values ((_, slot) ∷ m) = slot ∷ values m

  abbrev pub IsBelow : ℕ → Slot W → Type 0
  IsBelow n slot = slot.address < n

  -- the addresses go up
  abbrev pub AreAscending : List (Slot W) → Type 0
  AreAscending [] = Unit
  AreAscending (x ∷ xs) = All (λ y. x.address < y.address) xs × AreAscending xs

  -- The map holds the instances of the list, each under one name.
  pub record IsConsistent (r : Registry W) : Type 0 where
    pub same : values r.by_name ≡ r.instances
    pub keys_differ : KeysDiffer r.by_name
    pub ascending : AreAscending r.instances
    pub below : All (IsBelow r.next_address) r.instances

  values-insert :
      (k : String) (slot : Slot W) (m : Map (Slot W))
      → lookup k m ≡ none
      → values (insert k slot m) ≡ values m ++ slot ∷ []
  unfolding lookup insert
  values-insert k slot [] e = refl
  values-insert k slot ((j, v) ∷ m) e = ground (arith, values-insert k slot m)

  All-snoc :
      (P : Slot W → Type 0) (xs : List (Slot W)) (x : Slot W)
      → All P xs
      → P x
      → All P (xs ++ x ∷ [])
  All-snoc P [] x ps p = (p, tt)
  All-snoc P (y ∷ xs) x (q, ps) p = (q, All-snoc P xs x ps p)

  AreAscending-snoc :
      (xs : List (Slot W)) (x : Slot W)
      → AreAscending xs
      → All (IsBelow x.address) xs
      → AreAscending (xs ++ x ∷ [])
  AreAscending-snoc [] x a b = (tt, tt)
  AreAscending-snoc (y ∷ xs) x (lower, a) (b, bs) =
      (All-snoc (λ z. y.address < z.address) xs x lower b, AreAscending-snoc xs x a bs)

  IsBelow-suc : (n : ℕ) (xs : List (Slot W)) → All (IsBelow n) xs → All (IsBelow (suc n)) xs
  IsBelow-suc n [] bs = tt
  IsBelow-suc n (x ∷ xs) (b, bs) = (omega (arith, b), IsBelow-suc n xs bs)

  -- Adding an instance under a new name keeps the list and the map in agreement.
  pub add_instance-IsConsistent :
      (name : String) (pi : ProviderInstance W) (r : Registry W)
      → lookup name r.by_name ≡ none
      → IsConsistent r
      → IsConsistent (add_instance name pi r)
  unfolding add_instance
  add_instance-IsConsistent name pi r new c =
      let slot : Slot W = record { address = r.next_address; value = pi } in
      record {
        same = values-insert name slot r.by_name new ∙ ap (λ xs. xs ++ slot ∷ []) c.same;
        keys_differ = KeysDiffer-insert name slot r.by_name c.keys_differ;
        ascending = AreAscending-snoc r.instances slot c.ascending c.below;
        below =
            All-snoc (IsBelow (suc r.next_address)) r.instances slot
              (IsBelow-suc r.next_address r.instances c.below) (omega arith);
      }

  lookup-All :
      (P : Slot W → Type 0) (k : String) (slot : Slot W) (m : Map (Slot W))
      → All P (values m)
      → lookup k m ≡ some slot
      → P slot
  unfolding lookup
  lookup-All P k slot [] ps e = ground arith
  lookup-All P k slot ((j, v) ∷ m) (p, ps) e = elim (Bool-cases (j == k)) [
    | inl same ↦ subst P (ground arith) p
    | inr differ ↦ lookup-All P k slot m ps (ground arith)
  ]

  -- What `Remove` takes off the list is what it takes off the map.
  remove_address-delete :
      (k : String) (slot : Slot W) (m : Map (Slot W))
      → KeysDiffer m
      → AreAscending (values m)
      → lookup k m ≡ some slot
      → values (delete k m) ≡ remove_address slot.address (values m)
  unfolding lookup delete remove_address
  remove_address-delete k slot [] d a e = ground arith
  remove_address-delete k slot ((j, v) ∷ m) (new, d) (lower, a) e = elim (Bool-cases (j == k)) [
    | inl same ↦
        let absent = delete_absent k m in let equal = eq_iff j k in ground (arith, absent, equal)
    | inr differ ↦
        let there : lookup k m ≡ some slot = ground arith in
        let above : v.address < slot.address =
          lookup-All (λ y. v.address < y.address) k slot m lower there in
        let rest = remove_address-delete k slot m d a there in ground (arith, above, rest)
  ]

  All-remove_address :
      (P : Slot W → Type 0) (n : ℕ) (xs : List (Slot W)) → All P xs → All P (remove_address n xs)
  unfolding remove_address
  All-remove_address P n [] ps = tt
  All-remove_address P n (x ∷ xs) (p, ps) =
      let rest = All-remove_address P n xs ps in ground (arith, p, ps, rest)

  AreAscending-remove_address :
      (n : ℕ) (xs : List (Slot W)) → AreAscending xs → AreAscending (remove_address n xs)
  unfolding remove_address
  AreAscending-remove_address n [] a = tt
  AreAscending-remove_address n (x ∷ xs) (lower, a) =
      let rest = AreAscending-remove_address n xs a in
      let others = All-remove_address (λ y. x.address < y.address) n xs lower in
      ground (arith, a, rest, others)

  removed :
      (name : String) (r : Registry W) (slot : Slot W)
      → lookup name r.by_name ≡ some slot
      → IsConsistent r
      → IsConsistent (record r {
        instances = remove_address slot.address r.instances;
        by_name = delete name r.by_name;
      })
  removed name r slot e c = record {
    same =
        remove_address-delete name slot r.by_name c.keys_differ
          (subst AreAscending (sym c.same) c.ascending) e
        ∙ ap (remove_address slot.address) c.same;
    keys_differ = KeysDiffer-delete name r.by_name c.keys_differ;
    ascending = AreAscending-remove_address slot.address r.instances c.ascending;
    below = All-remove_address (IsBelow r.next_address) slot.address r.instances c.below;
  }

  -- Whatever the name, `Remove` leaves the list and the map by name in agreement, and the name leads
  -- to no instance any more.
  pub remove-IsConsistent :
      (name : String) (r : Registry W)
      → IsConsistent r
      → IsConsistent (remove name r).1 × (get name (remove name r).1 ≡ none)
  unfolding remove get
  remove-IsConsistent name r c = elim (Option-cases (lookup name r.by_name)) [
    | inl e ↦ rw (e, remove) (c, rw (e, get) refl)
    | inr (slot, e) ↦
        let gone = lookup-delete name name r.by_name in
        let same = eq_refl name in
        rw (e, remove) (removed name r slot e c, rw (get, gone, same) refl)
  ]

module _ {W : Type 0} (ip_family : String → Option Family)
    (compile_regexp : String → Option (String → Bool)) where
  finish-IsConsistent :
      (cfg : ProviderInstanceConfig) (provider : Provider W) (m : Option DomainMatcher)
      (r : Registry W)
      → lookup cfg.name r.by_name ≡ none
      → IsConsistent r
      → IsConsistent (finish ip_family compile_regexp cfg provider m r).1
  unfolding finish
  finish-IsConsistent cfg provider none r new c = c
  finish-IsConsistent cfg provider (some m) r new c =
      add_instance-IsConsistent cfg.name (build_instance cfg r.instance_id provider m) r new c

  construct-IsConsistent :
      (cfg : ProviderInstanceConfig) (p : Result (Provider W)) (r : Registry W)
      → lookup cfg.name r.by_name ≡ none
      → IsConsistent r
      → IsConsistent (construct ip_family compile_regexp cfg p r).1
  unfolding construct
  construct-IsConsistent cfg (err e) r new c = c
  construct-IsConsistent cfg (ok p) r new c = finish-IsConsistent cfg p _ r new c

  make-IsConsistent :
      (cfg : ProviderInstanceConfig) (f : Option (Factory W)) (r : Registry W)
      → lookup cfg.name r.by_name ≡ none
      → IsConsistent r
      → IsConsistent (make ip_family compile_regexp cfg f r).1
  unfolding make
  make-IsConsistent cfg none r new c = c
  make-IsConsistent cfg (some f) r new c =
      construct-IsConsistent cfg (f cfg.name cfg.provider_config) r new c

  -- Whether or not it fails, `CreateInstance` keeps the list and the map by name in agreement.
  pub create_instance-IsConsistent :
      (cfg : ProviderInstanceConfig) (r : Registry W)
      → IsConsistent r
      → IsConsistent (create_instance ip_family compile_regexp cfg r).1
  unfolding create_instance
  create_instance-IsConsistent cfg r c = elim (Option-cases (validate ip_family cfg)) [
    | inr (e, invalid) ↦ rw (invalid, create_instance) c
    | inl valid ↦ elim (Option-cases (lookup cfg.name r.by_name)) [
      | inr (slot, there) ↦ rw (valid, there, create_instance) c
      | inl new ↦
          rw (valid, new, create_instance)
            (make-IsConsistent cfg (lookup cfg.type_name r.factories) r new c)
    ]
  ]
