-- ===== src/Reconciler/Orphan/Owned.antt =====
-- Which instances orphan cleanup deletes at, over all providers and modes, with a cache.
use mathlib.Core.List.{Memᴰ as IsIn}
use dnsweaver.Base.{
  String, ◌≡◌, refl, sym, subst, Bool, Bool-cases, true, false, not, ◌&&◌, ◌||◌, ◌⊎◌, inl, inr,
  Option, none, some, List, [], ◌∷◌, arith, All, All-imp, All-select, length,
}
use dnsweaver.Base.Map.{Map, lookup}
use dnsweaver.Provider.Mode.{allows_delete, requires_ownership}
use dnsweaver.Provider.Interface.{Call, System, ◌>>=◌}
use dnsweaver.Provider.Interface.Issues.{
  Issues, Issues-pure, Issues-gets_bind, Issues-if, Issues-bind,
}
use dnsweaver.Provider.Instance.{ProviderInstance, name}
use dnsweaver.Provider.Registry.{Registry, get, all, matching_providers}
use dnsweaver.Reconciler.Cache
use dnsweaver.Reconciler.Cache.{RecordCache}
use dnsweaver.Reconciler.Env.{Env}
use dnsweaver.Reconciler.Orphan.Calls.{Touches, IsOrphan, delete_orphan-Issues, orphans-IsOrphan}
use dnsweaver.Reconciler.Orphan.{
  delete_orphan, delete_orphan_all, delete_managed, delete_if_owned, check_ownership, cleanup_each,
  cleanup_orphans, orphans, orphan_providers, registered, breaker_trips,
}

module _ {W : Type 0} (r : Registry W) where
  -- an instance of the registry, in its list or by a name
  abbrev pub IsRegistered : ProviderInstance W → Type 0
  IsRegistered inst = IsIn inst (all r) ⊎ ((n : String) × (get n r ≡ some inst))

  All-IsIn : (xs : List (ProviderInstance W)) → All (λ x. IsIn x xs) xs
  All-IsIn [] = tt
  All-IsIn (x ∷ xs) = (IsIn.head refl, All-imp (λ y y_in. IsIn.tail y_in) xs (All-IsIn xs))

module _ {W : Type 0} (env : Env W) (c : RecordCache) where
  -- The mode of the instance allows the delete: it is not additive, and if the mode asks for a marker,
  -- the tracking is on and the provider can hold markers, then the cache shows the marker.
  abbrev pub may_delete : ProviderInstance W → String → Bool
  may_delete inst h =
      allows_delete inst.mode
      && (not (
            requires_ownership inst.mode
            && env.config.ownership_tracking
            && inst.provider.capabilities.supports_ownership_txt)
          || Cache.has_ownership_record c (name inst) h env.config.instance_id)

  -- A listing, or the delete of a record or of the marker of an orphan at an instance that may.
  abbrev pub IsPermitted : (String → Type 0) → Call → Type 0
  IsPermitted P (Call.list n) = Unit
  IsPermitted P (Call.delete n r) =
      (h : String) × (inst : ProviderInstance W) × P h
      × IsRegistered env.providers inst
      × (n ≡ name inst)
      × Touches h r
      × (may_delete inst h ≡ true)
  IsPermitted P (Call.create n r) = ⊥
  IsPermitted P (Call.update n x y) = ⊥

  unowned_stays :
      (Q : Call → Type 0) (h : String) (inst : ProviderInstance W)
      → Cache.has_ownership_record c (name inst) h env.config.instance_id ≡ false
      → Issues Q (delete_managed env (some c) h inst)
  unfolding delete_managed delete_if_owned check_ownership ◌>>=◌
  unowned_stays Q h inst no_marker = record { at = λ s q. rw no_marker q }

  forbidden-Issues :
      (Q : Call → Type 0) (h : String) (inst : ProviderInstance W)
      → may_delete inst h ≡ false
      → Issues Q (delete_orphan env (some c) h inst)
  unfolding delete_orphan
  forbidden-Issues Q h inst forbidden =
      Issues-if Q (not (allows_delete inst.mode)) _ _ (λ _. Issues-pure Q _)
        (λ allowed.
          Issues-if Q (not (requires_ownership inst.mode)) _ _
            (λ free. absurd (ground (arith, forbidden, allowed, free)))
            (λ asks.
              Issues-if Q (not env.config.ownership_tracking) _ _
                (λ off. absurd (ground (arith, forbidden, allowed, off)))
                (λ on.
                  Issues-if Q inst.provider.capabilities.supports_ownership_txt _ _
                    (λ txt.
                      unowned_stays Q h inst (ground (arith, forbidden, allowed, asks, on, txt)))
                    (λ no_txt. absurd (ground (arith, forbidden, allowed, no_txt))))))

  module _ (P : String → Type 0) where
    orphan-IsPermitted :
        (h : String) (inst : ProviderInstance W)
        → P h
        → IsRegistered env.providers inst
        → Issues (IsPermitted P) (delete_orphan env (some c) h inst)
    orphan-IsPermitted h inst p known = elim (Bool-cases (may_delete inst h)) [
      | inl may ↦
          delete_orphan-Issues env (some c) (IsPermitted P) (λ n. tt) h inst
            (λ d r touches. (h, inst, p, known, refl, touches, may))
      | inr forbidden ↦ forbidden-Issues (IsPermitted P) h inst forbidden
    ]

    every_instance-IsPermitted :
        (h : String) (insts : List (ProviderInstance W))
        → P h
        → All (IsRegistered env.providers) insts
        → Issues (IsPermitted P) (delete_orphan_all env (some c) h insts)
    unfolding delete_orphan_all
    every_instance-IsPermitted h [] p known = Issues-pure (IsPermitted P) []
    every_instance-IsPermitted h (inst ∷ insts) p (k, known) =
        Issues-bind (IsPermitted P) _ _ (orphan-IsPermitted h inst p k) (λ a.
          Issues-bind (IsPermitted P) _ _ (every_instance-IsPermitted h insts p known)
            (λ xs. Issues-pure (IsPermitted P) _))

    registered-IsRegistered :
        (ns : List String) → All (IsRegistered env.providers) (registered env (some c) ns)
    unfolding registered
    registered-IsRegistered [] = tt
    registered-IsRegistered (n ∷ ns) =
        with_name (get n env.providers) refl (registered-IsRegistered ns)
      where
        with_name :
            (o : Option (ProviderInstance W))
            → get n env.providers ≡ o
            → All (IsRegistered env.providers) (registered env (some c) ns)
            → All (IsRegistered env.providers) (elim o [
              | none ↦ registered env (some c) ns
              | some inst ↦ inst ∷ registered env (some c) ns
            ])
        with_name none e rest = rest
        with_name (some inst) e rest = (inr (n, e), rest)

    matching-IsRegistered :
        (h : String) → All (IsRegistered env.providers) (matching_providers h env.providers)
    unfolding matching_providers
    matching-IsRegistered h = All-select (IsRegistered env.providers) _ (all env.providers) (
        All-imp (λ x x_in. inl x_in) (all env.providers)
          (All-IsIn env.providers (all env.providers)))

    orphan_providers-IsRegistered :
        (m : Map (List String)) (h : String)
        → All (IsRegistered env.providers) (orphan_providers env (some c) m h)
    unfolding orphan_providers
    orphan_providers-IsRegistered m h = by_names (lookup h m)
      where
        by_names :
            (o : Option (List String))
            → All (IsRegistered env.providers) (elim o [
              | none ↦ matching_providers h env.providers
              | some [] ↦ matching_providers h env.providers
              | some (n ∷ ns) ↦ registered env (some c) (n ∷ ns)
            ])
        by_names none = matching-IsRegistered h
        by_names (some []) = matching-IsRegistered h
        by_names (some (n ∷ ns)) = registered-IsRegistered (n ∷ ns)

    cleanup_each-IsPermitted :
        (hs : List String) → All P hs → Issues (IsPermitted P) (cleanup_each env (some c) hs)
    unfolding cleanup_each
    cleanup_each-IsPermitted [] ps = Issues-pure (IsPermitted P) []
    cleanup_each-IsPermitted (h ∷ hs) (p, ps) = Issues-gets_bind (IsPermitted P) _ _ (λ s.
        Issues-bind (IsPermitted P) _ _
          (every_instance-IsPermitted h _ p (orphan_providers-IsRegistered s.hostname_providers h))
          (λ a.
            Issues-bind (IsPermitted P) _ _ (cleanup_each-IsPermitted hs ps)
              (λ xs. Issues-pure (IsPermitted P) _)))

-- With a cache, each record that orphan cleanup deletes belongs to a hostname that was known and is no
-- longer there, as its record or its marker, and it is deleted at a registered instance whose mode
-- allows it: not in additive mode, and in managed mode with ownership tracking, at a provider that can
-- hold markers, only if the cache shows the instance's marker for the hostname.
pub cleanup_orphans-IsPermitted :
    {W : Type 0} (env : Env W) (c : RecordCache) (current : List String) (s : System W)
    → s.calls ≡ []
    → All
        (IsPermitted env c (IsOrphan current s.known_hostnames))
        (cleanup_orphans env (some c) current s).1.calls
unfolding cleanup_orphans ◌>>=◌
cleanup_orphans-IsPermitted env c current s empty =
    let known = s.known_hostnames in
    (Issues-if (IsPermitted env c (IsOrphan current known))
        (breaker_trips (length (orphans current known)) (length known)) _ _
        (λ _. Issues-pure (IsPermitted env c (IsOrphan current known)) [])
        (λ _.
          cleanup_each-IsPermitted env c (IsOrphan current known) (orphans current known)
            (orphans-IsOrphan current known known (λ h e. e)))).at
      s (subst (All _) (sym empty) tt)
