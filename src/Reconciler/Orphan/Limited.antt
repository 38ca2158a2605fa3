-- ===== src/Reconciler/Orphan/Limited.antt =====
-- How many hostnames orphan cleanup deletes at most: the circuit breaker of `cleanupOrphans`.
use mathlib.Core.List.{Memᴰ as IsIn}
use dnsweaver.Base.{
  ℕ, ◌*◌, ◌≤◌, String, ◌≡◌, refl, sym, subst, Bool-cases, false, ◌⊎◌, inl, inr, Option, List, [],
  ◌∷◌, arith, All, All-imp, length,
}
use dnsweaver.Provider.Interface.{Call, System, ◌>>=◌}
use dnsweaver.Reconciler.Cache.{RecordCache}
use dnsweaver.Reconciler.Env.{Env}
use dnsweaver.Reconciler.Orphan.Calls.{Touches, cleanup_each-Issues}
use dnsweaver.Reconciler.Orphan.{cleanup_orphans, orphans, breaker_trips}

length-orphans : (current known : List String) → length (orphans current known) ≤ length known
unfolding orphans
length-orphans current [] = ground arith
length-orphans current (h ∷ known) = ground (arith, length-orphans current known)

-- Where the breaker does not stop the cleanup, there is one orphan, or half of the known ones at most.
holds : (o p : ℕ) → o ≤ p → breaker_trips o p ≡ false → (o ≤ 1) ⊎ (2 * o ≤ p)
unfolding breaker_trips
holds o p le e = ground arith

-- A listing, or the delete of a record or of the marker of one of the hostnames.
abbrev pub IsDeleteOf : List String → Call → Type 0
IsDeleteOf hs (Call.list n) = Unit
IsDeleteOf hs (Call.delete n r) = (h : String) × IsIn h hs × Touches h r
IsDeleteOf hs (Call.create n r) = ⊥
IsDeleteOf hs (Call.update n x y) = ⊥

-- The calls are about a few hostnames: one, or at most half of so many.
abbrev pub IsLimited : ℕ → List Call → Type 0
IsLimited total calls =
    (hs : List String) × ((length hs ≤ 1) ⊎ (2 * length hs ≤ total)) × All (IsDeleteOf hs) calls

All-IsIn : (xs : List String) → All (λ x. IsIn x xs) xs
All-IsIn [] = tt
All-IsIn (x ∷ xs) = (IsIn.head refl, All-imp (λ y y_in. IsIn.tail y_in) xs (All-IsIn xs))

-- However many of the known hostnames are gone, and whatever the providers answer, one run of orphan
-- cleanup deletes records and markers of one hostname only, or of at most half as many hostnames as
-- were known.
pub cleanup_orphans-IsLimited :
    {W : Type 0} (env : Env W) (cache : Option RecordCache) (current : List String) (s : System W)
    → s.calls ≡ []
    → IsLimited (length s.known_hostnames) (cleanup_orphans env cache current s).1.calls
unfolding cleanup_orphans ◌>>=◌
cleanup_orphans-IsLimited env cache current s empty =
    let known = s.known_hostnames in
    let gone = orphans current known in
    elim (Bool-cases (breaker_trips (length gone) (length known))) [
      | inl stop ↦ rw stop ([], inl (ground arith), subst (All (IsDeleteOf [])) (sym empty) tt)
      | inr go ↦ rw go (
        gone,
        holds (length gone) (length known) (length-orphans current known) go,
        (cleanup_each-Issues env cache (IsDeleteOf gone) (λ n. tt) (λ h. IsIn h gone)
              (λ d h h_in n r touches. (h, h_in, touches)) gone (All-IsIn gone)).at
            s (subst (All (IsDeleteOf gone)) (sym empty) tt),
      )
    ]
