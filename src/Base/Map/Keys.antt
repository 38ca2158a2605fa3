-- ===== src/Base/Map/Keys.antt =====
-- Maps whose names differ, and predicates on every entry of a map.
use Prim.Native.Nat.{suc}
use Prim.Native.String.{String}
use mathlib.Core.Path.{◌≡◌, refl, subst}
use mathlib.Core.Bool.{true, false}
use mathlib.Core.Logic.{inl, inr}
use mathlib.Core.Option.{none}
use mathlib.Core.List.{[], ◌∷◌}
use native.Mathlib.Omega.{arith}
use text.Mathlib.Text.{◌==◌}
use text.Mathlib.TextEquality.{eq_iff}
use package.dnsweaver.Base.Tests.{Bool-cases, is_some}
use package.dnsweaver.Base.Lists.{All, length}
use package.dnsweaver.Base.Map.{Map, lookup, insert, delete, lookup-delete}

module _ {V : Type 0} where
  -- no name is in the map twice
  abbrev pub KeysDiffer : Map V → Type 0
  KeysDiffer [] = Unit
  KeysDiffer ((k, _) ∷ m) = (lookup k m ≡ none) × KeysDiffer m

  lookup-insert_other :
      (j k : String) (value : V) (m : Map V)
      → (k == j) ≡ false
      → lookup j m ≡ none
      → lookup j (insert k value m) ≡ none
  unfolding lookup insert
  lookup-insert_other j k value [] other e = ground arith
  lookup-insert_other j k value ((i, v) ∷ m) other e =
      ground (arith, lookup-insert_other j k value m other)

  pub KeysDiffer-insert :
      (k : String) (value : V) (m : Map V) → KeysDiffer m → KeysDiffer (insert k value m)
  unfolding lookup insert
  KeysDiffer-insert k value [] d = (refl, tt)
  KeysDiffer-insert k value ((j, v) ∷ m) (new, d) = ground (
    arith,
    eq_iff j k,
    eq_iff k j,
    KeysDiffer-insert k value m,
    lookup-insert_other j k value m,
    new,
    d,
  )

  pub delete_absent : (k : String) (m : Map V) → lookup k m ≡ none → delete k m ≡ m
  unfolding lookup delete
  delete_absent k [] e = refl
  delete_absent k ((j, v) ∷ m) e = ground (arith, delete_absent k m)

  lookup-delete_none : (j k : String) (m : Map V) → lookup j m ≡ none → lookup j (delete k m) ≡ none
  lookup-delete_none j k m e = ground (arith, lookup-delete k j m)

  pub KeysDiffer-delete : (k : String) (m : Map V) → KeysDiffer m → KeysDiffer (delete k m)
  unfolding delete
  KeysDiffer-delete k [] d = tt
  KeysDiffer-delete k ((j, v) ∷ m) (new, d) =
      let rest = KeysDiffer-delete k m d in
      let absent = lookup-delete_none j k m new in ground (arith, rest, absent)

  pub length-insert_present :
      (k : String) (value : V) (m : Map V)
      → is_some (lookup k m) ≡ true
      → length (insert k value m) ≡ length m
  unfolding lookup insert
  length-insert_present k value [] there = ground arith
  length-insert_present k value ((j, v) ∷ m) there = ground (arith, length-insert_present k value m)

  pub length-insert_absent :
      (k : String) (value : V) (m : Map V)
      → is_some (lookup k m) ≡ false
      → length (insert k value m) ≡ suc (length m)
  unfolding lookup insert
  length-insert_absent k value [] new = refl
  length-insert_absent k value ((j, v) ∷ m) new = ground (arith, length-insert_absent k value m)

  pub length-delete_present :
      (k : String) (m : Map V)
      → KeysDiffer m
      → is_some (lookup k m) ≡ true
      → suc (length (delete k m)) ≡ length m
  unfolding lookup delete
  length-delete_present k [] d there = ground arith
  length-delete_present k ((j, v) ∷ m) (new, d) there =
      let absent = delete_absent k m in
      let rest = length-delete_present k m d in ground (arith, absent, rest, new, eq_iff j k)

  module _ (P : String × V → Type 0) where
    pub All-insert :
        (k : String) (value : V) (m : Map V) → P (k, value) → All P m → All P (insert k value m)
    unfolding insert
    All-insert k value [] p ps = (p, tt)
    All-insert k value ((j, v) ∷ m) p (q, ps) = elim (Bool-cases (j == k)) [
      | inl same ↦
          rw (insert, same) (subst (λ name. P (name, value)) (ground (arith, eq_iff j k)) p, ps)
      | inr differ ↦ rw (insert, differ) (q, All-insert k value m p ps)
    ]

    pub All-delete : (k : String) (m : Map V) → All P m → All P (delete k m)
    unfolding delete
    All-delete k [] ps = tt
    All-delete k ((j, v) ∷ m) (q, ps) = let rest = All-delete k m ps in ground (arith, q, rest)
