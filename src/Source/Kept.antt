-- ===== src/Source/Kept.antt =====
-- pkg/source/registry.go: the two ways in which the registry holds its sources, the list and the map
-- by name.
use dnsweaver.Base.{
  String, ◌≡◌, refl, Bool-cases, inl, inr, Option, none, some, List, [], ◌∷◌, ◌++◌, ◌==◌,
  if◌then◌else◌, is_some, arith, eq_iff,
}
use dnsweaver.Base.Map.{lookup, lookup-insert}
use package.dnsweaver.Source.{Source}
use package.dnsweaver.Source.Registry.{Registry, register}

-- the first source of the list with this name
abbrev pub first_named : String → List Source → Option Source
first_named n [] = none
first_named n (s ∷ ss) = if s.name == n then some s else first_named n ss

-- The map finds the first source of the list with a name.
abbrev pub IsConsistent : Registry → Type 0
IsConsistent r = (n : String) → first_named n r.sources ≡ lookup n r.by_name

first_named-append :
    (n : String) (ss : List Source) (s : Source)
    → first_named n (ss ++ s ∷ []) ≡ (
        if is_some (first_named n ss)
        then first_named n ss
        else if s.name == n
        then some s
        else none)
first_named-append n [] s = refl
first_named-append n (x ∷ ss) s = ground (arith, first_named-append n ss s)

-- Registering a source keeps the list and the map in agreement: no source hides another.
pub register-IsConsistent :
    (s : Source) (r : Registry) → IsConsistent r → IsConsistent (register s r).1
unfolding register
register-IsConsistent s r same n = elim (Bool-cases (is_some (lookup s.name r.by_name))) [
  | inl there ↦ rw there (same n)
  | inr new ↦ rw new (
      ground (
        arith,
        first_named-append n r.sources s,
        lookup-insert s.name n s r.by_name,
        same n,
        same s.name,
        new,
        eq_iff s.name n,
      ))
]
