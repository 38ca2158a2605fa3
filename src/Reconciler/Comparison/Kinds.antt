-- ===== src/Reconciler/Comparison/Kinds.antt =====
-- What the comparison puts where.
use dnsweaver.Base.{
  suc, ◌+◌, String, ◌≡◌, refl, sym, ap, ◌∙◌, true, Option, none, some, List, [], ◌∷◌, ◌==◌, eq_iff,
  arith, All, length, Bool-cases, Option-cases, inl, inr,
}
use dnsweaver.Base.Map.{Map, lookup, insert}
use dnsweaver.Provider.Record.{Record}
use dnsweaver.Reconciler.Comparison.{
  RecordPair, RecordDiff, record_key, record_needs_update, keyed_from, place_desired,
  compare_desired, compare_existing, compare_record_sets,
}

-- every record stands under its key
abbrev pub IsKeyed : String × Record → Type 0
IsKeyed (k, r) = record_key r ≡ k

All-insert : (r : Record) (m : Map Record) → All IsKeyed m → All IsKeyed (insert (record_key r) r m)
unfolding insert
All-insert r [] h = (refl, tt)
All-insert r ((j, old) ∷ m) (k, h) = ground (arith, eq_iff j (record_key r), All-insert r m h, k, h)

keyed_from-IsKeyed :
    (m : Map Record) (rs : List Record) → All IsKeyed m → All IsKeyed (keyed_from m rs)
unfolding keyed_from
keyed_from-IsKeyed m [] h = h
keyed_from-IsKeyed m (r ∷ rs) h =
    keyed_from-IsKeyed (insert (record_key r) r m) rs (All-insert r m h)

lookup-IsKeyed :
    (k : String) (r : Record) (m : Map Record)
    → All IsKeyed m
    → lookup k m ≡ some r
    → record_key r ≡ k
unfolding lookup
lookup-IsKeyed k r [] h e = ground arith
lookup-IsKeyed k r ((j, s) ∷ m) (key, h) e = elim (Bool-cases (j == k)) [
  | inl same ↦ ap record_key (ground arith) ∙ key ∙ (eq_iff j k).0 same
  | inr differ ↦ lookup-IsKeyed k r m h (ground arith)
]

-- no existing record has its key
abbrev pub IsMissing : Map Record → Record → Type 0
IsMissing m r = lookup (record_key r) m ≡ none

-- two records of one key, of which the existing one has another TTL or other SRV data
abbrev pub IsOutdated : RecordPair → Type 0
IsOutdated p =
    (record_key p.existing ≡ record_key p.desired)
    × (record_needs_update p.existing p.desired ≡ true)

abbrev IsSorted : Map Record → RecordDiff → Type 0
IsSorted existing d = All (IsMissing existing) d.to_create × All IsOutdated d.to_update

place_desired-IsSorted :
    (m : Map Record) (r : Record) (o : Option Record) (d : RecordDiff)
    → lookup (record_key r) m ≡ o
    → ((x : Record) → o ≡ some x → record_key x ≡ record_key r)
    → IsSorted m d
    → IsSorted m (place_desired r o d)
unfolding place_desired
place_desired-IsSorted m r none d e same (c, u) = ((e, c), u)
place_desired-IsSorted m r (some x) d e same (c, u) =
    let key = same x refl in ground (arith, key, c, u)

compare_desired-IsSorted :
    (existing desired : Map Record)
    → All IsKeyed existing
    → All IsKeyed desired
    → IsSorted existing (compare_desired existing desired)
unfolding compare_desired
compare_desired-IsSorted existing [] he hd = (tt, tt)
compare_desired-IsSorted existing ((k, r) ∷ rest) he (key, hd) =
    place_desired-IsSorted existing r (lookup k existing) (compare_desired existing rest)
      (ap (λ j. lookup j existing) key) (λ x e. lookup-IsKeyed k x existing he e ∙ sym key)
      (compare_desired-IsSorted existing rest he hd)

compare_existing-IsMissing :
    (desired existing : Map Record)
    → All IsKeyed existing
    → All (IsMissing desired) (compare_existing desired existing)
unfolding compare_existing
compare_existing-IsMissing desired [] h = tt
compare_existing-IsMissing desired ((k, r) ∷ rest) (key, h) =
    let more = compare_existing-IsMissing desired rest h in
    elim (Option-cases (lookup k desired)) [
      | inl none_there ↦ rw none_there (ap (λ j. lookup j desired) key ∙ none_there, more)
      | inr (x, there) ↦ rw there more
    ]

pub compare_record_sets-keys :
    (existing desired : List Record)
    → let d = compare_record_sets existing desired in
      All (IsMissing (keyed_from [] existing)) d.to_create
      × All IsOutdated d.to_update
      × All (IsMissing (keyed_from [] desired)) d.to_delete
unfolding compare_record_sets
compare_record_sets-keys existing desired =
    let he = keyed_from-IsKeyed [] existing tt in
    let hd = keyed_from-IsKeyed [] desired tt in
    let (created, updated) =
      compare_desired-IsSorted (keyed_from [] existing) (keyed_from [] desired) he hd in
    (
      created,
      updated,
      compare_existing-IsMissing (keyed_from [] desired) (keyed_from [] existing) he,
    )

placed :
    (r : Record) (o : Option Record) (d : RecordDiff)
    → length (place_desired r o d).to_create
        + length (place_desired r o d).to_update
        + length (place_desired r o d).unchanged
      ≡ suc (length d.to_create + length d.to_update + length d.unchanged)
unfolding place_desired
placed r none d = omega arith
placed r (some x) d = ground arith

compare_desired-counted :
    (existing desired : Map Record)
    → let d = compare_desired existing desired in
      length d.to_create + length d.to_update + length d.unchanged ≡ length desired
unfolding compare_desired
compare_desired-counted existing [] = refl
compare_desired-counted existing ((k, r) ∷ rest) =
    placed r (lookup k existing) (compare_desired existing rest)
    ∙ ap suc (compare_desired-counted existing rest)

pub compare_record_sets-counted :
    (existing desired : List Record)
    → let d = compare_record_sets existing desired in
      length d.to_create + length d.to_update + length d.unchanged ≡ length (keyed_from [] desired)
unfolding compare_record_sets
compare_record_sets-counted existing desired =
    compare_desired-counted (keyed_from [] existing) (keyed_from [] desired)
