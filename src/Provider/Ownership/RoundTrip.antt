-- ===== src/Provider/Ownership/RoundTrip.antt =====
-- Reading back the ownership values that are written: `MakeOwnershipValue`, `ParseOwnershipValue`
-- and `MatchesOwnership`.
use Prim.Native.String.{◌++◌ as append}
use text.Mathlib.TextLemmas.{nil-append, append_assoc}
use dnsweaver.Base.{
  String, ◌≡◌, refl, ap, ◌∙◌, Bool, true, false, not, ◌||◌, Option, none, some, List, [], ◌∷◌, ◌++◌,
  map, arith, ◌==◌, eq_iff, if◌then◌else◌, select, contains, All, All-select, Bool-cases, inl, inr,
  All-append, All-select_test,
}
use dnsweaver.Base.Map.{Map, lookup, insert, keys, lookup-insert}
use dnsweaver.Provider.Ownership.{
  ownership_heritage, is_reserved, place, sort, get, write_pairs, written_keys,
  make_ownership_value, Ownership, legacy, read_part, parse_ownership_value, matches_ownership,
}
use dnsweaver.Provider.Ownership.Parts.{Lacks, strip_prefix-append}
use dnsweaver.Provider.Ownership.Rendered.{IsWritable, render, read_pairs, read_rest-render}

abbrev with_value : Map String → String → String × String
with_value m k = (k, get m k)

abbrev instance_pair : String → List (String × String)
instance_pair id = if id == "" then [] else ("instance", id) ∷ []

write_pairs-render :
    (m : Map String) (ks : List String) → write_pairs m ks ≡ render (map (with_value m) ks)
unfolding write_pairs render
write_pairs-render m [] = refl
write_pairs-render m (k ∷ ks) = rw (write_pairs-render m ks)

instance_text :
    (id rest : String)
    → append (append ",instance=" id) rest
      ≡ append "," (append "instance" (append "=" (append id rest)))
instance_text id rest =
    append_assoc ",instance=" id rest
    ∙ append_assoc "," "instance=" (append id rest)
    ∙ ap (append ",") (append_assoc "instance" "=" (append id rest))

make-render :
    (id : String) (m : Map String)
    → make_ownership_value id m
      ≡ append ownership_heritage (render (instance_pair id ++ map (with_value m) (written_keys m)))
unfolding make_ownership_value render
make-render id m = elim (Bool-cases (id == "")) [
  | inl e ↦ rw (e, write_pairs-render m (written_keys m), nil-append)
  | inr e ↦
      rw (e, write_pairs-render m (written_keys m))
        (ap (append ownership_heritage) (instance_text id _))
]

module _ (P : String → Type 0) where
  All-place : (k : String) (ks : List String) → P k → All P ks → All P (place k ks)
  unfolding place
  All-place k [] h hs = (h, tt)
  All-place k (j ∷ ks) h hs = ground (arith, All-place k ks h hs.1)

  All-sort : (ks : List String) → All P ks → All P (sort ks)
  unfolding sort
  All-sort [] h = tt
  All-sort (k ∷ ks) (h, hs) = All-place k (sort ks) h (All-sort ks hs)

contains-place :
    (j k : String) (ks : List String) → contains j (place k ks) ≡ (k == j || contains j ks)
unfolding place
contains-place j k [] = refl
contains-place j k (i ∷ ks) = ground (arith, contains-place j k ks)

contains-sort : (j : String) (ks : List String) → contains j (sort ks) ≡ contains j ks
unfolding sort
contains-sort j [] = refl
contains-sort j (k ∷ ks) = ground (arith, contains-place j k (sort ks), contains-sort j ks)

-- A key is written exactly if it is not reserved and the map has it.
abbrev has : Option String → Bool
has none = false
has (some _) = true

contains-select :
    (p : String → Bool) (j : String) (m : Map String)
    → contains j (select p (keys m)) ≡ (if p j then has (lookup j m) else false)
unfolding lookup
contains-select p j [] = ground arith
contains-select p j ((k, v) ∷ m) = ground (arith, contains-select p j m, eq_iff k j)

contains-written_keys :
    (j : String) (m : Map String)
    → contains j (written_keys m) ≡ (if is_reserved j then false else has (lookup j m))
unfolding written_keys
contains-written_keys j m =
    contains-sort j _ ∙ contains-select (λ k. not (is_reserved k)) j m ∙ flip (is_reserved j) _
  where
    flip : (b : Bool) (x : Bool) → (if not b then x else false) ≡ (if b then false else x)
    flip true x = refl
    flip false x = refl

-- What the loop of `ParseOwnershipValue` reads from pairs with keys that are not reserved.
read_part_plain :
    (o : Ownership) (k v : String)
    → not (is_reserved k) ≡ true
    → read_part o (some (k, v)) ≡ record o { metadata = insert k v o.metadata }
unfolding read_part
read_part_plain o k v h = ground arith

lookup-read_pairs :
    (m : Map String) (ks : List String) (o : Ownership) (j : String)
    → All (λ k. not (is_reserved k) ≡ true) ks
    → let r = read_pairs o (map (with_value m) ks) in
      (r.is_owned ≡ o.is_owned)
      × (r.instance_id ≡ o.instance_id)
      × (lookup j r.metadata ≡ (if contains j ks then some (get m j) else lookup j o.metadata))
unfolding read_pairs
lookup-read_pairs m [] o j h = (refl, refl, refl)
lookup-read_pairs m (k ∷ ks) o j (hk, h) =
    let o' = record o { metadata = insert k (get m k) o.metadata } in
    rw (read_part_plain o k (get m k) hk, read_pairs)
      (let ih = lookup-read_pairs m ks o' j h in
        (ih.0, ih.1, ih.2 ∙ ground (arith, lookup-insert k j (get m k) o.metadata, eq_iff k j)))

-- Every written pair can be read back, if the map's pairs can.
get-Lacks : (m : Map String) (k : String) → All IsWritable m → Lacks b',' (get m k)
unfolding lookup
get-Lacks [] k h = tt
get-Lacks ((j, v) ∷ m) k ((_, _, hv), h) = ground (arith, get-Lacks m k h)

keys-writable :
    (m : Map String) → All IsWritable m → All (λ k. Lacks b',' k × Lacks b'=' k) (keys m)
keys-writable [] h = tt
keys-writable ((k, v) ∷ m) ((hk, he, hv), h) = ((hk, he), keys-writable m h)

pairs-IsWritable :
    (m : Map String) (ks : List String)
    → All IsWritable m
    → All (λ k. Lacks b',' k × Lacks b'=' k) ks
    → All IsWritable (map (with_value m) ks)
pairs-IsWritable m [] hm h = tt
pairs-IsWritable m (k ∷ ks) hm ((hk, he), h) =
    ((hk, he, get-Lacks m k hm), pairs-IsWritable m ks hm h)

written_keys-plain : (m : Map String) → All (λ k. not (is_reserved k) ≡ true) (written_keys m)
unfolding written_keys
written_keys-plain m = All-sort _ _ (All-select_test (λ k. not (is_reserved k)) (keys m))

written-IsWritable :
    (m : Map String) → All IsWritable m → All IsWritable (map (with_value m) (written_keys m))
unfolding written_keys
written-IsWritable m h =
    pairs-IsWritable m _ h (All-sort _ _ (All-select _ _ (keys m) (keys-writable m h)))

value-if-has :
    (m : Map String) (j : String)
    → (if (if is_reserved j then false else has (lookup j m)) then some (get m j) else none)
      ≡ (if is_reserved j then none else lookup j m)
value-if-has m j = ground arith

-- the state of the loop after the instance's pair
abbrev after_instance : String → Ownership
after_instance id = record legacy { instance_id = id }

read_instance :
    (id : String) (ps : List (String × String))
    → read_pairs legacy (instance_pair id ++ ps) ≡ read_pairs (after_instance id) ps
unfolding read_pairs read_part
read_instance id ps = elim (Bool-cases (id == "")) [
  | inl e ↦ rw (e, (eq_iff id "").0 e)
  | inr e ↦ rw e
]

parse-make_pairs :
    (id : String) (m : Map String)
    → Lacks b',' id
    → All IsWritable m
    → parse_ownership_value (make_ownership_value id m)
      ≡ read_pairs (after_instance id) (map (with_value m) (written_keys m))
unfolding parse_ownership_value
parse-make_pairs id m hid hm =
    rw (make-render id m, strip_prefix-append ownership_heritage _, parse_ownership_value)
      (read_rest-render _ (All-append IsWritable _ _ instance_writable (written-IsWritable m hm))
        ∙ read_instance id _)
  where
    instance_writable : All IsWritable (instance_pair id)
    instance_writable = ground arith

-- Reading a written ownership value gives back that it is dnsweaver's, the instance and, for every
-- key, the value that the metadata holds under it, the reserved keys left out; if the instance
-- holds no comma, no key a comma or `=`, and no value a comma.
pub parse-make :
    (id : String) (m : Map String)
    → Lacks b',' id
    → All IsWritable m
    → let o = parse_ownership_value (make_ownership_value id m) in
      (o.is_owned ≡ true)
      × (o.instance_id ≡ id)
      × ((k : String) → lookup k o.metadata ≡ (if is_reserved k then none else lookup k m))
parse-make id m hid hm =
    rw (parse-make_pairs id m hid hm) ((read "").0, (read "").1, λ k. (read k).2 ∙ written k)
  where
    read :
        (j : String)
        → let r = read_pairs (after_instance id) (map (with_value m) (written_keys m)) in
          (r.is_owned ≡ true)
          × (r.instance_id ≡ id)
          × (lookup j r.metadata
              ≡ (if contains j (written_keys m) then some (get m j) else lookup j []))
    read j = lookup-read_pairs m (written_keys m) (after_instance id) j (written_keys-plain m)

    written :
        (k : String)
        → (if contains k (written_keys m) then some (get m k) else lookup k [])
          ≡ (if is_reserved k then none else lookup k m)
    written k = rw (contains-written_keys k m) (unfold lookup in value-if-has m k)

-- A value that one instance writes is another's exactly if their identifiers are equal, the empty
-- one of the single-instance mode included; if the writer's instance holds no comma, no metadata key
-- a comma or `=`, and no metadata value a comma.
pub matches-make :
    (id ours : String) (m : Map String)
    → Lacks b',' id
    → All IsWritable m
    → matches_ownership (make_ownership_value id m) ours ≡ (id == ours)
unfolding matches_ownership
matches-make id ours m hid hm = let r = parse-make id m hid hm in rw (r.0, r.1)
