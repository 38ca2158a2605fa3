-- ===== src/Provider/Ownership.antt =====
-- The ownership TXT records of pkg/provider/provider.go: their names and their values.
pub mod Parts
pub mod Rendered
pub mod RoundTrip
use Prim.Native.Nat.{Ordering}
use Prim.Native.String.{◌++◌ as append, compare}
use dnsweaver.Base.{
  ℕ, String, Bool, true, false, not, ◌||◌, Option, none, some, List, [], ◌∷◌, ◌==◌, if◌then◌else◌,
  select,
}
use dnsweaver.Base.Map.{Map, lookup, insert, keys}
use dnsweaver.Provider.Record.{Record, RecordType, new_record}
use Parts.{split, split_pair, strip_prefix}

abbrev pub ownership_prefix : String
ownership_prefix = "_dnsweaver"

abbrev pub ownership_heritage : String
ownership_heritage = "heritage=dnsweaver"

abbrev pub is_reserved : String → Bool
is_reserved k = k == "heritage" || k == "instance"

abbrev before : String → String → Bool
before s t = elim (compare s t) [ Ordering.gt ↦ false | _ ↦ true ]

place : String → List String → List String
place k [] = k ∷ []
place k (j ∷ ks) = if before k j then k ∷ (j ∷ ks) else j ∷ place k ks

-- sort.Strings
sort : List String → List String
unfolding place
sort [] = []
sort (k ∷ ks) = place k (sort ks)

-- m[k]: the empty string where the key is missing
abbrev pub get : Map String → String → String
get m k = elim (lookup k m) [ none ↦ "" | some v ↦ v ]

write_pairs : Map String → List String → String
write_pairs m [] = ""
write_pairs m (k ∷ ks) = append "," (append k (append "=" (append (get m k) (write_pairs m ks))))

-- the keys that are written, in order
written_keys : Map String → List String
unfolding sort
written_keys metadata = sort (select (λ k. not (is_reserved k)) (keys metadata))

-- `MakeOwnershipValue`
unfoldable pub make_ownership_value : String → Map String → String
unfolding write_pairs written_keys
make_ownership_value instance_id metadata = append ownership_heritage (
    append (if instance_id == "" then "" else append ",instance=" instance_id)
      (write_pairs metadata (written_keys metadata)))

pub record Ownership : Type 0 where
  pub is_owned : Bool
  pub instance_id : String
  pub metadata : Map String

abbrev pub not_owned : Ownership
not_owned = record { is_owned = false; instance_id = ""; metadata = [] }

abbrev pub legacy : Ownership
legacy = record { is_owned = true; instance_id = ""; metadata = [] }

-- one round of the loop over the parts
pub read_part : Ownership → Option (String × String) → Ownership
read_part o none = o
read_part o (some (k, v)) =
    if k == "instance"
    then record o { instance_id = v }
    else if k == "heritage"
    then o
    else record o { metadata = insert k v o.metadata }

read_parts : Ownership → List String → Ownership
read_parts o [] = o
read_parts o (p ∷ ps) = read_parts (read_part o (split_pair p)) ps

-- what follows the heritage
pub read_rest : String → Ownership
unfolding read_parts read_part
read_rest rest = if rest == "" then legacy else elim (strip_prefix "," rest) [
  | none ↦ not_owned
  | some pairs ↦ read_parts legacy (split pairs)
]

-- `ParseOwnershipValue`
unfoldable pub parse_ownership_value : String → Ownership
unfolding read_rest
parse_ownership_value value = elim (strip_prefix ownership_heritage value) [
  | none ↦ not_owned
  | some rest ↦ read_rest rest
]

-- `MatchesOwnership`
unfoldable pub matches_ownership : String → String → Bool
matches_ownership value our_instance_id =
    let o = parse_ownership_value value in
    if o.is_owned then o.instance_id == our_instance_id else false

-- `OwnershipRecordName`
unfoldable pub ownership_record_name : String → String
ownership_record_name hostname = append ownership_prefix (append "." hostname)

-- `ExtractHostnameFromOwnership` with the test of `IsOwnershipRecord`: `none` is the empty string
-- that stands for "not an ownership record"
unfoldable pub extract_hostname : String → Option String
extract_hostname name = elim (strip_prefix (append ownership_prefix ".") name) [
  | none ↦ none
  | some hostname ↦ if hostname == "" then none else some hostname
]

-- `OwnershipRecord`
unfoldable pub ownership_record : String → ℕ → String → Map String → Record
ownership_record hostname ttl instance_id metadata =
    new_record (ownership_record_name hostname) RecordType.txt
      (make_ownership_value instance_id metadata) ttl none []
