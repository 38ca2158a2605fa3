-- ===== src/Reconciler/Comparison.antt =====
-- internal/reconciler/comparison.go: the comparison of two sets of records. The maps are iterated in
-- the order of their lists.
pub mod Kinds
pub mod Placed
use Prim.Native.Nat.{◌/◌, ◌%◌}
use Prim.Native.String.{◌++◌ as append}
use dnsweaver.Base.{
  ℕ, zero, suc, ◌+◌, String, Bool, not, ◌&&◌, ◌||◌, Option, none, some, List, [], ◌∷◌, ◌==◌,
  if◌then◌else◌, ltb, nat_eq, select, length, is_some,
}
use dnsweaver.Base.Map.{Map, lookup, insert}
use dnsweaver.Hostname.{normalize_hostname}
use dnsweaver.Provider.Record.{Record, RecordType, SrvData, type_text, type_eq, srv_data_equals}

pub record RecordPair : Type 0 where
  pub existing : Record
  pub desired : Record

pub record RecordDiff : Type 0 where
  pub to_create : List Record
  pub to_update : List RecordPair
  pub to_delete : List Record
  pub unchanged : List Record

abbrev nth : ℕ → List String → String
nth n [] = ""
nth zero (s ∷ ss) = s
nth (suc n) (s ∷ ss) = nth n ss

digit : ℕ → String
digit n = nth n ("0" ∷ "1" ∷ "2" ∷ "3" ∷ "4" ∷ "5" ∷ "6" ∷ "7" ∷ "8" ∷ "9" ∷ [])

-- `%d`, for a number of at most this many digits
decimal_from : ℕ → ℕ → String → String
unfolding digit
decimal_from zero n rest = rest
decimal_from (suc fuel) n rest =
    let more = decimal_from fuel (n / 10) (append (digit (n % 10)) rest) in
    if ltb n 10 then append (digit n) rest else more

-- the numbers of an SRV record are uint16, of at most five digits
decimal : ℕ → String
unfolding decimal_from
decimal n = decimal_from 5 n ""

-- `formatSRVKey`
format_srv_key : SrvData → String
unfolding decimal
format_srv_key srv =
    append (decimal srv.priority)
      (append ":" (append (decimal srv.weight) (append ":" (decimal srv.port))))

abbrev srv_suffix : RecordType → Option SrvData → String
srv_suffix RecordType.srv (some srv_data) = append "|" (format_srv_key srv_data)
srv_suffix _ _ = ""

-- `recordKey`
unfoldable pub record_key : Record → String
unfolding format_srv_key
record_key r = append (normalize_hostname r.hostname) (
    append "|" (append (type_text r.type) (append "|" (append r.target (srv_suffix r.type r.srv)))))

-- `recordNeedsUpdate`
unfoldable pub record_needs_update : Record → Record → Bool
record_needs_update existing desired =
    not (nat_eq existing.ttl desired.ttl)
    || (type_eq existing.type RecordType.srv && not (srv_data_equals existing.srv desired.srv))

-- the loops that build the maps: a later record of a key replaces an earlier one
unfoldable pub keyed_from : Map Record → List Record → Map Record
unfolding record_key
keyed_from m [] = m
keyed_from m (r ∷ rs) = keyed_from (insert (record_key r) r m) rs

abbrev pub empty_diff : RecordDiff
empty_diff = record { to_create = []; to_update = []; to_delete = []; unchanged = [] }

-- one desired record, with the existing one of its key
unfoldable pub place_desired : Record → Option Record → RecordDiff → RecordDiff
unfolding record_needs_update
place_desired desired none d = record d { to_create = desired ∷ d.to_create }
place_desired desired (some existing) d =
    if record_needs_update existing desired
    then record d { to_update = record { existing = existing; desired = desired } ∷ d.to_update }
    else record d { unchanged = existing ∷ d.unchanged }

-- the loop over the desired records
unfoldable pub compare_desired : Map Record → Map Record → RecordDiff
unfolding place_desired
compare_desired existing [] = empty_diff
compare_desired existing ((key, desired) ∷ rest) =
    place_desired desired (lookup key existing) (compare_desired existing rest)

-- the loop over the existing records
unfoldable pub compare_existing : Map Record → Map Record → List Record
compare_existing desired [] = []
compare_existing desired ((key, existing) ∷ rest) =
    let more = compare_existing desired rest in
    if is_some (lookup key desired) then more else existing ∷ more

-- `CompareRecordSets`
unfoldable pub compare_record_sets : List Record → List Record → RecordDiff
unfolding compare_desired compare_existing keyed_from
compare_record_sets existing desired =
    record (compare_desired (keyed_from [] existing) (keyed_from [] desired)) {
      to_delete = compare_existing (keyed_from [] desired) (keyed_from [] existing);
    }

-- `CompareForHostname`
unfoldable pub compare_for_hostname : List Record → List Record → String → RecordDiff
unfolding compare_record_sets
compare_for_hostname existing desired hostname =
    let is_of = λ (r : Record). normalize_hostname r.hostname == normalize_hostname hostname in
    compare_record_sets (select is_of existing) (select is_of desired)

-- `HasChanges`, `TotalChanges`
unfoldable pub total_changes : RecordDiff → ℕ
total_changes d = length d.to_create + length d.to_update + length d.to_delete

unfoldable pub has_changes : RecordDiff → Bool
has_changes d =
    ltb 0 (length d.to_create) || ltb 0 (length d.to_update) || ltb 0 (length d.to_delete)
