-- ===== src/Reconciler/Cache.antt =====
-- internal/reconciler/cache.go. The records of a provider that could not be listed are `none`, Go's
-- nil map.
pub mod Lookup
use dnsweaver.Base.{String, Bool, false, ◌&&◌, Option, none, some, List, [], ◌∷◌, ◌++◌, select, any}
use dnsweaver.Base.Map.{Map, lookup, insert}
use dnsweaver.Hostname.{normalize_hostname}
use dnsweaver.Provider.Record.{Record, RecordType, is_data_type, type_eq}
use dnsweaver.Provider.Failure.{Result, ok, err}
use dnsweaver.Provider.Ownership.{ownership_record_name, matches_ownership}
use dnsweaver.Provider.Interface.{M, pure, call_list, ◌>>=◌}
use dnsweaver.Provider.Instance.{ProviderInstance, name}

abbrev pub ByHostname : Type 0
ByHostname = Map (List Record)

abbrev pub RecordCache : Type 0
RecordCache = Map (Option ByHostname)

-- byHostname[k], with Go's nil slice where the key is missing
abbrev pub records_at : String → ByHostname → List Record
records_at k m = elim (lookup k m) [ none ↦ [] | some records ↦ records ]

-- the loop that indexes the records of a provider
unfoldable pub index_from : ByHostname → List Record → ByHostname
index_from by_hostname [] = by_hostname
index_from by_hostname (r ∷ rs) =
    let normalized = normalize_hostname r.hostname in
    index_from (insert normalized (records_at normalized by_hostname ++ r ∷ []) by_hostname) rs

-- what is stored for a provider
unfoldable pub indexed : Result (List Record) → Option ByHostname
unfolding index_from
indexed (err e) = none
indexed (ok records) = some (index_from [] records)

-- the loop of `newRecordCache`
unfoldable pub cache_from : {W : Type 0} → RecordCache → List (ProviderInstance W) → M W RecordCache
cache_from cache [] = pure cache
cache_from cache (inst ∷ insts) = do
  listed ← call_list inst.provider
  cache_from (insert (name inst) (indexed listed) cache) insts

-- `newRecordCache`, over the instances of the registry
unfoldable pub new_record_cache : {W : Type 0} → List (ProviderInstance W) → M W RecordCache
unfolding cache_from
new_record_cache insts = cache_from [] insts

-- the records of a hostname, `none` if the provider is not in the cache or failed to load
unfoldable pub cached_records : RecordCache → String → String → Option (List Record)
cached_records cache provider_name hostname = elim (lookup provider_name cache) [
  | none ↦ none
  | some none ↦ none
  | some (some by_hostname) ↦ some (records_at (normalize_hostname hostname) by_hostname)
]

-- `getExistingRecords`
unfoldable pub get_existing_records : RecordCache → String → String → Option (List Record)
get_existing_records cache provider_name hostname =
    elim (cached_records cache provider_name hostname) [
      | none ↦ none
      | some records ↦ some (select (λ r. is_data_type r.type) records)
    ]

-- `getAllRecordsForHostname`
unfoldable pub get_all_records_for_hostname : RecordCache → String → String → Option (List Record)
get_all_records_for_hostname cache provider_name hostname =
    elim (cached_records cache provider_name hostname) [
      | none ↦ none
      | some records ↦ some (select (λ r. is_data_type r.type) records)
    ]

abbrev pub owns : String → Record → Bool
owns instance_id r = type_eq r.type RecordType.txt && matches_ownership r.target instance_id

-- `hasOwnershipRecord`
unfoldable pub has_ownership_record : RecordCache → String → String → String → Bool
has_ownership_record cache provider_name hostname instance_id =
    elim (cached_records cache provider_name (ownership_record_name hostname)) [
      | none ↦ false
      | some records ↦ any (owns instance_id) records
    ]
