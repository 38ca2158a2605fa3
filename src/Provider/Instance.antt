-- ===== src/Provider/Instance.antt =====
-- pkg/provider/instance.go. The metrics are left out: the list of calls in the state keeps what they
-- count. A target that the refresh loop has resolved is the field `dynamic_target`.
pub mod Recovery
pub mod Filters
use dnsweaver.Base.{
  ℕ, String, Bool, true, false, Option, none, some, List, [], ◌∷◌, ◌==◌, if◌then◌else◌, contains,
  select, to_lower, ◌&&◌,
}
use dnsweaver.Base.Map.{Map, lookup}
use dnsweaver.Provider.Record.{Record, RecordType, SrvData, new_record, is_data_type, type_eq}
use dnsweaver.Provider.Failure.{Error, Result, ok, err, is_not_found, is_conflict}
use dnsweaver.Matcher.{DomainMatcher, matches}
use dnsweaver.Provider.Mode.{OperationalMode}
use dnsweaver.Provider.Ownership.{
  ownership_record, ownership_record_name, matches_ownership, parse_ownership_value,
  extract_hostname,
}
use dnsweaver.Provider.Interface.{
  ◌>>=◌, Provider, ProviderIdentity, M, pure, call_list, call_create, call_delete, call_update,
}

pub record ProviderInstance (W : Type 0) : Type 0 where
  pub provider : Provider W
  pub matcher : DomainMatcher
  pub record_type : RecordType
  pub target : String
  pub dynamic_target : Option String
  pub ttl : ℕ
  pub mode : OperationalMode
  pub instance_id : String
  pub metadata_filters : Map (List String)
  pub identity : ProviderIdentity

pub record RecoveredHostname : Type 0 where
  pub hostname : String
  pub metadata : Map String

module _ {W : Type 0} where
  -- `Name`
  abbrev pub name : ProviderInstance W → String
  name pi = pi.provider.name

  -- `EffectiveTarget`
  unfoldable pub effective_target : ProviderInstance W → String
  effective_target pi = elim pi.dynamic_target [ none ↦ pi.target | some target ↦ target ]

  -- `SetDynamicTarget`
  unfoldable pub set_dynamic_target : String → ProviderInstance W → ProviderInstance W
  set_dynamic_target target pi = record pi {
    dynamic_target = if target == "" then none else some target;
  }

-- `matchesMetadataFilters`; the filters' keys differ, as those of a Go map do
unfoldable pub matches_metadata_filters : Map String → Map (List String) → Bool
matches_metadata_filters metadata [] = true
matches_metadata_filters metadata ((key, allowed) ∷ filters) = elim (lookup key metadata) [
  | none ↦ matches_metadata_filters metadata filters
  | some value ↦ if contains value allowed then matches_metadata_filters metadata filters else false
]

-- The ownership markers among the records of a provider: the loop of `RecoverOwnedHostnames`.
recovered_of : String → Record → Option RecoveredHostname
recovered_of instance_id r =
    if type_eq r.type RecordType.txt && matches_ownership r.target instance_id
    then elim (extract_hostname r.hostname) [
      | none ↦ none
      | some hostname ↦
          some
            (record { hostname = hostname; metadata = (parse_ownership_value r.target).metadata })
    ]
    else none

abbrev add_recovered : Option RecoveredHostname → List RecoveredHostname → List RecoveredHostname
add_recovered none rest = rest
add_recovered (some h) rest = h ∷ rest

unfoldable pub recovered_hostnames : String → List Record → List RecoveredHostname
unfolding recovered_of
recovered_hostnames instance_id [] = []
recovered_hostnames instance_id (r ∷ rs) =
    add_recovered (recovered_of instance_id r) (recovered_hostnames instance_id rs)

-- The ownership marker that `HasOwnershipRecord` looks for.
unfoldable pub is_marker : String → String → Record → Bool
is_marker ownership_name instance_id r =
    r.hostname == ownership_name
    && type_eq r.type RecordType.txt
    && matches_ownership r.target instance_id

any_marker : String → String → List Record → Bool
unfolding is_marker
any_marker ownership_name instance_id [] = false
any_marker ownership_name instance_id (r ∷ rs) =
    if is_marker ownership_name instance_id r
    then true
    else any_marker ownership_name instance_id rs

-- what the loop of `GetExistingRecords` keeps
unfoldable pub is_existing : String → Record → Bool
is_existing hostname r = to_lower r.hostname == to_lower hostname && is_data_type r.type

module _ {W : Type 0} (pi : ProviderInstance W) where
  -- `MatchesWithMetadata`
  unfoldable pub matches_with_metadata : String → Map String → Bool
  matches_with_metadata hostname metadata =
      if matches pi.matcher hostname
      then matches_metadata_filters metadata pi.metadata_filters
      else false

  -- `CreateRecordWithValues`
  unfoldable pub create_record_with_values :
      String → RecordType → String → ℕ → Option SrvData → Map String → M W (Option Error)
  create_record_with_values hostname record_type target ttl srv_data metadata =
      call_create pi.provider (new_record hostname record_type target ttl srv_data metadata)

  -- `DeleteRecord`
  unfoldable pub delete_record : String → M W (Option Error)
  delete_record hostname =
      call_delete pi.provider (new_record hostname pi.record_type (effective_target pi) 0 none [])

  -- `DeleteRecordByTarget`
  unfoldable pub delete_record_by_target : String → RecordType → String → M W (Option Error)
  delete_record_by_target hostname record_type target =
      call_delete pi.provider (new_record hostname record_type target 0 none [])

  -- `DeleteSRVRecord`
  unfoldable pub delete_srv_record : String → String → Option SrvData → M W (Option Error)
  delete_srv_record hostname target srv_data =
      call_delete pi.provider (new_record hostname RecordType.srv target 0 srv_data [])

  -- after the delete of the fallback in `UpdateRecord`
  unfoldable pub create_after_delete : Record → Option Error → M W (Option Error)
  create_after_delete desired none = call_create pi.provider desired
  create_after_delete desired (some e) =
      if is_not_found e then call_create pi.provider desired else pure (some e)

  -- with the native update, if the provider has one
  unfoldable pub update_with :
      Option (Record → Record → W → Option Error × W) → Record → Record → M W (Option Error)
  unfolding create_after_delete
  update_with (some update) existing desired = call_update pi.provider update existing desired
  update_with none existing desired = do
    deleted ← call_delete pi.provider existing
    create_after_delete desired deleted

  -- `UpdateRecord`
  unfoldable pub update_record : Record → Record → M W (Option Error)
  update_record existing desired = update_with pi.provider.update existing desired

  -- `GetExistingRecords`
  unfoldable pub get_existing_records : String → M W (Result (List Record))
  get_existing_records hostname = do
    listed ← call_list pi.provider
    pure (elim listed [ err e ↦ err e | ok records ↦ ok (select (is_existing hostname) records) ])

  -- a conflict counts as success
  abbrev ignore_conflict : Option Error → Option Error
  ignore_conflict none = none
  ignore_conflict (some e) = if is_conflict e then none else some e

  -- `CreateOwnershipRecord`
  unfoldable pub create_ownership_record : String → Map String → M W (Option Error)
  create_ownership_record hostname metadata = do
    created ← call_create pi.provider (ownership_record hostname pi.ttl pi.instance_id metadata)
    pure (ignore_conflict created)

  -- `DeleteOwnershipRecord`
  unfoldable pub delete_ownership_record : String → M W (Option Error)
  delete_ownership_record hostname =
      call_delete pi.provider (ownership_record hostname pi.ttl pi.instance_id [])

  -- `HasOwnershipRecord`
  unfoldable pub has_ownership_record : String → M W (Result Bool)
  unfolding any_marker
  has_ownership_record hostname = do
    listed ← call_list pi.provider
    pure (elim listed [
      | err e ↦ err e
      | ok records ↦ ok (any_marker (ownership_record_name hostname) pi.instance_id records)
    ])

  -- `RecoverOwnedHostnames`
  unfoldable pub recover_owned_hostnames : M W (Result (List RecoveredHostname))
  recover_owned_hostnames = do
    listed ← call_list pi.provider
    pure (elim listed [
      | err e ↦ err e
      | ok records ↦ ok (recovered_hostnames pi.instance_id records)
    ])
