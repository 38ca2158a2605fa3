-- ===== src/Reconciler/Orphan.antt =====
-- internal/reconciler/orphan.go. Hostnames are in their canonical form here. The map of the known
-- hostnames is iterated in the order of its list.
pub mod Steps
pub mod Calls
pub mod Scope
pub mod Modes
pub mod Deleting
pub mod Owned
pub mod Limited
pub mod Authoritative
use Prim.Native.String.{◌++◌ as append}
use dnsweaver.Base.{
  ℕ, ◌*◌, String, Bool, true, false, not, ◌&&◌, Option, none, some, List, [], ◌∷◌, ◌++◌, ◌==◌,
  if◌then◌else◌, ltb, select, length, contains,
}
use dnsweaver.Base.Map.{Map, lookup}
use dnsweaver.Provider.Record.{Record, RecordType, type_eq, is_data_type, supports_record_type}
use dnsweaver.Provider.Failure.{Error, Result, ok, err}
use dnsweaver.Provider.Mode.{allows_delete, requires_ownership}
use dnsweaver.Provider.Interface.{M, pure, gets, ◌>>=◌, ◌>>◌}
use dnsweaver.Provider.Instance
use dnsweaver.Provider.Instance.{ProviderInstance, name, effective_target}
use dnsweaver.Provider.Registry.{get, matching_providers}
use dnsweaver.Reconciler.Result.{Action, ActionType, ActionStatus}
use dnsweaver.Reconciler.Cache
use dnsweaver.Reconciler.Cache.{RecordCache}
use dnsweaver.Reconciler.Env.{Env}
unfoldable pub use Steps.{
  instance_action, deletion, list_failed, delete_one, delete_each, delete_now, delete_target_now,
  unless_dry_run, records_of,
}
pub use Steps.{outcome, any_type}

-- the hostnames that are known and no longer there
unfoldable pub orphans : List String → List String → List String
orphans current known = select (λ h. not (contains h current)) known

-- `orphanRatio > massDeleteThreshold && orphanCount > 1`, with the ratio multiplied out
unfoldable pub breaker_trips : ℕ → ℕ → Bool
breaker_trips orphan_count previous_count =
    ltb 0 previous_count && ltb previous_count (2 * orphan_count) && ltb 1 orphan_count

module _ {W : Type 0} (env : Env W) (cache : Option RecordCache) where
  module _ (hostname : String) (inst : ProviderInstance W) where
    unfoldable pub delete_marker : M W Unit
    delete_marker =
        if env.dry_run
        then pure tt
        else (do Instance.delete_ownership_record inst hostname; pure tt)

    -- the loop of `deleteAuthoritativeForProvider` skips these
    unfoldable pub is_authoritative_target : Record → Bool
    is_authoritative_target r =
        supports_record_type inst.provider.capabilities r.type
        && not (type_eq r.type RecordType.txt)

    unfoldable pub authoritative_outcome : Result (List Record) → M W (List Action)
    authoritative_outcome (err e) = pure (list_failed inst hostname e)
    authoritative_outcome (ok records) = do
      actions ←
          delete_each inst hostname
            (unless_dry_run inst hostname env.dry_run (delete_now inst hostname))
            (select is_authoritative_target records)
      if env.config.ownership_tracking then delete_marker else pure tt
      pure actions

    -- `deleteAuthoritativeForProvider`
    unfoldable pub delete_authoritative : M W (List Action)
    unfolding authoritative_outcome
    delete_authoritative = do
      records ← records_of inst hostname cache (any_type inst hostname)
      authoritative_outcome records

    unfoldable pub managed_outcome : Result (List Record) → M W (List Action)
    managed_outcome (err e) = pure (list_failed inst hostname e)
    managed_outcome (ok records) = do
      actions ←
          delete_each inst hostname
            (unless_dry_run inst hostname env.dry_run (delete_now inst hostname)) records
      delete_marker
      pure actions

    unfoldable pub delete_if_owned : Result Bool → M W (List Action)
    unfolding managed_outcome
    delete_if_owned (err e) = pure (
        instance_action inst hostname ActionType.skip ActionStatus.skipped
          (append "failed to check ownership: " e.message)
        ∷ [])
    delete_if_owned (ok false) = pure (
        instance_action inst hostname ActionType.skip ActionStatus.skipped
          "no ownership record - may be manually created"
        ∷ [])
    delete_if_owned (ok true) = do
      records ← records_of inst hostname cache (λ r. is_data_type r.type)
      managed_outcome records

    unfoldable pub check_ownership : M W (Result Bool)
    check_ownership = elim cache [
      | none ↦ Instance.has_ownership_record inst hostname
      | some c ↦
          pure (ok (Cache.has_ownership_record c (name inst) hostname env.config.instance_id))
    ]

    -- `deleteManagedForProvider`
    unfoldable pub delete_managed : M W (List Action)
    unfolding delete_if_owned
    delete_managed = do owned ← check_ownership; delete_if_owned owned

    -- a record of the instance's type and target
    unfoldable pub is_target_match : Record → Bool
    is_target_match r = type_eq r.type inst.record_type && r.target == effective_target inst

    unfoldable pub delete_matched : List Record → M W (List Action)
    delete_matched [] = pure (
        instance_action inst hostname ActionType.skip ActionStatus.skipped
          "no target-matched records found"
        ∷ [])
    delete_matched (r ∷ rs) =
        delete_each inst hostname
          (unless_dry_run inst hostname env.dry_run (delete_target_now inst hostname)) (r ∷ rs)

    unfoldable pub target_match_outcome : Result (List Record) → M W (List Action)
    unfolding delete_matched
    target_match_outcome (err e) = pure (list_failed inst hostname e)
    target_match_outcome (ok records) = delete_matched (select is_target_match records)

    -- `deleteTargetMatchForProvider`
    unfoldable pub delete_target_match : M W (List Action)
    unfolding target_match_outcome
    delete_target_match = do
      records ← records_of inst hostname cache (any_type inst hostname)
      target_match_outcome records

    -- the delete is made in a dry run too, and its failure then counts as success
    unfoldable pub cache_only_report : Record → Option Error → Action
    cache_only_report r none = outcome inst hostname r none
    cache_only_report r (some e) =
        if env.dry_run
        then record (deletion inst hostname r ActionStatus.success "") { error = e.message }
        else outcome inst hostname r (some e)

    unfoldable pub delete_cache_only_one : Record → M W Action
    unfolding cache_only_report
    delete_cache_only_one r = do
      failed ← delete_one inst hostname r
      pure (cache_only_report r failed)

    unfoldable pub cache_only_outcome : Result (List Record) → M W (List Action)
    cache_only_outcome (err e) = pure (list_failed inst hostname e)
    cache_only_outcome (ok records) = delete_each inst hostname delete_cache_only_one records

    -- `deleteCacheOnlyForProvider`
    unfoldable pub delete_cache_only : M W (List Action)
    unfolding cache_only_outcome
    delete_cache_only = do
      records ← records_of inst hostname cache (λ r. is_data_type r.type)
      cache_only_outcome records

    -- `deleteOrphanForProvider`
    unfoldable pub delete_orphan : M W (List Action)
    delete_orphan =
        if not (allows_delete inst.mode)
        then pure (
            instance_action inst hostname ActionType.skip ActionStatus.skipped
              "additive mode - deletions disabled"
            ∷ [])
        else if not (requires_ownership inst.mode)
        then delete_authoritative
        else if not env.config.ownership_tracking
        then delete_cache_only
        else if inst.provider.capabilities.supports_ownership_txt
        then delete_managed
        else delete_target_match

  unfoldable pub delete_orphan_all : String → List (ProviderInstance W) → M W (List Action)
  delete_orphan_all hostname [] = pure []
  delete_orphan_all hostname (inst ∷ insts) = do
    actions ← delete_orphan hostname inst
    rest ← delete_orphan_all hostname insts
    pure (actions ++ rest)

  -- the instances of these names that are still registered
  unfoldable pub registered : List String → List (ProviderInstance W)
  registered [] = []
  registered (n ∷ ns) = elim (get n env.providers) [
    | none ↦ registered ns
    | some inst ↦ inst ∷ registered ns
  ]

  -- `getOrphanProviders`, with the map of the previous reconciliation
  unfoldable pub orphan_providers : Map (List String) → String → List (ProviderInstance W)
  orphan_providers previous hostname = elim (lookup hostname previous) [
    | none ↦ matching_providers hostname env.providers
    | some [] ↦ matching_providers hostname env.providers
    | some (n ∷ ns) ↦ registered (n ∷ ns)
  ]

  unfoldable pub cleanup_each : List String → M W (List Action)
  cleanup_each [] = pure []
  cleanup_each (h ∷ hs) = do
    insts ← gets (λ s. orphan_providers s.hostname_providers h)
    actions ← delete_orphan_all h insts
    rest ← cleanup_each hs
    pure (actions ++ rest)

  -- `cleanupOrphans`
  unfoldable pub cleanup_orphans : List String → M W (List Action)
  cleanup_orphans current = do
    known ← gets (λ s. s.known_hostnames)
    if breaker_trips (length (orphans current known)) (length known)
        then pure []
        else cleanup_each (orphans current known)

  -- after the delete of `deleteRecord`
  unfoldable pub delete_record_outcome : String → ProviderInstance W → Option Error → M W Action
  delete_record_outcome hostname inst (some e) =
      pure (instance_action inst hostname ActionType.delete ActionStatus.failed e.message)
  delete_record_outcome hostname inst none = do
    if env.config.ownership_tracking then delete_marker hostname inst else pure tt
    pure (instance_action inst hostname ActionType.delete ActionStatus.success "")

  unfoldable pub delete_record_at : String → ProviderInstance W → M W Action
  unfolding delete_record_outcome
  delete_record_at hostname inst =
      if env.dry_run
      then pure (instance_action inst hostname ActionType.delete ActionStatus.success "")
      else (do
        failed ← Instance.delete_record inst hostname
        delete_record_outcome hostname inst failed)

  unfoldable pub delete_record_all : String → List (ProviderInstance W) → M W (List Action)
  unfolding delete_record_at
  delete_record_all hostname [] = pure []
  delete_record_all hostname (inst ∷ insts) = do
    action ← delete_record_at hostname inst
    actions ← delete_record_all hostname insts
    pure (action ∷ actions)

  -- `deleteRecord`
  unfoldable pub delete_record : String → M W (List Action)
  delete_record hostname = delete_record_all hostname (matching_providers hostname env.providers)
