-- ===== src/Reconciler/Ensure.antt =====
-- internal/reconciler/actions.go: `ensureRecord` and what it calls. Log lines are left out; one of
-- them reads the SRV data of a stale SRV record, so the Go code panics there if a provider lists an
-- SRV record without them, which the model does not show. A nil cache is `none`.
pub mod Wanting
pub mod Marking
pub mod Kept
pub mod Scoped
pub mod Written
use dnsweaver.Base.{
  String, Bool, false, not, Option, none, some, List, [], ◌∷◌, if◌then◌else◌, select, any,
}
use dnsweaver.Base.Map.{Map}
use dnsweaver.Hostname.{Hostname}
use dnsweaver.Provider.Record.{Record, type_eq, new_record}
use dnsweaver.Provider.Failure.{Error, ok, err, is_conflict, is_type_conflict}
use dnsweaver.Provider.Interface.{M, pure, ◌>>=◌, ◌>>◌}
use dnsweaver.Provider.Instance
use dnsweaver.Provider.Instance.{ProviderInstance, name}
use dnsweaver.Reconciler.Result.{Action, ActionType, ActionStatus}
use dnsweaver.Reconciler.Cache
use dnsweaver.Reconciler.Cache.{RecordCache}
use dnsweaver.Reconciler.Env.{Env, Config}
unfoldable pub use Wanting.{
  apply_hints, get_recovered_metadata, with_recovered, action, is_exact, is_stale, conflict_text,
}
pub use Wanting.{
  Wanted, is_srv, err_record_already_exists, err_record_type_conflict, err_no_matching_provider,
}

-- whether the cache shows the instance's ownership marker
unfoldable pub cache_owns :
    {W : Type 0} → Config → ProviderInstance W → String → Option RecordCache → Bool
cache_owns cfg inst hostname none = false
cache_owns cfg inst hostname (some cache) =
    Cache.has_ownership_record cache (name inst) hostname cfg.instance_id

module _ {W : Type 0} (env : Env W) (cache : Option RecordCache) where
  -- `ensureOwnershipRecord`: its errors are only logged
  unfoldable pub ensure_ownership_record : String → ProviderInstance W → Map String → M W Unit
  ensure_ownership_record hostname inst metadata =
      if not env.config.ownership_tracking
      then pure tt
      else if cache_owns env.config inst hostname cache
      then pure tt
      else do Instance.create_ownership_record inst hostname metadata; pure tt

  module _ (hostname : String) (inst : ProviderInstance W) where
    -- step 1: the existing records, none of them if there is no cache or the listing fails
    unfoldable pub existing_records : M W (List Record)
    existing_records = elim cache [
      | none ↦ pure []
      | some c ↦ elim (Cache.get_existing_records c (name inst) hostname) [
        | some records ↦ pure records
        | none ↦ do
          listed ← Instance.get_existing_records inst hostname
          pure (elim listed [ err e ↦ [] | ok records ↦ records ])
      ]
    ]

    module _ (w : Wanted) where
      -- step 4a
      unfoldable pub delete_stale : List Record → M W Unit
      delete_stale [] = pure tt
      delete_stale (stale ∷ rest) = do
        Instance.delete_srv_record inst hostname stale.target stale.srv
        delete_stale rest

      unfoldable pub own_and_return : Action → M W Action
      own_and_return result = do ensure_ownership_record hostname inst w.metadata; pure result

      -- step 4b
      unfoldable pub keep_exact : M W Action
      keep_exact =
          let kept =
            action inst hostname w ActionType.skip ActionStatus.skipped err_record_already_exists in
          if cache_owns env.config inst hostname cache
          then own_and_return kept
          else if env.config.adopt_existing
          then own_and_return kept
          else pure kept

      -- step 5
      unfoldable pub update_outcome : Option Error → M W Action
      update_outcome (some e) =
          pure (action inst hostname w ActionType.create ActionStatus.failed e.message)
      update_outcome none =
          own_and_return (action inst hostname w ActionType.update ActionStatus.success "")

      unfoldable pub update_first : Record → M W Action
      unfolding update_outcome
      update_first existing = do
        updated ←
            Instance.update_record inst existing
              (new_record hostname w.type w.target w.ttl w.srv [])
        update_outcome updated

      -- step 6
      unfoldable pub create_outcome : Option Error → M W Action
      create_outcome none =
          own_and_return (action inst hostname w ActionType.create ActionStatus.success "")
      create_outcome (some e) =
          if is_conflict e
          then own_and_return (
              action inst hostname w ActionType.skip ActionStatus.skipped err_record_already_exists)
          else if is_type_conflict e
          then pure
              (action inst hostname w ActionType.skip ActionStatus.skipped err_record_type_conflict)
          else pure (action inst hostname w ActionType.create ActionStatus.failed e.message)

      unfoldable pub create_new : M W Action
      unfolding create_outcome
      create_new = do
        created ←
            Instance.create_record_with_values inst hostname w.type w.target w.ttl w.srv w.metadata
        create_outcome created

      unfoldable pub change : List Record → M W Action
      change [] = create_new
      change (existing ∷ _) = update_first existing

      -- steps 4 to 6, on the existing records of the wanted type
      unfoldable pub settle : List Record → M W Action
      settle same_type = do
        delete_stale (select (is_stale w) same_type)
        if any (is_exact w) same_type then keep_exact else change same_type

      -- steps 2 and 3, on the existing records of another type
      unfoldable pub unless_conflict : List Record → List Record → M W Action
      unfolding conflict_text
      unless_conflict [] existing = settle (select (λ r. type_eq r.type w.type) existing)
      unless_conflict (r ∷ rs) existing = pure (
          action inst hostname w ActionType.skip ActionStatus.skipped
            (conflict_text (r ∷ rs) w.type))

      unfoldable pub analyze : List Record → M W Action
      unfolding unless_conflict
      analyze existing =
          unless_conflict (select (λ r. not (type_eq r.type w.type)) existing) existing

      unfoldable pub act : M W Action
      act =
          if env.dry_run
          then pure (action inst hostname w ActionType.create ActionStatus.success "")
          else do existing ← existing_records; analyze existing

  -- `ensureRecordForProvider`
  unfoldable pub ensure_record_for_provider : Hostname → ProviderInstance W → M W Action
  unfolding apply_hints with_recovered
  ensure_record_for_provider hostname inst = do
    w ← with_recovered hostname.name (apply_hints inst hostname.record_hints)
    act hostname.name inst w
