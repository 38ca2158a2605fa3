-- ===== src/Reconciler/Orphan/Steps.antt =====
-- internal/reconciler/orphan.go: what the four ways to delete an orphan share. Hostnames are in their
-- canonical form.
use Prim.Native.String.{◌++◌ as append}
use dnsweaver.Base.{
  String, Bool, true, false, ◌&&◌, Option, none, some, List, [], ◌∷◌, ◌==◌, if◌then◌else◌, select,
}
use dnsweaver.Hostname.{normalize_hostname}
use dnsweaver.Provider.Record.{Record, RecordType, type_text, type_eq}
use dnsweaver.Provider.Failure.{Error, Result, ok, err}
use dnsweaver.Provider.Interface.{M, pure, ◌>>=◌, call_list}
use dnsweaver.Provider.Instance
use dnsweaver.Provider.Instance.{ProviderInstance, name, effective_target}
use dnsweaver.Reconciler.Result.{Action, ActionType, ActionStatus}
use dnsweaver.Reconciler.Cache
use dnsweaver.Reconciler.Cache.{RecordCache}

module _ {W : Type 0} (inst : ProviderInstance W) (hostname : String) where
  -- the action on the instance as a whole
  unfoldable pub instance_action : ActionType → ActionStatus → String → Action
  instance_action type status error = record {
    type = type;
    status = status;
    provider = name inst;
    hostname = hostname;
    record_type = type_text inst.record_type;
    target = effective_target inst;
    error = error;
    dry_run = false;
  }

  -- the action on one record
  unfoldable pub deletion : Record → ActionStatus → String → Action
  deletion r status error = record {
    type = ActionType.delete;
    status = status;
    provider = name inst;
    hostname = hostname;
    record_type = type_text r.type;
    target = r.target;
    error = error;
    dry_run = false;
  }

  unfoldable pub list_failed : Error → List Action
  list_failed e =
      instance_action ActionType.delete ActionStatus.failed
        (append "failed to list records: " e.message)
      ∷ []

  unfoldable pub delete_one : Record → M W (Option Error)
  delete_one r =
      if type_eq r.type RecordType.srv
      then Instance.delete_srv_record inst hostname r.target r.srv
      else Instance.delete_record_by_target inst hostname r.type r.target

  abbrev pub outcome : Record → Option Error → Action
  outcome r none = deletion r ActionStatus.success ""
  outcome r (some e) = deletion r ActionStatus.failed e.message

  -- the loop over the records, with `delete` for one of them
  unfoldable pub delete_each : (Record → M W Action) → List Record → M W (List Action)
  delete_each delete [] = pure []
  delete_each delete (r ∷ rs) = do
    action ← delete r
    actions ← delete_each delete rs
    pure (action ∷ actions)

  unfoldable pub delete_now : Record → M W Action
  delete_now r = do failed ← delete_one r; pure (outcome r failed)

  unfoldable pub delete_target_now : Record → M W Action
  delete_target_now r = do
    failed ← Instance.delete_record_by_target inst hostname r.type r.target
    pure (outcome r failed)

  -- in a dry run nothing is deleted
  unfoldable pub unless_dry_run : Bool → (Record → M W Action) → Record → M W Action
  unless_dry_run dry_run delete r =
      if dry_run then pure (deletion r ActionStatus.success "") else delete r

  -- the cached records of the hostname, or else those that the provider lists
  unfoldable pub records_of : Option RecordCache → (Record → Bool) → M W (Result (List Record))
  records_of cache keep =
      let query = call_list inst.provider >>= λ listed. pure (elim listed [
        | err e ↦ err e
        | ok records ↦
            ok (select (λ r. normalize_hostname r.hostname == hostname && keep r) records)
      ]) in
      elim cache [
        | none ↦ query
        | some c ↦ elim (Cache.get_all_records_for_hostname c (name inst) hostname) [
          | some (r ∷ rs) ↦ pure (ok (r ∷ rs))
          | some [] ↦ query
          | none ↦ query
        ]
      ]

  abbrev pub any_type : Record → Bool
  any_type r = true
