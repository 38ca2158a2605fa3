-- ===== src/Reconciler/Result.antt =====
-- internal/reconciler/result.go, less the times and the printed summary.
use dnsweaver.Base.{
  ℕ, String, Bool, true, false, ◌&&◌, ◌||◌, List, [], ◌∷◌, ◌++◌, length, select, ltb,
}

pub data ActionType : Type 0 where
  create update delete skip : ActionType

pub data ActionStatus : Type 0 where
  pending success failed skipped : ActionStatus

pub record Action : Type 0 where
  pub type : ActionType
  pub status : ActionStatus
  pub provider : String
  pub hostname : String
  pub record_type : String
  pub target : String
  pub error : String
  pub dry_run : Bool

abbrev pub type_is : ActionType → ActionType → Bool
type_is ActionType.create ActionType.create = true
type_is ActionType.update ActionType.update = true
type_is ActionType.delete ActionType.delete = true
type_is ActionType.skip ActionType.skip = true
type_is _ _ = false

abbrev pub status_is : ActionStatus → ActionStatus → Bool
status_is ActionStatus.pending ActionStatus.pending = true
status_is ActionStatus.success ActionStatus.success = true
status_is ActionStatus.failed ActionStatus.failed = true
status_is ActionStatus.skipped ActionStatus.skipped = true
status_is _ _ = false

pub record Result : Type 0 where
  pub workloads_scanned : ℕ
  pub hostnames_discovered : ℕ
  pub hostnames_invalid : ℕ
  pub hostnames_duplicate : ℕ
  pub actions : List Action
  pub dry_run : Bool

-- `NewResult`
unfoldable pub new_result : Bool → Result
new_result dry_run = record {
  workloads_scanned = 0;
  hostnames_discovered = 0;
  hostnames_invalid = 0;
  hostnames_duplicate = 0;
  actions = [];
  dry_run = dry_run;
}

-- `AddAction`
unfoldable pub add_action : Result → Action → Result
add_action r action = record r { actions = r.actions ++ record action { dry_run = r.dry_run } ∷ [] }

unfoldable pub add_actions : Result → List Action → Result
unfolding add_action
add_actions r [] = r
add_actions r (action ∷ actions) = add_actions (add_action r action) actions

-- `filterActions`
filter_actions : ActionType → ActionStatus → Result → List Action
filter_actions t s r = select (λ a. type_is a.type t && status_is a.status s) r.actions

-- `CreatedCount`, `UpdatedCount`, `DeletedCount`
unfoldable pub created_count : Result → ℕ
unfolding filter_actions
created_count r = length (filter_actions ActionType.create ActionStatus.success r)

unfoldable pub updated_count : Result → ℕ
unfolding filter_actions
updated_count r = length (filter_actions ActionType.update ActionStatus.success r)

unfoldable pub deleted_count : Result → ℕ
unfolding filter_actions
deleted_count r = length (filter_actions ActionType.delete ActionStatus.success r)

-- `FailedCount`, the length of `Failed`
unfoldable pub failed_count : Result → ℕ
failed_count r = length (select (λ a. status_is a.status ActionStatus.failed) r.actions)

-- the length of `Skipped`
unfoldable pub skipped_count : Result → ℕ
skipped_count r = length (
    select (λ a. status_is a.status ActionStatus.skipped || type_is a.type ActionType.skip)
      r.actions)

-- `HasErrors`
pub has_errors : Result → Bool
unfolding failed_count
has_errors r = ltb 0 (failed_count r)
