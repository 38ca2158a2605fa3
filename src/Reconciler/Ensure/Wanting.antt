-- ===== src/Reconciler/Ensure/Wanting.antt =====
-- internal/reconciler/actions.go: the record that a hostname is to have, and how an existing record
-- compares with it.
use Prim.Native.String.{◌++◌ as append}
use dnsweaver.Base.{
  String, Bool, true, false, not, ◌&&◌, Option, none, some, List, [], ◌∷◌, ◌==◌, if◌then◌else◌, ltb,
  ℕ,
}
use dnsweaver.Base.Map.{Map, lookup, delete}
use dnsweaver.Hostname.{RecordHints, SrvHints, normalize_hostname}
use dnsweaver.Provider.Record.{
  Record, RecordType, SrvData, record_type, type_text, type_eq, srv_data_equals,
}
use dnsweaver.Provider.Interface.{M, pure, ◌>>=◌}
use dnsweaver.Provider.Instance.{ProviderInstance, name, effective_target}
use dnsweaver.Reconciler.Result.{Action, ActionType, ActionStatus}

-- The record that a hostname is to have at a provider.
pub record Wanted : Type 0 where
  pub type : RecordType
  pub target : String
  pub ttl : ℕ
  pub srv : Option SrvData
  pub metadata : Map String

abbrev or_else : String → String → String
or_else s default = if s == "" then default else s

abbrev srv_of : Option SrvHints → Option SrvData
srv_of none = none
srv_of (some h) = some (record { priority = h.priority; weight = h.weight; port = h.port })

-- the hints over the defaults of the instance
unfoldable pub apply_hints : {W : Type 0} → ProviderInstance W → Option RecordHints → Wanted
apply_hints inst none = record {
  type = inst.record_type;
  target = effective_target inst;
  ttl = inst.ttl;
  srv = none;
  metadata = [];
}
apply_hints inst (some hints) = record {
  type = if hints.type == "" then inst.record_type else record_type hints.type;
  target = or_else hints.target (effective_target inst);
  ttl = if ltb 0 hints.ttl then hints.ttl else inst.ttl;
  srv = srv_of hints.srv;
  metadata = hints.metadata;
}

-- `getRecoveredMetadata`: what it returns it also removes
unfoldable pub get_recovered_metadata : {W : Type 0} → String → M W (Map String)
get_recovered_metadata hostname s = elim s.recovered_metadata [
  | none ↦ ([], s)
  | some recovered ↦ elim (lookup (normalize_hostname hostname) recovered) [
    | none ↦ ([], s)
    | some meta ↦ (
      meta,
      record s { recovered_metadata = some (delete (normalize_hostname hostname) recovered) },
    )
  ]
]

-- metadata that the source does not give are those recovered at startup
unfoldable pub with_recovered : {W : Type 0} → String → Wanted → M W Wanted
with_recovered hostname w = elim w.metadata [
  | _ ∷ _ ↦ pure w
  | [] ↦ do recovered ← get_recovered_metadata hostname; pure (record w { metadata = recovered })
]

module _ {W : Type 0} (inst : ProviderInstance W) (hostname : String) (w : Wanted) where
  -- the action of `ensureRecordForProvider`, with what its outcome sets
  unfoldable pub action : ActionType → ActionStatus → String → Action
  action type status error = record {
    type = type;
    status = status;
    provider = name inst;
    hostname = hostname;
    record_type = type_text w.type;
    target = w.target;
    error = error;
    dry_run = false;
  }

abbrev pub is_srv : RecordType → Bool
is_srv t = type_eq t RecordType.srv

-- an existing record that is the wanted one
unfoldable pub is_exact : Wanted → Record → Bool
is_exact w r = r.target == w.target && (if is_srv w.type then srv_data_equals r.srv w.srv else true)

-- an SRV record with the wanted target and other data
unfoldable pub is_stale : Wanted → Record → Bool
is_stale w r =
    r.target == w.target && (if is_srv w.type then not (srv_data_equals r.srv w.srv) else false)

type_list : List Record → String
type_list [] = ""
type_list (r ∷ []) = type_text r.type
type_list (r ∷ rs) = append (type_text r.type) (append " " (type_list rs))

unfoldable pub conflict_text : List Record → RecordType → String
unfolding type_list
conflict_text rs t =
    append "type conflict: existing ["
      (append (type_list rs) (append "] record(s) conflict with " (type_text t)))

abbrev pub err_record_already_exists : String
err_record_already_exists = "record already exists"

abbrev pub err_record_type_conflict : String
err_record_type_conflict = "record type conflict"

abbrev pub err_no_matching_provider : String
err_no_matching_provider = "no matching provider"
