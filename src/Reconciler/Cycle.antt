-- ===== src/Reconciler/Cycle.antt =====
-- internal/reconciler/reconciler.go: the reconciliation cycle, and the operations on one hostname. The
-- locks are left out: `reconcileMu` keeps the cycles apart, and each operation here runs alone. What
-- the platforms and the sources answer during a cycle is given with the cycle.
pub mod Discovered
pub mod Accepted
pub mod Traced
use dnsweaver.Base.{
  ℕ, suc, ◌+◌, String, not, ◌&&◌, none, some, List, [], ◌∷◌, ◌==◌, if◌then◌else◌, length, select,
  is_some, map,
}
use dnsweaver.Base.Map.{Map, lookup, insert, keys}
use dnsweaver.Hostname.{Hostname, normalize_hostname, normalized_name}
use dnsweaver.Hostname.Validation.{validate_all}
use dnsweaver.Provider.Failure.{ok, err}
use dnsweaver.Provider.Failure
use dnsweaver.Provider.Interface.{M, pure, ◌>>=◌, ◌>>◌}
use dnsweaver.Provider.Instance.{name}
use dnsweaver.Provider.Registry.{all}
use dnsweaver.Reconciler.Result.{Action, ActionType, Result, new_result, add_actions, type_is}
use dnsweaver.Reconciler.Cache.{RecordCache, new_record_cache}
use dnsweaver.Reconciler.Env.{Env, append_unique}
use dnsweaver.Reconciler.Route.{ensure_record}
use dnsweaver.Reconciler.Orphan.{cleanup_orphans, delete_record}

-- What is left of the hostnames of one workload, and the number of those left out.
pub record Extracted : Type 0 where
  pub valid : List Hostname
  pub invalid : ℕ

-- the validation of the hostnames of a workload, or of the files
unfoldable pub extracted : List Hostname → Extracted
extracted hs = let v = validate_all hs in record { valid = v.valid; invalid = length v.invalid }

pub record Discovery : Type 0 where
  pub hostnames : Map Hostname
  pub invalid : ℕ
  pub duplicate : ℕ

-- one hostname of a workload: the first workload wins
unfoldable pub add_hostname : Discovery → Hostname → Discovery
add_hostname d h =
    if is_some (lookup (normalized_name h) d.hostnames)
    then record d { duplicate = suc d.duplicate }
    else record d { hostnames = insert (normalized_name h) h d.hostnames }

unfoldable pub add_hostnames : Discovery → List Hostname → Discovery
unfolding add_hostname
add_hostnames d [] = d
add_hostnames d (h ∷ hs) = add_hostnames (add_hostname d h) hs

-- the loop of `extractHostnames` over the workloads
unfoldable pub add_workloads : Discovery → List Extracted → Discovery
unfolding add_hostnames
add_workloads d [] = d
add_workloads d (e ∷ es) =
    add_workloads (add_hostnames (record d { invalid = d.invalid + e.invalid }) e.valid) es

-- hostnames from files come last and are no duplicates
unfoldable pub add_files : Map Hostname → List Hostname → Map Hostname
add_files m [] = m
add_files m (h ∷ hs) =
    add_files (if is_some (lookup (normalized_name h) m) then m else insert (normalized_name h) h m)
      hs

-- `extractHostnames`
unfoldable pub extract_hostnames : List Extracted → Extracted → Discovery
unfolding add_workloads add_files
extract_hostnames workloads files =
    let d = add_workloads (record { hostnames = []; invalid = 0; duplicate = 0 }) workloads in
    record d { hostnames = add_files d.hostnames files.valid; invalid = d.invalid + files.invalid }

-- the hostnames of all workloads and of the files, validated
abbrev pub discover : List (List Hostname) → List Hostname → Discovery
discover workloads files = extract_hostnames (map extracted workloads) (extracted files)

-- what an action adds to the map from hostnames to providers
unfoldable pub note_action : String → Map (List String) → Action → Map (List String)
note_action hostname m action =
    if not (action.provider == "") && not (type_is action.type ActionType.skip)
    then insert hostname
        (append_unique (elim (lookup hostname m) [ none ↦ [] | some ps ↦ ps ]) action.provider) m
    else m

unfoldable pub note_actions : String → Map (List String) → List Action → Map (List String)
unfolding note_action
note_actions hostname m [] = m
note_actions hostname m (action ∷ actions) =
    note_actions hostname (note_action hostname m action) actions

module _ {W : Type 0} (env : Env W) where
  -- step 4 of `Reconcile`, with the result and the map of the providers so far
  unfoldable pub ensure_each :
      RecordCache
      → List (String × Hostname)
      → Result
      → Map (List String)
      → M W (Result × Map (List String))
  ensure_each cache [] result m = pure (result, m)
  ensure_each cache ((_, h) ∷ hs) result m = do
    actions ← ensure_record env (some cache) h
    ensure_each cache hs (add_actions result actions) (note_actions h.name m actions)

  -- the update of what is known, at the end of the cycle
  unfoldable pub remember : List String → Map (List String) → M W Unit
  remember known m s = (tt, record s { known_hostnames = known; hostname_providers = m })

  unfoldable pub cleanup_if_enabled : List String → RecordCache → M W (List Action)
  cleanup_if_enabled current cache =
      if env.config.cleanup_orphans then cleanup_orphans env (some cache) current else pure []

  -- steps 3 to 5 and the update
  unfoldable pub run_cycle : Map Hostname → Result → M W Result
  run_cycle discovered result = do
    cache ← new_record_cache (all env.providers)
    ensured ← ensure_each cache discovered result []
    orphan_actions ← cleanup_if_enabled (keys discovered) cache
    remember (keys discovered) ensured.1
    pure (add_actions ensured.0 orphan_actions)

  -- `Reconcile`: the first platform that fails ends it before anything is done. `workloads` are the
  -- hostnames that the sources extract from each workload, if all platforms could be listed.
  unfoldable pub reconcile :
      Failure.Result (List (List Hostname)) → List Hostname → M W (Failure.Result Result)
  reconcile workloads files =
      if not env.enabled then pure (ok (new_result env.dry_run)) else elim workloads [
        | err e ↦ pure (err e)
        | ok ws ↦ do
          result ← run_cycle (discover ws files).hostnames (record (new_result env.dry_run) {
            workloads_scanned = length ws;
            hostnames_discovered = length (discover ws files).hostnames;
            hostnames_invalid = (discover ws files).invalid;
            hostnames_duplicate = (discover ws files).duplicate;
          })
          pure (ok result)
      ]

  unfoldable pub know : String → M W Unit
  know hostname s = (tt, record s { known_hostnames = append_unique s.known_hostnames hostname })

  unfoldable pub forget : String → M W Unit
  forget hostname s =
      (tt, record s { known_hostnames = select (λ h. not (h == hostname)) s.known_hostnames })

  abbrev api_hostname : String → Hostname
  api_hostname hostname = record {
    name = hostname;
    source = "api";
    router = "";
    record_hints = none;
    metadata = [];
  }

  -- `ReconcileHostname`: there is no cache
  unfoldable pub reconcile_hostname : String → M W Result
  reconcile_hostname hostname = if not env.enabled then pure (new_result env.dry_run) else (do
    actions ← ensure_record env none (api_hostname hostname)
    know (normalize_hostname hostname)
    pure (add_actions (record (new_result env.dry_run) { hostnames_discovered = 1 }) actions))

  -- `RemoveHostname`
  unfoldable pub remove_hostname : String → M W Result
  remove_hostname hostname = if not env.enabled then pure (new_result env.dry_run) else (do
    actions ← delete_record env none (normalize_hostname hostname)
    forget (normalize_hostname hostname)
    pure (add_actions (new_result env.dry_run) actions))
