-- ===== src/Reconciler/Route.antt =====
-- `ensureRecord` of internal/reconciler/actions.go: the providers that a hostname is written to.
pub mod Writers
pub mod Answers
use Prim.Native.String.{◌++◌ as append}
use dnsweaver.Base.{
  String, Bool, true, false, ◌&&◌, Option, none, some, List, [], ◌∷◌, ◌==◌, if◌then◌else◌,
}
use dnsweaver.Hostname.{Hostname, RecordHints}
use dnsweaver.Provider.Record.{type_eq}
use dnsweaver.Provider.Interface.{ProviderIdentity, M, pure, ◌>>=◌}
use dnsweaver.Provider.Instance.{ProviderInstance}
use dnsweaver.Provider.Registry.{get, matching_providers_for_hostname}
use dnsweaver.Reconciler.Result.{Action, ActionType, ActionStatus}
use dnsweaver.Reconciler.Cache.{RecordCache}
use dnsweaver.Reconciler.Env.{Env}
use dnsweaver.Reconciler.Ensure.{err_no_matching_provider, ensure_record_for_provider}

unfoldable pub identity_eq : ProviderIdentity → ProviderIdentity → Bool
identity_eq x y = x.type == y.type && x.endpoint == y.endpoint && x.zone == y.zone

-- Two instances write to one store: the same backend and record type.
unfoldable pub same_key : {W : Type 0} → ProviderInstance W → ProviderInstance W → Bool
unfolding identity_eq
same_key x y = identity_eq x.identity y.identity && type_eq x.record_type y.record_type

unfoldable pub is_taken : {W : Type 0} → ProviderInstance W → List (ProviderInstance W) → Bool
is_taken inst [] = false
is_taken inst (w ∷ ws) = if same_key w inst then true else is_taken inst ws

-- the loop that leaves out the instances whose store an earlier one writes to; `seen` holds the
-- writers so far
unfoldable pub writers_from :
    {W : Type 0} → List (ProviderInstance W) → List (ProviderInstance W) → List (ProviderInstance W)
writers_from seen [] = []
writers_from seen (inst ∷ insts) = elim (is_taken inst seen) [
  | true ↦ writers_from seen insts
  | false ↦ inst ∷ writers_from (inst ∷ seen) insts
]

unfoldable pub writers : {W : Type 0} → List (ProviderInstance W) → List (ProviderInstance W)
writers insts = writers_from [] insts

unfoldable pub unrouted : String → String → Action
unrouted hostname error = record {
  type = ActionType.skip;
  status = ActionStatus.skipped;
  provider = "";
  hostname = hostname;
  record_type = "";
  target = "";
  error = error;
  dry_run = false;
}

-- the provider that the hints name
abbrev pub explicit_provider : Option RecordHints → String
explicit_provider none = ""
explicit_provider (some hints) = hints.provider

module _ {W : Type 0} (env : Env W) (cache : Option RecordCache) (hostname : Hostname) where
  unfoldable pub ensure_all : List (ProviderInstance W) → M W (List Action)
  ensure_all [] = pure []
  ensure_all (inst ∷ insts) = do
    action ← ensure_record_for_provider env cache hostname inst
    actions ← ensure_all insts
    pure (action ∷ actions)

  unfoldable pub ensure_matching : List (ProviderInstance W) → M W (List Action)
  ensure_matching [] = pure (unrouted hostname.name err_no_matching_provider ∷ [])
  ensure_matching (inst ∷ insts) = ensure_all (writers (inst ∷ insts))

  unfoldable pub ensure_explicit : String → Option (ProviderInstance W) → M W (List Action)
  ensure_explicit target none =
      pure
        (unrouted hostname.name (append "explicit provider \"" (append target "\" not found")) ∷ [])
  ensure_explicit target (some inst) = ensure_all (inst ∷ [])

  -- `ensureRecord`
  unfoldable pub ensure_record : M W (List Action)
  ensure_record =
      let target = explicit_provider hostname.record_hints in
      if target == ""
      then ensure_matching
          (matching_providers_for_hostname hostname.name hostname.metadata env.providers)
      else ensure_explicit target (get target env.providers)
