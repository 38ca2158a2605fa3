-- ===== src/Reconciler/Orphan/Modes.antt =====
-- What each operational mode lets orphan cleanup do at one provider.
use dnsweaver.Base.{
  String, ◌≡◌, refl, and→left, and→right, true, false, Option, List, [], ◌∷◌, arith, All, ◌==◌,
  eq_iff, All-select_test,
}
use dnsweaver.Provider.Record.{Record, type_eq, type_eq_iff}
use dnsweaver.Provider.Failure
use dnsweaver.Provider.Mode.{OperationalMode, allows_delete, requires_ownership}
use dnsweaver.Provider.Interface.{Call, System}
use dnsweaver.Provider.Interface.Issues.{
  Issues, Issues-pure, Issues-if, Issues-bind, Issues-call_delete,
}
use dnsweaver.Provider.Instance
use dnsweaver.Provider.Instance.{ProviderInstance, name, effective_target}
use dnsweaver.Reconciler.Cache.{RecordCache}
use dnsweaver.Reconciler.Env.{Env}
use dnsweaver.Reconciler.Orphan.Calls.{records_of-Issues}
use dnsweaver.Reconciler.Orphan.{
  delete_orphan, delete_target_match, delete_matched, target_match_outcome, delete_each,
  is_target_match, delete_target_now, unless_dry_run,
}

pub allowed : (m : OperationalMode) → requires_ownership m ≡ true → allows_delete m ≡ true
unfolding allows_delete requires_ownership
allowed m e = ground arith

-- A listing, or the delete of a record of this hostname with the instance's type and target.
abbrev pub IsOwnTarget : {W : Type 0} → String → ProviderInstance W → Call → Type 0
IsOwnTarget h inst (Call.list n) = Unit
IsOwnTarget h inst (Call.delete n r) =
    (n ≡ name inst)
    × (r.hostname ≡ h)
    × (r.type ≡ inst.record_type)
    × (r.target ≡ effective_target inst)
IsOwnTarget h inst (Call.create n r) = ⊥
IsOwnTarget h inst (Call.update n x y) = ⊥

module _ {W : Type 0} (env : Env W) (h : String) (inst : ProviderInstance W)
    (mode : requires_ownership inst.mode ≡ true)
    (tracking : env.config.ownership_tracking ≡ true) where
  managed_by_target :
      (cache : Option RecordCache)
      → inst.provider.capabilities.supports_ownership_txt ≡ false
      → delete_orphan env cache h inst ≡ delete_target_match env cache h inst
  unfolding delete_orphan
  managed_by_target cache no_txt = rw (allowed inst.mode mode, mode, tracking, no_txt)

  delete_target_now-Issues :
      (cache : Option RecordCache) (r : Record)
      → is_target_match env cache h inst r ≡ true
      → Issues (IsOwnTarget h inst) (delete_target_now inst h r)
  unfolding delete_target_now Instance.delete_record_by_target is_target_match
  delete_target_now-Issues cache r e =
      Issues-bind (IsOwnTarget h inst) _ _
        (Issues-call_delete (IsOwnTarget h inst) inst.provider _
          (refl, refl, same_type, same_target))
        (λ o. Issues-pure (IsOwnTarget h inst) _)
    where
      same_type : r.type ≡ inst.record_type
      same_type =
          (type_eq_iff r.type inst.record_type).0
            (and→left (type_eq r.type inst.record_type) (r.target == effective_target inst) e)

      same_target : r.target ≡ effective_target inst
      same_target =
          (eq_iff r.target (effective_target inst)).0
            (and→right (type_eq r.type inst.record_type) (r.target == effective_target inst) e)

  delete_targets-Issues :
      (cache : Option RecordCache) (rs : List Record)
      → All (λ r. is_target_match env cache h inst r ≡ true) rs
      → Issues
          (IsOwnTarget h inst)
          (delete_each inst h (unless_dry_run inst h env.dry_run (delete_target_now inst h)) rs)
  unfolding delete_each unless_dry_run
  delete_targets-Issues cache [] ms = Issues-pure (IsOwnTarget h inst) []
  delete_targets-Issues cache (r ∷ rs) (m, ms) =
      Issues-bind (IsOwnTarget h inst) _ _
        (Issues-if (IsOwnTarget h inst) env.dry_run _ _ (λ _. Issues-pure (IsOwnTarget h inst) _)
          (λ _. delete_target_now-Issues cache r m))
        (λ a.
          Issues-bind (IsOwnTarget h inst) _ _ (delete_targets-Issues cache rs ms)
            (λ xs. Issues-pure (IsOwnTarget h inst) _))

  delete_matched-Issues :
      (cache : Option RecordCache) (rs : List Record)
      → All (λ r. is_target_match env cache h inst r ≡ true) rs
      → Issues (IsOwnTarget h inst) (delete_matched env cache h inst rs)
  unfolding delete_matched
  delete_matched-Issues cache [] ms = Issues-pure (IsOwnTarget h inst) _
  delete_matched-Issues cache (r ∷ rs) ms = delete_targets-Issues cache (r ∷ rs) ms

  target_match_outcome-Issues :
      (cache : Option RecordCache) (r : Failure.Result (List Record))
      → Issues (IsOwnTarget h inst) (target_match_outcome env cache h inst r)
  unfolding target_match_outcome
  target_match_outcome-Issues cache (Failure.err e) = Issues-pure (IsOwnTarget h inst) _
  target_match_outcome-Issues cache (Failure.ok rs) =
      delete_matched-Issues cache _ (All-select_test (is_target_match env cache h inst) rs)

  target_match-Issues :
      (cache : Option RecordCache)
      → inst.provider.capabilities.supports_ownership_txt ≡ false
      → Issues (IsOwnTarget h inst) (delete_orphan env cache h inst)
  unfolding delete_target_match
  target_match-Issues cache no_txt = rw (managed_by_target cache no_txt) (
      Issues-bind (IsOwnTarget h inst) _ _
        (records_of-Issues (IsOwnTarget h inst) (λ n. tt) h inst cache _)
        (target_match_outcome-Issues cache))

  -- In managed mode with ownership tracking, at a provider that cannot hold markers, orphan cleanup
  -- deletes only records of the hostname with the instance's own type and target: if every call
  -- before it is a listing or such a delete, so is every call after it.
  pub target_match_scope :
      (cache : Option RecordCache) (s : System W)
      → inst.provider.capabilities.supports_ownership_txt ≡ false
      → All (IsOwnTarget h inst) s.calls
      → All (IsOwnTarget h inst) (delete_orphan env cache h inst s).1.calls
  target_match_scope cache s no_txt = (target_match-Issues cache no_txt).at s
