-- ===== src/Reconciler/Orphan/Authoritative.antt =====
-- What orphan cleanup may delete in authoritative mode.
use dnsweaver.Base.{
  String, ◌≡◌, refl, subst, true, false, ◌⊎◌, inl, inr, Option, List, [], ◌∷◌, arith, All,
  All-select_test,
}
use dnsweaver.Provider.Record.{
  Record, RecordType, type_eq, type_eq_iff, supports_record_type, new_record,
}
use dnsweaver.Provider.Failure
use dnsweaver.Provider.Mode.{authoritative, allows_delete, requires_ownership}
use dnsweaver.Provider.Ownership.{ownership_record}
use dnsweaver.Provider.Interface.{Call, System}
use dnsweaver.Provider.Interface.Issues.{
  Issues, Issues-pure, Issues-if, Issues-bind, Issues-call_delete,
}
use dnsweaver.Provider.Instance
use dnsweaver.Provider.Instance.{ProviderInstance, name}
use dnsweaver.Reconciler.Cache.{RecordCache}
use dnsweaver.Reconciler.Env.{Env}
use dnsweaver.Reconciler.Orphan.Calls.{records_of-Issues}
use dnsweaver.Reconciler.Orphan.{
  delete_orphan, delete_authoritative, authoritative_outcome, is_authoritative_target,
  delete_marker, delete_each, delete_now, delete_one, unless_dry_run,
}

-- a type that the provider supports, and no TXT record
abbrev pub IsSupported : {W : Type 0} → ProviderInstance W → RecordType → Type 0
IsSupported inst t =
    (supports_record_type inst.provider.capabilities t ≡ true) × (type_eq t RecordType.txt ≡ false)

-- A listing, the delete of a record of the hostname with a type that the provider supports, or of
-- the hostname's ownership marker.
abbrev pub IsInScope : {W : Type 0} → String → ProviderInstance W → Call → Type 0
IsInScope h inst (Call.list n) = Unit
IsInScope h inst (Call.delete n r) =
    (n ≡ name inst)
    × (((r.hostname ≡ h) × IsSupported inst r.type)
        ⊎ (r ≡ ownership_record h inst.ttl inst.instance_id []))
IsInScope h inst (Call.create n r) = ⊥
IsInScope h inst (Call.update n x y) = ⊥

module _ {W : Type 0} (env : Env W) (h : String) (inst : ProviderInstance W) where
  target-IsSupported :
      (cache : Option RecordCache) (r : Record)
      → is_authoritative_target env cache h inst r ≡ true
      → IsSupported inst r.type
  unfolding is_authoritative_target
  target-IsSupported cache r e = ground arith

  delete_one-Issues :
      (r : Record) → IsSupported inst r.type → Issues (IsInScope h inst) (delete_one inst h r)
  unfolding delete_one Instance.delete_srv_record Instance.delete_record_by_target
  delete_one-Issues r supported =
      Issues-if (IsInScope h inst) (type_eq r.type RecordType.srv) _ _
        (λ e.
          Issues-call_delete (IsInScope h inst) inst.provider
            (new_record h RecordType.srv r.target 0 r.srv [])
            (
              refl,
              inl (
                refl,
                subst (IsSupported inst) ((type_eq_iff r.type RecordType.srv).0 e) supported,
              ),
            ))
        (λ _. Issues-call_delete (IsInScope h inst) inst.provider _ (refl, inl (refl, supported)))

  delete_targets-Issues :
      (cache : Option RecordCache) (rs : List Record)
      → All (λ r. is_authoritative_target env cache h inst r ≡ true) rs
      → Issues
          (IsInScope h inst)
          (delete_each inst h (unless_dry_run inst h env.dry_run (delete_now inst h)) rs)
  unfolding delete_each unless_dry_run delete_now
  delete_targets-Issues cache [] ms = Issues-pure (IsInScope h inst) []
  delete_targets-Issues cache (r ∷ rs) (m, ms) =
      Issues-bind (IsInScope h inst) _ _
        (Issues-if (IsInScope h inst) env.dry_run _ _ (λ _. Issues-pure (IsInScope h inst) _)
          (λ _.
            Issues-bind (IsInScope h inst) _ _ (delete_one-Issues r (target-IsSupported cache r m))
              (λ o. Issues-pure (IsInScope h inst) _)))
        (λ a.
          Issues-bind (IsInScope h inst) _ _ (delete_targets-Issues cache rs ms)
            (λ xs. Issues-pure (IsInScope h inst) _))

  delete_marker-Issues :
      (cache : Option RecordCache) → Issues (IsInScope h inst) (delete_marker env cache h inst)
  unfolding delete_marker Instance.delete_ownership_record
  delete_marker-Issues cache =
      Issues-if (IsInScope h inst) env.dry_run _ _ (λ _. Issues-pure (IsInScope h inst) tt)
        (λ _.
          Issues-bind (IsInScope h inst) _ _
            (Issues-call_delete (IsInScope h inst) inst.provider _ (refl, inr refl))
            (λ o. Issues-pure (IsInScope h inst) tt))

  authoritative_outcome-Issues :
      (cache : Option RecordCache) (r : Failure.Result (List Record))
      → Issues (IsInScope h inst) (authoritative_outcome env cache h inst r)
  unfolding authoritative_outcome
  authoritative_outcome-Issues cache (Failure.err e) = Issues-pure (IsInScope h inst) _
  authoritative_outcome-Issues cache (Failure.ok rs) =
      Issues-bind (IsInScope h inst) _ _
        (delete_targets-Issues cache _
          (All-select_test (is_authoritative_target env cache h inst) rs))
        (λ xs.
          Issues-bind (IsInScope h inst) _ _
            (Issues-if (IsInScope h inst) env.config.ownership_tracking _ _
              (λ _. delete_marker-Issues cache) (λ _. Issues-pure (IsInScope h inst) tt))
            (λ _. Issues-pure (IsInScope h inst) xs))

  authoritative_deletes :
      allows_delete inst.mode ≡ true
      → requires_ownership inst.mode ≡ false
      → (cache : Option RecordCache)
      → delete_orphan env cache h inst ≡ delete_authoritative env cache h inst
  unfolding delete_orphan
  authoritative_deletes d o cache = rw (d, o) refl

  delete_authoritative-Issues :
      (cache : Option RecordCache)
      → Issues (IsInScope h inst) (delete_authoritative env cache h inst)
  unfolding delete_authoritative
  delete_authoritative-Issues cache =
      Issues-bind (IsInScope h inst) _ _
        (records_of-Issues (IsInScope h inst) (λ n. tt) h inst cache _)
        (authoritative_outcome-Issues cache)

  -- In authoritative mode, orphan cleanup deletes only records of the hostname whose type the
  -- provider supports and is not TXT, and the hostname's ownership marker: if every call before it
  -- is a listing or such a delete, so is every call after it.
  pub authoritative_scope :
      (cache : Option RecordCache) (s : System W)
      → inst.mode ≡ authoritative
      → All (IsInScope h inst) s.calls
      → All (IsInScope h inst) (delete_orphan env cache h inst s).1.calls
  unfolding allows_delete requires_ownership
  authoritative_scope cache s e =
      rw (authoritative_deletes (ground arith) (ground arith) cache)
        ((delete_authoritative-Issues cache).at s)
