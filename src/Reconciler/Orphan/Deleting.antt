-- ===== src/Reconciler/Orphan/Deleting.antt =====
-- The deletes that orphan cleanup in managed mode makes of the records in the cache.
use dnsweaver.Base.{
  String, ◌≡◌, refl, ap, ◌∙◌, Bool, true, false, none, some, List, [], ◌∷◌, Bool-cases, inl, inr,
  if◌then◌else◌,
}
use dnsweaver.Provider.Record.{Record, RecordType, type_eq, type_eq_iff, new_record, is_data_type}
use dnsweaver.Provider.Failure
use dnsweaver.Provider.Mode.{requires_ownership}
use dnsweaver.Provider.Ownership.{ownership_record}
use dnsweaver.Provider.Interface.{Call, System, M, ◌>>=◌, call_delete}
use dnsweaver.Provider.Instance
use dnsweaver.Provider.Instance.{ProviderInstance, name}
use dnsweaver.Reconciler.Result.{Action}
use dnsweaver.Reconciler.Cache
use dnsweaver.Reconciler.Cache.{RecordCache}
use dnsweaver.Reconciler.Env.{Env}
use dnsweaver.Reconciler.Orphan.Modes.{allowed}
use dnsweaver.Reconciler.Orphan.{
  managed_outcome, delete_marker, delete_each, delete_one, delete_now, unless_dry_run, records_of,
  delete_orphan, delete_managed, delete_if_owned, check_ownership, delete_cache_only,
  cache_only_outcome, delete_cache_only_one,
}

module _ {W : Type 0} (h : String) (inst : ProviderInstance W) where
  -- the delete of the hostname's record with this type and target, and with these data if it is an
  -- SRV record
  abbrev pub deletion_call : Record → Call
  deletion_call r =
      Call.delete (name inst)
        (new_record h r.type r.target 0 (if type_eq r.type RecordType.srv then r.srv else none) [])

  -- the deletes of the records, one after the other, the last one first, before the calls so far
  abbrev pub deletion_calls : List Record → List Call → List Call
  deletion_calls [] calls = calls
  deletion_calls (r ∷ rs) calls = deletion_calls rs (deletion_call r ∷ calls)

  -- Deletes a record, whatever is answered.
  abbrev IsDelete : (Record → M W Action) → Type 0
  IsDelete delete = (r : Record) (s : System W) → (delete r s).1.calls ≡ deletion_call r ∷ s.calls

  delete_one-calls :
      (r : Record) (s : System W) → (delete_one inst h r s).1.calls ≡ deletion_call r ∷ s.calls
  unfolding delete_one Instance.delete_srv_record Instance.delete_record_by_target call_delete
  delete_one-calls r s = elim (Bool-cases (type_eq r.type RecordType.srv)) [
    | inl e ↦ rw (e, (type_eq_iff r.type RecordType.srv).0 e) refl
    | inr e ↦ rw e refl
  ]

  delete_each-calls :
      (delete : Record → M W Action) (rs : List Record) (s : System W)
      → IsDelete delete
      → (delete_each inst h delete rs s).1.calls ≡ deletion_calls rs s.calls
  unfolding delete_each ◌>>=◌
  delete_each-calls delete [] s deletes = refl
  delete_each-calls delete (r ∷ rs) s deletes =
      delete_each-calls delete rs (delete r s).1 deletes ∙ ap (deletion_calls rs) (deletes r s)

  delete_now-IsDelete :
      (dry : Bool) → dry ≡ false → IsDelete (unless_dry_run inst h dry (delete_now inst h))
  unfolding unless_dry_run delete_now ◌>>=◌
  delete_now-IsDelete dry real r s = rw real (delete_one-calls r s)

module _ {W : Type 0} (env : Env W) (c : RecordCache) (h : String) (inst : ProviderInstance W)
    (r : Record) (rs : List Record)
    (cached : Cache.get_all_records_for_hostname c (name inst) h ≡ some (r ∷ rs)) where
  records_of_cached :
      (keep : Record → Bool) (s : System W)
      → records_of inst h (some c) keep s ≡ (Failure.ok (r ∷ rs), s)
  unfolding records_of
  records_of_cached keep s = rw (records_of, cached) refl

  managed_outcome-calls :
      (s : System W)
      → env.dry_run ≡ false
      → (managed_outcome env (some c) h inst (Failure.ok (r ∷ rs)) s).1.calls
        ≡ Call.delete (name inst) (ownership_record h inst.ttl inst.instance_id [])
          ∷ deletion_calls h inst (r ∷ rs) s.calls
  unfolding managed_outcome delete_marker Instance.delete_ownership_record ◌>>=◌ call_delete
  managed_outcome-calls s real = rw real (
      ap
        (λ calls. Call.delete (name inst) (ownership_record h inst.ttl inst.instance_id []) ∷ calls)
        (delete_each-calls h inst _ (r ∷ rs) s (delete_now-IsDelete h inst false refl)))

  by_marker :
      requires_ownership inst.mode ≡ true
      → env.config.ownership_tracking ≡ true
      → inst.provider.capabilities.supports_ownership_txt ≡ true
      → delete_orphan env (some c) h inst ≡ delete_managed env (some c) h inst
  unfolding delete_orphan
  by_marker mode tracking txt = rw (allowed inst.mode mode, mode, tracking, txt)

  delete_managed-calls :
      (s : System W)
      → env.dry_run ≡ false
      → Cache.has_ownership_record c (name inst) h env.config.instance_id ≡ true
      → (delete_managed env (some c) h inst s).1.calls
        ≡ Call.delete (name inst) (ownership_record h inst.ttl inst.instance_id [])
          ∷ deletion_calls h inst (r ∷ rs) s.calls
  unfolding delete_managed delete_if_owned check_ownership ◌>>=◌
  delete_managed-calls s real owned =
      rw (owned, records_of_cached (λ x. is_data_type x.type) s) (managed_outcome-calls s real)

  -- At an instance in managed mode, with ownership tracking and a provider that can hold the markers,
  -- and outside a dry run, an orphan whose marker and records are in the cache is deleted as a whole:
  -- the calls are one delete for each of the cached records, in their order, and then that of the
  -- marker, whatever the deletes before it answered.
  pub owned_deleted :
      (s : System W)
      → requires_ownership inst.mode ≡ true
      → env.config.ownership_tracking ≡ true
      → inst.provider.capabilities.supports_ownership_txt ≡ true
      → env.dry_run ≡ false
      → Cache.has_ownership_record c (name inst) h env.config.instance_id ≡ true
      → (delete_orphan env (some c) h inst s).1.calls
        ≡ Call.delete (name inst) (ownership_record h inst.ttl inst.instance_id [])
          ∷ deletion_calls h inst (r ∷ rs) s.calls
  owned_deleted s mode tracking txt real owned =
      ap (λ (m : M W (List Action)). (m s).1.calls) (by_marker mode tracking txt)
      ∙ delete_managed-calls s real owned

  -- At an instance in managed mode, without ownership tracking, the records of an orphan that are in
  -- the cache are deleted in a dry run too: the calls are one delete for each of them, in their order.
  pub untracked_dry_run_deletes :
      (s : System W)
      → requires_ownership inst.mode ≡ true
      → env.config.ownership_tracking ≡ false
      → env.dry_run ≡ true
      → (delete_orphan env (some c) h inst s).1.calls ≡ deletion_calls h inst (r ∷ rs) s.calls
  unfolding delete_orphan delete_cache_only cache_only_outcome ◌>>=◌ delete_cache_only_one
  untracked_dry_run_deletes s mode untracked dry =
      rw (allowed inst.mode mode, mode, untracked, records_of_cached _ s)
        (delete_each-calls h inst _ (r ∷ rs) s (λ x t. delete_one-calls h inst x t))
