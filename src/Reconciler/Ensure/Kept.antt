-- ===== src/Reconciler/Ensure/Kept.antt =====
-- What `ensureRecordForProvider` does where the wanted record is there.
use dnsweaver.Base.{
  String, ◌≡◌, refl, true, false, Option, List, [], ◌∷◌, arith, All, any, select, All-select_test,
  eq_iff,
}
use dnsweaver.Provider.Record.{Record, RecordType, srv_data_equals, new_record}
use dnsweaver.Provider.Ownership.{ownership_record}
use dnsweaver.Provider.Interface.{Call, System}
use dnsweaver.Provider.Interface.Issues.{Issues, Issues-pure, Issues-bind, Issues-call_delete}
use dnsweaver.Provider.Instance
use dnsweaver.Provider.Instance.{ProviderInstance, name}
use dnsweaver.Reconciler.Cache.{RecordCache}
use dnsweaver.Reconciler.Env.{Env}
use dnsweaver.Reconciler.Ensure.Marking.{keep_exact-Issues}
use dnsweaver.Reconciler.Ensure.{Wanted, settle, delete_stale, is_exact, is_stale, is_srv}

module _ {W : Type 0} (env : Env W) (cache : Option RecordCache) (h : String)
    (inst : ProviderInstance W) (w : Wanted) where
  -- The delete of a stale SRV record, or the create of the hostname's ownership marker.
  abbrev pub IsUpkeep : Call → Type 0
  IsUpkeep (Call.list n) = ⊥
  IsUpkeep (Call.create n r) = r ≡ ownership_record h inst.ttl inst.instance_id w.metadata
  IsUpkeep (Call.delete n r) =
      (is_srv w.type ≡ true)
      × (r.hostname ≡ h)
      × (r.type ≡ RecordType.srv)
      × (r.target ≡ w.target)
      × (srv_data_equals r.srv w.srv ≡ false)
  IsUpkeep (Call.update n x y) = ⊥

  pub stale_facts :
      (r : Record)
      → is_stale w r ≡ true
      → (is_srv w.type ≡ true) × (r.target ≡ w.target) × (srv_data_equals r.srv w.srv ≡ false)
  unfolding is_stale
  stale_facts r e = ground (arith, eq_iff r.target w.target)

  delete_stale-Issues :
      (rs : List Record)
      → All (λ r. is_stale w r ≡ true) rs
      → Issues IsUpkeep (delete_stale env cache h inst w rs)
  unfolding delete_stale Instance.delete_srv_record
  delete_stale-Issues [] ss = Issues-pure IsUpkeep tt
  delete_stale-Issues (r ∷ rs) (stale, ss) =
      let (srv_type, same_target, differ) = stale_facts r stale in
      Issues-bind IsUpkeep _ _
        (Issues-call_delete IsUpkeep inst.provider (new_record h RecordType.srv r.target 0 r.srv [])
          (srv_type, refl, refl, same_target, differ))
        (λ o. delete_stale-Issues rs ss)

  settle-Issues :
      (same_type : List Record)
      → any (is_exact w) same_type ≡ true
      → Issues IsUpkeep (settle env cache h inst w same_type)
  unfolding settle
  settle-Issues same_type exact =
      Issues-bind IsUpkeep _ _
        (delete_stale-Issues (select (is_stale w) same_type)
          (All-select_test (is_stale w) same_type))
        (λ _. rw exact (keep_exact-Issues env cache h inst w IsUpkeep refl))

  -- Where the wanted record is there, the only calls are deletes of SRV records with the wanted
  -- target and other data, and the create of the hostname's ownership marker: if every call before
  -- is one of these, so is every call after.
  pub exact_match_kept :
      (same_type : List Record) (s : System W)
      → any (is_exact w) same_type ≡ true
      → All IsUpkeep s.calls
      → All IsUpkeep (settle env cache h inst w same_type s).1.calls
  exact_match_kept same_type s exact = (settle-Issues same_type exact).at s
