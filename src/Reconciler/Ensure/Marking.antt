-- ===== src/Reconciler/Ensure/Marking.antt =====
-- The calls of `ensureOwnershipRecord`.
use dnsweaver.Base.{String, Option, not}
use dnsweaver.Provider.Ownership.{ownership_record}
use dnsweaver.Provider.Interface.{Call}
use dnsweaver.Provider.Interface.Issues.{
  Issues, Issues-pure, Issues-if, Issues-bind, Issues-call_create,
}
use dnsweaver.Provider.Instance
use dnsweaver.Provider.Instance.{ProviderInstance, name}
use dnsweaver.Reconciler.Result.{Action}
use dnsweaver.Reconciler.Cache.{RecordCache}
use dnsweaver.Reconciler.Env.{Env}
use dnsweaver.Reconciler.Ensure.{
  Wanted, keep_exact, own_and_return, ensure_ownership_record, cache_owns,
}

module _ {W : Type 0} (env : Env W) (cache : Option RecordCache) (h : String)
    (inst : ProviderInstance W) (w : Wanted) (Q : Call → Type 0)
    (q_marker : Q
      (Call.create (name inst) (ownership_record h inst.ttl inst.instance_id w.metadata))) where
  ensure_ownership_record-Issues : Issues Q (ensure_ownership_record env cache h inst w.metadata)
  unfolding ensure_ownership_record Instance.create_ownership_record
  ensure_ownership_record-Issues =
      Issues-if Q (not env.config.ownership_tracking) _ _ (λ _. Issues-pure Q tt)
        (λ _.
          Issues-if Q (cache_owns env.config inst h cache) _ _ (λ _. Issues-pure Q tt)
            (λ _.
              Issues-bind Q _ _
                (Issues-bind Q _ _ (Issues-call_create Q inst.provider _ q_marker)
                  (λ o. Issues-pure Q _))
                (λ o. Issues-pure Q tt)))

  pub own_and_return-Issues : (a : Action) → Issues Q (own_and_return env cache h inst w a)
  unfolding own_and_return
  own_and_return-Issues a = Issues-bind Q _ _ ensure_ownership_record-Issues (λ _. Issues-pure Q a)

  pub keep_exact-Issues : Issues Q (keep_exact env cache h inst w)
  unfolding keep_exact
  keep_exact-Issues =
      Issues-if Q (cache_owns env.config inst h cache) _ _ (λ _. own_and_return-Issues _)
        (λ _.
          Issues-if Q env.config.adopt_existing _ _ (λ _. own_and_return-Issues _)
            (λ _. Issues-pure Q _))
