-- ===== src/Reconciler/DryRun/Ensuring.antt =====
-- The steps of `ensureRecord`, and the calls they make in a dry run.
use dnsweaver.Base.{String, ◌≡◌, true, Option, none, some, List, [], ◌∷◌, arith, ◌==◌}
use dnsweaver.Base.Map.{Map}
use dnsweaver.Hostname.{Hostname}
use dnsweaver.Provider.Interface.{Call, pure, ◌>>=◌}
use dnsweaver.Provider.Interface.Issues.{Issues, Issues-pure, Issues-if, Issues-bind}
use dnsweaver.Provider.Instance.{ProviderInstance}
use dnsweaver.Reconciler.Cache.{RecordCache}
use dnsweaver.Reconciler.Env.{Env}
use dnsweaver.Reconciler.Ensure.{
  Wanted, get_recovered_metadata, with_recovered, apply_hints, act, ensure_record_for_provider,
}
use dnsweaver.Reconciler.Route.{
  ensure_all, ensure_matching, ensure_explicit, ensure_record, explicit_provider,
}

module _ {W : Type 0} (Q : Call → Type 0) where
  Issues-get_recovered_metadata : (h : String) → Issues {W = W} Q (get_recovered_metadata h)
  unfolding get_recovered_metadata
  Issues-get_recovered_metadata h = record { at = λ s q. ground arith }

  Issues-with_recovered : (h : String) (w : Wanted) → Issues {W = W} Q (with_recovered h w)
  unfolding with_recovered
  Issues-with_recovered h w = go w.metadata
    where
      go :
          (m : Map String)
          → Issues {W = W} Q (elim m [
            | _ ∷ _ ↦ pure w
            | [] ↦ get_recovered_metadata h >>= λ r. pure (record w { metadata = r })
          ])
      go (_ ∷ _) = Issues-pure Q w
      go [] = Issues-bind Q _ _ (Issues-get_recovered_metadata h) (λ r. Issues-pure Q _)

module _ {W : Type 0} (env : Env W) (cache : Option RecordCache) (dry : env.dry_run ≡ true) where
  module _ (Q : Call → Type 0) where
    act-Issues :
        (h : String) (inst : ProviderInstance W) (w : Wanted) → Issues Q (act env cache h inst w)
    unfolding act
    act-Issues h inst w = rw dry (Issues-pure Q _)

    ensure_all-Issues :
        (h : Hostname) (insts : List (ProviderInstance W)) → Issues Q (ensure_all env cache h insts)
    unfolding ensure_all ensure_record_for_provider
    ensure_all-Issues h [] = Issues-pure Q []
    ensure_all-Issues h (inst ∷ insts) =
        Issues-bind Q _ _
          (Issues-bind Q _ _ (Issues-with_recovered Q h.name (apply_hints inst h.record_hints))
            (λ w. act-Issues h.name inst w))
          (λ a. Issues-bind Q _ _ (ensure_all-Issues h insts) (λ xs. Issues-pure Q _))

    ensure_matching-Issues :
        (h : Hostname) (insts : List (ProviderInstance W))
        → Issues Q (ensure_matching env cache h insts)
    unfolding ensure_matching
    ensure_matching-Issues h [] = Issues-pure Q _
    ensure_matching-Issues h (inst ∷ insts) = ensure_all-Issues h _

    ensure_explicit-Issues :
        (h : Hostname) (t : String) (o : Option (ProviderInstance W))
        → Issues Q (ensure_explicit env cache h t o)
    unfolding ensure_explicit
    ensure_explicit-Issues h t none = Issues-pure Q _
    ensure_explicit-Issues h t (some inst) = ensure_all-Issues h _

    pub ensure_record-Issues : (h : Hostname) → Issues Q (ensure_record env cache h)
    unfolding ensure_record
    ensure_record-Issues h =
        Issues-if Q (explicit_provider h.record_hints == "") _ _ (λ _. ensure_matching-Issues h _)
          (λ _. ensure_explicit-Issues h _ _)
