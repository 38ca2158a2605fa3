-- ===== src/Reconciler/DryRun.antt =====
-- What a dry run does to the providers.
mod Ensuring
use dnsweaver.Base.{
  All, arith, String, ◌≡◌, true, false, not, ◌⊎◌, inl, inr, Option, some, List, [], ◌∷◌,
}
use dnsweaver.Base.Map.{Map, insert}
use dnsweaver.Hostname.{Hostname}
use dnsweaver.Provider.Failure
use dnsweaver.Provider.Interface.{System}
use dnsweaver.Provider.Interface.Issues.{
  Issues, IsRead, Issues-pure, Issues-if, Issues-bind, Issues-call_list,
}
use dnsweaver.Provider.Instance.{ProviderInstance, name}
use dnsweaver.Reconciler.Result.{Result, add_actions}
use dnsweaver.Reconciler.Cache
use dnsweaver.Reconciler.Cache.{RecordCache, cache_from, new_record_cache}
use dnsweaver.Reconciler.Env.{Env}
use dnsweaver.Reconciler.Orphan.{cleanup_orphans}
use dnsweaver.Reconciler.Orphan.Calls.{Deletes, cleanup_orphans-calls}
use dnsweaver.Reconciler.Cycle.{
  Extracted, note_actions, ensure_each, cleanup_if_enabled, remember, run_cycle, reconcile,
}
use Ensuring.{ensure_record-Issues}

module _ {W : Type 0} where
  cache_from-Issues :
      (c : RecordCache) (insts : List (ProviderInstance W)) → Issues IsRead (cache_from c insts)
  unfolding cache_from
  cache_from-Issues c [] = Issues-pure IsRead c
  cache_from-Issues c (inst ∷ insts) =
      Issues-bind IsRead _ _ (Issues-call_list IsRead inst.provider tt)
        (λ l. cache_from-Issues (insert (name inst) (Cache.indexed l) c) insts)

module _ {W : Type 0} (env : Env W) (dry : env.dry_run ≡ true) where
  ensure_each-Issues :
      (c : RecordCache) (hs : List (String × Hostname)) (r : Result) (m : Map (List String))
      → Issues IsRead (ensure_each env c hs r m)
  unfolding ensure_each
  ensure_each-Issues c [] r m = Issues-pure IsRead _
  ensure_each-Issues c ((k, h) ∷ hs) r m =
      Issues-bind IsRead _ _ (ensure_record-Issues env (some c) dry IsRead h)
        (λ a. ensure_each-Issues c hs (add_actions r a) (note_actions h.name m a))

  module _
      (safe : (env.config.cleanup_orphans ≡ false) ⊎ (env.config.ownership_tracking ≡ true)) where
    cleanup_orphans-reads :
        env.config.ownership_tracking ≡ true
        → (c : Option RecordCache) (hs : List String) → Issues IsRead (cleanup_orphans env c hs)
    cleanup_orphans-reads tracking c hs = record {
      at = λ s h.
          cleanup_orphans-calls env c hs s IsRead (λ n. tt) (λ d k o n r t. absurd (no_delete d)) h;
    }
      where
        no_delete : Deletes env → ⊥
        no_delete d = ground arith

    cleanup_if_enabled-Issues :
        (hs : List String) (c : RecordCache) → Issues IsRead (cleanup_if_enabled env hs c)
    unfolding cleanup_if_enabled
    cleanup_if_enabled-Issues hs c = elim safe [
      | inl off ↦ rw off (Issues-pure IsRead [])
      | inr tracking ↦
          Issues-if IsRead env.config.cleanup_orphans _ _
            (λ _. cleanup_orphans-reads tracking (some c) hs) (λ _. Issues-pure IsRead [])
    ]

    run_cycle-Issues : (d : Map Hostname) (r : Result) → Issues IsRead (run_cycle env d r)
    unfolding run_cycle new_record_cache
    run_cycle-Issues d r = Issues-bind IsRead _ _ (cache_from-Issues [] _) (λ c.
        Issues-bind IsRead _ _ (ensure_each-Issues c d r []) (λ e.
          Issues-bind IsRead _ _ (cleanup_if_enabled-Issues _ c)
            (λ o. Issues-bind IsRead _ _ (remember-Issues _ _) (λ _. Issues-pure IsRead _))))
      where
        remember-Issues :
            (known : List String) (m : Map (List String)) → Issues IsRead (remember env known m)
        remember-Issues known m = record { at = λ s h. unfold remember in h }

    reconcile-Issues :
        (workloads : Failure.Result (List (List Hostname))) (files : List Hostname)
        → Issues IsRead (reconcile env workloads files)
    unfolding reconcile
    reconcile-Issues (Failure.err e) files =
        Issues-if IsRead (not env.enabled) _ _ (λ _. Issues-pure IsRead _)
          (λ _. Issues-pure IsRead _)
    reconcile-Issues (Failure.ok ws) files =
        Issues-if IsRead (not env.enabled) _ _ (λ _. Issues-pure IsRead _)
          (λ _. Issues-bind IsRead _ _ (run_cycle-Issues _ _) (λ r. Issues-pure IsRead _))

    -- A reconciliation in a dry run only lists records, if orphan cleanup is off or ownership
    -- tracking is on: whatever the workloads and the providers answer, if every call before it is a
    -- read, so is every call after it.
    pub reconcile_dry_run :
        (workloads : Failure.Result (List (List Hostname))) (files : List Hostname) (s : System W)
        → All IsRead s.calls
        → All IsRead (reconcile env workloads files s).1.calls
    reconcile_dry_run workloads files = (reconcile-Issues workloads files).at
