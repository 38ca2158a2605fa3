-- ===== src/Provider/Manager/Invariant.antt =====
-- What holds of a provider manager at all times.
use dnsweaver.Base.{
  ℕ, ◌≤◌, ◌+◌, String, ◌≡◌, refl, sym, subst, Bool, true, Option, none, some, List, [], ◌∷◌,
  is_some, arith, inl, inr, All, All-imp, Option-cases, Bool-cases,
}
use dnsweaver.Base.Map.{insert}
use dnsweaver.Base.Map.Keys.{
  KeysDiffer, KeysDiffer-insert, KeysDiffer-delete, All-insert, All-delete,
}
use dnsweaver.Provider.Failure.{Error}
use dnsweaver.Provider.Config.{Family, ProviderInstanceConfig, validate}
use dnsweaver.Provider.Registry.{Registry, create_instance}
use dnsweaver.Provider.Registry.Bookkeeping.{IsConsistent, add_instance-IsConsistent}
use dnsweaver.Provider.Registry.Creation.{create_instance-IsAddition}
use package.dnsweaver.Provider.Manager.{
  ManagerConfig, PendingProvider, Manager, Attempt, next_interval, failed_again, first_failure,
  recheck, initialized, settle, start, stop, initialize_provider, retry_provider, retry_all,
}
use package.dnsweaver.Provider.Manager.Attempts.{
  IsUnchanged, IsAttempted, recheck-IsAttempted, check_created-recheck,
}

-- A pending provider has failed at least once, with an error, and waits for no longer than the
-- larger of the two intervals that are configured.
pub record IsWaiting (config : ManagerConfig) (pending : PendingProvider) : Type 0 where
  pub has_error : is_some pending.last_error ≡ true
  pub counted : 1 ≤ pending.attempt_count
  pub in_bounds : pending.retry_interval ≤ config.initial_retry_interval + config.max_retry_interval

abbrev pub IsEntry : ManagerConfig → String × PendingProvider → Type 0
IsEntry config (name, pending) = (pending.config.name ≡ name) × IsWaiting config pending

pub record IsWellFormed {W : Type 0} (m : Manager W) : Type 0 where
  pub consistent : IsConsistent m.registry
  pub keys_differ : KeysDiffer m.pending
  pub entries : All (IsEntry m.config) m.pending

next_interval-le :
    (config : ManagerConfig) (interval : ℕ)
    → next_interval config interval ≤ config.max_retry_interval
unfolding next_interval
next_interval-le config interval = ground arith

module _ {W : Type 0} where
  failed_again-IsWaiting :
      (config : ManagerConfig) (attempt : Attempt W) (e : Error) (p : PendingProvider)
      → IsWaiting config (failed_again config attempt e p)
  unfolding failed_again
  failed_again-IsWaiting config attempt e p = record {
    has_error = refl;
    counted = omega arith;
    in_bounds = omega (arith, next_interval-le config p.retry_interval);
  }

  first_failure-IsWaiting :
      (config : ManagerConfig) (attempt : Attempt W) (e : Error) (cfg : ProviderInstanceConfig)
      → IsWaiting config (first_failure config attempt (some e) cfg)
  unfolding first_failure
  first_failure-IsWaiting config attempt e cfg = record {
    has_error = refl;
    counted = omega arith;
    in_bounds = omega arith;
  }

  IsUnchanged-IsConsistent :
      (r r' : Registry W) → IsConsistent r → IsUnchanged r r' → IsConsistent r'
  IsUnchanged-IsConsistent r r' c (n, above, same) = subst IsConsistent (sym same) (record {
    same = c.same;
    keys_differ = c.keys_differ;
    ascending = c.ascending;
    below = All-imp (λ slot b. omega (arith, b, above)) r.instances c.below;
  })

  IsAttempted-IsConsistent :
      (attempt : Attempt W) (name : String) (r : Registry W) (answer : Option Error × Registry W)
      → IsConsistent r
      → IsAttempted attempt name r answer
      → IsConsistent answer.1
  IsAttempted-IsConsistent attempt name r (e, r') c (inl (_, unchanged)) =
      IsUnchanged-IsConsistent r r' c unchanged
  IsAttempted-IsConsistent attempt name r (e, r') c (inr (_, new, pi, _, same)) =
      subst IsConsistent (sym same) (add_instance-IsConsistent name pi r new c)

  module _ (m : Manager W) (w : IsWellFormed m) where
    queued-IsWellFormed :
        (r' : Registry W) (p : PendingProvider)
        → IsConsistent r'
        → IsWaiting m.config p
        → IsWellFormed (record m { registry = r'; pending = insert p.config.name p m.pending })
    queued-IsWellFormed r' p c waiting = record {
      consistent = c;
      keys_differ = KeysDiffer-insert p.config.name p m.pending w.keys_differ;
      entries = All-insert (IsEntry m.config) p.config.name p m.pending (refl, waiting) w.entries;
    }

    initialized-IsWellFormed :
        (attempt : Attempt W) (cfg : ProviderInstanceConfig) (answer : Option Error × Registry W)
        → IsConsistent answer.1
        → IsWellFormed (initialized attempt cfg answer m)
    unfolding initialized first_failure
    initialized-IsWellFormed attempt cfg (none, r') c = record {
      consistent = c;
      keys_differ = w.keys_differ;
      entries = w.entries;
    }
    initialized-IsWellFormed attempt cfg (some e, r') c =
        queued-IsWellFormed r' (first_failure m.config attempt (some e) cfg) c
          (first_failure-IsWaiting m.config attempt e cfg)

    settle-IsWellFormed :
        (attempt : Attempt W) (p : PendingProvider) (answer : Option Error × Registry W)
        → IsConsistent answer.1
        → IsWellFormed (settle attempt p answer m)
    unfolding settle
    settle-IsWellFormed attempt p (none, r') c = record {
      consistent = c;
      keys_differ = KeysDiffer-delete p.config.name m.pending w.keys_differ;
      entries = All-delete (IsEntry m.config) p.config.name m.pending w.entries;
    }
    settle-IsWellFormed attempt p (some e, r') c =
        queued-IsWellFormed r' (failed_again m.config attempt e p) c
          (failed_again-IsWaiting m.config attempt e p)

  running-IsWellFormed :
      (m : Manager W) (running : Bool)
      → IsWellFormed m
      → IsWellFormed (record m { running = running })
  running-IsWellFormed m running w = record {
    consistent = w.consistent;
    keys_differ = w.keys_differ;
    entries = w.entries;
  }

  pub start-IsWellFormed : (m : Manager W) → IsWellFormed m → IsWellFormed (start m).1
  unfolding start
  start-IsWellFormed m w = elim (Bool-cases m.running) [
    | inl on ↦ rw (start, on) (running-IsWellFormed m _ w)
    | inr off ↦ rw (start, off) (running-IsWellFormed m _ w)
  ]

  pub stop-IsWellFormed : (m : Manager W) → IsWellFormed m → IsWellFormed (stop m)
  unfolding stop
  stop-IsWellFormed m w = elim (Bool-cases m.running) [
    | inl on ↦ rw (stop, on) (running-IsWellFormed m _ w)
    | inr off ↦ rw (stop, off) (running-IsWellFormed m _ w)
  ]

  module _ (ip_family : String → Option Family)
      (compile_regexp : String → Option (String → Bool)) where
    pub retry-IsAttempted :
        (attempt : Attempt W) (cfg : ProviderInstanceConfig) (r : Registry W)
        → IsConsistent r
        → IsAttempted attempt cfg.name r
            (recheck attempt cfg.name (create_instance ip_family compile_regexp cfg r))
    retry-IsAttempted attempt cfg r c =
        recheck-IsAttempted attempt cfg.name r _ c
          (create_instance-IsAddition ip_family compile_regexp cfg r)

    pub retry_provider-IsWellFormed :
        (attempt : Attempt W) (p : PendingProvider) (m : Manager W)
        → IsWellFormed m
        → IsWellFormed (retry_provider ip_family compile_regexp attempt p m)
    unfolding retry_provider
    retry_provider-IsWellFormed attempt p m w = settle-IsWellFormed m w attempt p _ (
        IsAttempted-IsConsistent attempt p.config.name m.registry _ w.consistent
          (retry-IsAttempted attempt p.config m.registry w.consistent))

    pub retry_all-IsWellFormed :
        (attempts : String → Attempt W) (ps : List PendingProvider) (m : Manager W)
        → IsWellFormed m
        → IsWellFormed (retry_all ip_family compile_regexp attempts ps m)
    unfolding retry_all
    retry_all-IsWellFormed attempts [] m w = w
    retry_all-IsWellFormed attempts (p ∷ ps) m w =
        retry_all-IsWellFormed attempts ps _
          (retry_provider-IsWellFormed (attempts p.config.name) p m w)

    -- `InitializeProvider` with a valid configuration, in terms of the attempt
    pub initialize_provider-valid :
        (attempt : Attempt W) (cfg : ProviderInstanceConfig) (m : Manager W)
        → validate ip_family cfg ≡ none
        → initialize_provider ip_family compile_regexp attempt cfg m ≡ (
          none,
          initialized attempt cfg
              (recheck attempt cfg.name (create_instance ip_family compile_regexp cfg m.registry))
              m,
        )
    unfolding initialize_provider
    initialize_provider-valid attempt cfg m valid =
        let added = create_instance-IsAddition ip_family compile_regexp cfg m.registry in
        rw (valid, initialize_provider, check_created-recheck attempt cfg m _ added) refl

    pub initialize_provider-IsWellFormed :
        (attempt : Attempt W) (cfg : ProviderInstanceConfig) (m : Manager W)
        → IsWellFormed m
        → IsWellFormed (initialize_provider ip_family compile_regexp attempt cfg m).1
    unfolding initialize_provider
    initialize_provider-IsWellFormed attempt cfg m w =
        elim (Option-cases (validate ip_family cfg)) [
          | inr (e, invalid) ↦ rw (invalid, initialize_provider) w
          | inl valid ↦ rw (initialize_provider-valid attempt cfg m valid) (
              initialized-IsWellFormed m w attempt cfg _ (
                IsAttempted-IsConsistent attempt cfg.name m.registry _ w.consistent
                  (retry-IsAttempted attempt cfg m.registry w.consistent)))
        ]
