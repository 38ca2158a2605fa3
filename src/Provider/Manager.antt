-- ===== src/Provider/Manager.antt =====
-- pkg/provider/manager.go. The clock, the answers of `Ping` and the product of an interval with the
-- multiplier, a `float64`, are parameters. The operations run one after the other; the log and the
-- metrics are left out. A call of `OnProviderReady` is put in front of `notified`.
pub mod Attempts
pub mod Invariant
pub mod Steps
pub mod Retried
pub mod Due
pub mod Retrying
pub mod Recovery
pub mod Adding
pub mod Reporting
use dnsweaver.Base.{
  ℕ, suc, ◌+◌, ◌*◌, String, Bool, true, false, Option, none, some, List, [], ◌∷◌, ◌++◌,
  if◌then◌else◌, leb, ltb, nat_eq, map, length,
}
use dnsweaver.Base.Map.{Map, insert, delete}
use dnsweaver.Base.Chain.{◌>>=◌}
use dnsweaver.Provider.Failure.{Error}
use dnsweaver.Provider.Config.{Family, ProviderInstanceConfig, validate}
use dnsweaver.Provider.Instance.{ProviderInstance}
use dnsweaver.Provider.Registry.{Registry, get, all, remove, create_instance, wrapped, failure}
use Prim.Native.String.{◌++◌ as append}

-- Times and intervals are nanoseconds. `backed_off` is an interval times `RetryBackoffMultiplier`,
-- `notifies` tells whether `OnProviderReady` is set.
pub record ManagerConfig : Type 0 where
  pub initial_retry_interval : ℕ
  pub max_retry_interval : ℕ
  pub backed_off : ℕ → ℕ
  pub notifies : Bool

abbrev second : ℕ
second = 1000000000

-- `DefaultManagerConfig`
abbrev pub default_manager_config : ManagerConfig
default_manager_config = record {
  initial_retry_interval = 5 * second;
  max_retry_interval = 300 * second;
  backed_off = λ interval. interval * 2;
  notifies = false;
}

pub record PendingProvider : Type 0 where
  pub config : ProviderInstanceConfig
  pub last_error : Option Error
  pub last_attempt : ℕ
  pub attempt_count : ℕ
  pub next_retry_at : ℕ
  pub retry_interval : ℕ

pub record Manager (W : Type 0) : Type 0 where
  pub registry : Registry W
  pub config : ManagerConfig
  pub pending : Map PendingProvider
  pub running : Bool
  pub notified : List (String × ProviderInstance W)

-- What one attempt meets: the answer of `Ping`, and the two readings of the clock after a failure.
pub record Attempt (W : Type 0) : Type 0 where
  pub ping : ProviderInstance W → Option Error
  pub failed_at : ℕ
  pub retry_from : ℕ

-- `NewManager`
abbrev pub new_manager : {W : Type 0} → Registry W → ManagerConfig → Manager W
new_manager registry config = record {
  registry = registry;
  config = config;
  pending = [];
  running = false;
  notified = [];
}

-- The end of `retryProvider`: the interval grows and is capped.
pub next_interval : ManagerConfig → ℕ → ℕ
next_interval config interval =
    let new_interval = config.backed_off interval in
    if ltb config.max_retry_interval new_interval then config.max_retry_interval else new_interval

-- `retryPendingProviders` first collects what is due.
pub due : ℕ → Map PendingProvider → List PendingProvider
due now [] = []
due now ((name, pending) ∷ rest) =
    let later = due now rest in if leb pending.next_retry_at now then pending ∷ later else later

module _ {W : Type 0} where
  pub failed_again : ManagerConfig → Attempt W → Error → PendingProvider → PendingProvider
  unfolding next_interval
  failed_again config attempt e pending =
      let new_interval = next_interval config pending.retry_interval in
      record pending {
        last_error = some e;
        last_attempt = attempt.failed_at;
        attempt_count = suc pending.attempt_count;
        retry_interval = new_interval;
        next_retry_at = attempt.retry_from + new_interval;
      }

  pub first_failure :
      ManagerConfig → Attempt W → Option Error → ProviderInstanceConfig → PendingProvider
  first_failure config attempt e cfg = record {
    config = cfg;
    last_error = e;
    last_attempt = attempt.failed_at;
    attempt_count = 1;
    next_retry_at = attempt.retry_from + config.initial_retry_interval;
    retry_interval = config.initial_retry_interval;
  }

  -- The callback gets the instance that `Get` finds.
  pub notify :
      Bool
      → String
      → Option (ProviderInstance W)
      → List (String × ProviderInstance W)
      → List (String × ProviderInstance W)
  notify true name (some instance_found) calls = (name, instance_found) ∷ calls
  notify _ name _ calls = calls

  -- After a failed `Ping` the instance is taken off the registry again.
  pub pinged : String → Option Error → Registry W → Option Error × Registry W
  pinged name none registry = (none, registry)
  pinged name (some e) registry =
      (some (wrapped "connectivity check failed: " e), (remove name registry).1)

  -- The first attempt failed: `InitializeProvider` puts the provider on the pending list.
  pub queue : Attempt W → ProviderInstanceConfig → Option Error → Registry W → Manager W → Manager W
  unfolding first_failure
  queue attempt cfg e registry m = record m {
    registry = registry;
    pending = insert cfg.name (first_failure m.config attempt e cfg) m.pending;
  }

  -- `InitializeProvider` after a successful `Ping`, and after a failed one
  pub initialized :
      Attempt W → ProviderInstanceConfig → Option Error × Registry W → Manager W → Manager W
  unfolding queue
  initialized attempt cfg (none, registry) m = record m { registry = registry }
  initialized attempt cfg (some e, registry) m = queue attempt cfg (some e) registry m

  -- with the instance that `Get` finds; without one the error that is queued is nil
  pub check_new :
      Attempt W
      → ProviderInstanceConfig
      → Option (ProviderInstance W)
      → Registry W
      → Manager W
      → Manager W
  unfolding queue initialized pinged
  check_new attempt cfg none registry m = queue attempt cfg none registry m
  check_new attempt cfg (some instance_found) registry m =
      initialized attempt cfg (pinged cfg.name (attempt.ping instance_found) registry) m

  -- with the answer of `CreateInstance`
  pub check_created :
      Attempt W → ProviderInstanceConfig → Option Error × Registry W → Manager W → Manager W
  unfolding queue check_new
  check_created attempt cfg (some e, registry) m = queue attempt cfg (some e) registry m
  check_created attempt cfg (none, registry) m =
      check_new attempt cfg (get cfg.name registry) registry m

  -- The attempt of `retryProvider`: without an instance there is nothing to ping.
  pub ping_found :
      Attempt W → String → Option (ProviderInstance W) → Registry W → Option Error × Registry W
  unfolding pinged
  ping_found attempt name none registry = (none, registry)
  ping_found attempt name (some instance_found) registry =
      pinged name (attempt.ping instance_found) registry

  pub recheck : Attempt W → String → Option Error × Registry W → Option Error × Registry W
  unfolding ping_found
  recheck attempt name (some e, registry) = (some e, registry)
  recheck attempt name (none, registry) = ping_found attempt name (get name registry) registry

  -- the outcome of `retryProvider`
  pub settle : Attempt W → PendingProvider → Option Error × Registry W → Manager W → Manager W
  unfolding failed_again notify
  settle attempt pending (none, registry) m = record m {
    registry = registry;
    pending = delete pending.config.name m.pending;
    notified =
        notify m.config.notifies pending.config.name (get pending.config.name registry) m.notified;
  }
  settle attempt pending (some e, registry) m = record m {
    registry = registry;
    pending = insert pending.config.name (failed_again m.config attempt e pending) m.pending;
  }

  -- `Start`: the second component is the error
  pub start : Manager W → Option Error × Manager W
  start m =
      if m.running
      then (some (failure "provider manager already running"), m)
      else (none, record m { running = true })

  -- `Stop`
  pub stop : Manager W → Manager W
  stop m = if m.running then record m { running = false } else m

  -- `ReadyCount`, `PendingCount`, `TotalCount` and `IsFullyReady`
  abbrev pub ready_count : Manager W → ℕ
  ready_count m = length m.registry.instances

  abbrev pub pending_count : Manager W → ℕ
  pending_count m = length m.pending

  abbrev pub total_count : Manager W → ℕ
  total_count m = ready_count m + pending_count m

  abbrev is_fully_ready : Manager W → Bool
  is_fully_ready m = nat_eq (pending_count m) 0

pub record ProviderStatus : Type 0 where
  pub name : String
  pub type : String
  pub available : Bool
  pub error : String

-- `LastError.Error()`, which has no value when there is no error
abbrev pub error_text : Option Error → Option String
error_text none = none
error_text (some e) = some e.message

module _ {W : Type 0} where
  ready_status : ProviderInstance W → ProviderStatus
  ready_status pi = record {
    name = pi.provider.name;
    type = pi.provider.type;
    available = true;
    error = "";
  }

-- The loop of `AllProviderStatuses` over the pending providers; `none` is the failure of `Error()`.
pub status_of : PendingProvider → Option ProviderStatus
status_of pending = do
  text ← error_text pending.last_error
  some (record {
    name = pending.config.name;
    type = pending.config.type_name;
    available = false;
    error = text;
  })

pub pending_statuses : Map PendingProvider → Option (List ProviderStatus)
unfolding status_of
pending_statuses [] = some []
pending_statuses ((_, pending) ∷ rest) = do
  status ← status_of pending
  statuses ← pending_statuses rest
  some (status ∷ statuses)

-- `AllProviderStatuses`
pub all_provider_statuses : {W : Type 0} → Manager W → Option (List ProviderStatus)
unfolding pending_statuses ready_status
all_provider_statuses m = do
  statuses ← pending_statuses m.pending
  some (map ready_status (all m.registry) ++ statuses)

module _ {W : Type 0} (ip_family : String → Option Family)
    (compile_regexp : String → Option (String → Bool)) where
  -- `InitializeProvider`
  pub initialize_provider :
      Attempt W → ProviderInstanceConfig → Manager W → Option Error × Manager W
  unfolding check_created
  initialize_provider attempt cfg m = elim (validate ip_family cfg) [
    | some e ↦ (some (wrapped (append "invalid provider config \"" (append cfg.name "\": ")) e), m)
    | none ↦ (
      none,
      check_created attempt cfg (create_instance ip_family compile_regexp cfg m.registry) m,
    )
  ]

  -- `retryProvider`
  pub retry_provider : Attempt W → PendingProvider → Manager W → Manager W
  unfolding recheck settle
  retry_provider attempt pending m =
      settle attempt pending
        (recheck attempt pending.config.name
          (create_instance ip_family compile_regexp pending.config m.registry))
        m

  pub retry_all : (String → Attempt W) → List PendingProvider → Manager W → Manager W
  unfolding retry_provider
  retry_all attempts [] m = m
  retry_all attempts (pending ∷ rest) m =
      retry_all attempts rest (retry_provider (attempts pending.config.name) pending m)

  -- `retryPendingProviders`
  pub retry_pending_providers : ℕ → (String → Attempt W) → Manager W → Manager W
  unfolding retry_all due
  retry_pending_providers now attempts m = retry_all attempts (due now m.pending) m
