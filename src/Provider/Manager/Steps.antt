-- ===== src/Provider/Manager/Steps.antt =====
-- The runs of a provider manager, as a step relation.
use dnsweaver.Base.{ℕ, String, Bool, Option}
use dnsweaver.Provider.Config.{Family, ProviderInstanceConfig}
use dnsweaver.Provider.Registry.{Registry}
use dnsweaver.Provider.Registry.Bookkeeping.{IsConsistent}
use package.dnsweaver.Provider.Manager.{
  ManagerConfig, Manager, Attempt, new_manager, due, start, stop, initialize_provider,
  retry_pending_providers,
}
use package.dnsweaver.Provider.Manager.Invariant.{
  IsWellFormed, retry_all-IsWellFormed, initialize_provider-IsWellFormed, start-IsWellFormed,
  stop-IsWellFormed,
}

module _ {W : Type 0} where
  module _ (ip_family : String → Option Family)
      (compile_regexp : String → Option (String → Bool)) where
    -- The steps of a manager: a configuration is added, the ticker fires, the loop starts or stops.
    pub data Step (m : Manager W) : Manager W → Type 0 where
      configured :
          (attempt : Attempt W) (cfg : ProviderInstanceConfig)
          → Step m (initialize_provider ip_family compile_regexp attempt cfg m).1
      ticked :
          (now : ℕ) (attempts : String → Attempt W)
          → Step m (retry_pending_providers ip_family compile_regexp now attempts m)
      started : Step m (start m).1
      stopped : Step m (stop m)

    pub data Reach (m : Manager W) : Manager W → Type 0 where
      here : Reach m m
      next : {m' m'' : Manager W} → Reach m m' → Step m' m'' → Reach m m''

    Step-IsWellFormed : {m m' : Manager W} → Step m m' → IsWellFormed m → IsWellFormed m'
    unfolding retry_pending_providers
    Step-IsWellFormed {m} (configured attempt cfg) w =
        initialize_provider-IsWellFormed ip_family compile_regexp attempt cfg m w
    Step-IsWellFormed {m} (ticked now attempts) w =
        retry_all-IsWellFormed ip_family compile_regexp attempts (due now m.pending) m w
    Step-IsWellFormed {m} started w = start-IsWellFormed m w
    Step-IsWellFormed {m} stopped w = stop-IsWellFormed m w

    from-IsWellFormed : {m m' : Manager W} → IsWellFormed m → Reach m m' → IsWellFormed m'
    from-IsWellFormed w here = w
    from-IsWellFormed w (next reach step) = Step-IsWellFormed step (from-IsWellFormed w reach)

    new_manager-IsWellFormed :
        (r : Registry W) (config : ManagerConfig)
        → IsConsistent r
        → IsWellFormed (new_manager r config)
    new_manager-IsWellFormed r config c = record { consistent = c; keys_differ = tt; entries = tt }

    -- Whatever configurations are added, whatever the pings answer and whenever the ticker fires, a
    -- manager that starts on a consistent registry keeps it consistent; the pending map has no name
    -- twice and holds each provider under its own name, and a pending provider has an error, at
    -- least one attempt, and an interval within the two intervals that are configured.
    pub reach-IsWellFormed :
        {m : Manager W} (r : Registry W) (config : ManagerConfig)
        → IsConsistent r
        → Reach (new_manager r config) m
        → IsWellFormed m
    reach-IsWellFormed r config c reach =
        from-IsWellFormed (new_manager-IsWellFormed r config c) reach
