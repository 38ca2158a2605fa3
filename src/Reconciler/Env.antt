-- ===== src/Reconciler/Env.antt =====
-- What a reconciliation reads and does not change: `Config` and the fields of `Reconciler` in
-- internal/reconciler/reconciler.go. The flags that an operator can switch at run time, `enabled` and
-- `dryRun`, and the resolved targets are read as they stand when the operation begins.
use dnsweaver.Base.{String, Bool, List, [], ◌∷◌, ◌==◌, if◌then◌else◌}
use dnsweaver.Provider.Registry.{Registry}

pub record Config : Type 0 where
  pub dry_run : Bool
  pub cleanup_orphans : Bool
  pub ownership_tracking : Bool
  pub adopt_existing : Bool
  pub enabled : Bool
  pub instance_id : String

pub record Env (W : Type 0) : Type 0 where
  pub config : Config
  pub providers : Registry W
  pub enabled : Bool
  pub dry_run : Bool

-- `appendUnique`
unfoldable pub append_unique : List String → String → List String
append_unique [] value = value ∷ []
append_unique (v ∷ vs) value = if v == value then v ∷ vs else v ∷ append_unique vs value
