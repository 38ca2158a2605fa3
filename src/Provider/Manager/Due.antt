-- ===== src/Provider/Manager/Due.antt =====
-- The providers that are due for a retry.
use dnsweaver.Base.{
  ℕ, ◌≤◌, String, ◌≡◌, sym, subst, false, none, some, List, [], ◌∷◌, ◌==◌, eq_iff, arith, All,
  Option, if◌then◌else◌,
}
use dnsweaver.Base.Map.{Map, lookup}
use dnsweaver.Base.Map.Keys.{KeysDiffer}
use package.dnsweaver.Provider.Manager.{ManagerConfig, PendingProvider, due}
use package.dnsweaver.Provider.Manager.Invariant.{IsEntry}

abbrev pub IsOther : String → PendingProvider → Type 0
IsOther name p = (p.config.name == name) ≡ false

abbrev pub NamesDiffer : List PendingProvider → Type 0
NamesDiffer [] = Unit
NamesDiffer (p ∷ ps) = All (IsOther p.config.name) ps × NamesDiffer ps

pub due-IsOther :
    (config : ManagerConfig) (now : ℕ) (name : String) (m : Map PendingProvider)
    → All (IsEntry config) m
    → lookup name m ≡ none
    → All (IsOther name) (due now m)
unfolding due lookup
due-IsOther config now name [] es new = tt
due-IsOther config now name ((j, p) ∷ m) ((named, _), es) new =
    let rest = due-IsOther config now name m es in ground (arith, rest, named, new)

pub due-NamesDiffer :
    (config : ManagerConfig) (now : ℕ) (m : Map PendingProvider)
    → KeysDiffer m
    → All (IsEntry config) m
    → NamesDiffer (due now m)
unfolding due
due-NamesDiffer config now [] d es = tt
due-NamesDiffer config now ((j, p) ∷ m) (new, d) ((named, _), es) =
    let others =
      subst (λ name. All (IsOther name) (due now m)) (sym named)
        (due-IsOther config now j m es new) in
    let rest = due-NamesDiffer config now m d es in ground (arith, rest, others)

-- What the map holds under the name is what is retried.
abbrev pub IsHeld : Map PendingProvider → PendingProvider → Type 0
IsHeld m p = lookup p.config.name m ≡ some p

IsHeld-below :
    (name : String) (value : PendingProvider) (m : Map PendingProvider) (ps : List PendingProvider)
    → All (IsOther name) ps
    → All (IsHeld m) ps
    → All (IsHeld ((name, value) ∷ m)) ps
unfolding lookup
IsHeld-below name value m [] others held = tt
IsHeld-below name value m (p ∷ ps) (other, others) (h, held) = (
  ground (arith, other, h, eq_iff p.config.name name, eq_iff name p.config.name),
  IsHeld-below name value m ps others held,
)

pub due-IsHeld :
    (config : ManagerConfig) (now : ℕ) (m : Map PendingProvider)
    → KeysDiffer m
    → All (IsEntry config) m
    → All (IsHeld m) (due now m)
unfolding due lookup
due-IsHeld config now [] d es = tt
due-IsHeld config now ((j, p) ∷ m) (new, d) ((named, _), es) =
    let rest =
      IsHeld-below j p m (due now m) (due-IsOther config now j m es new)
        (due-IsHeld config now m d es) in
    let here : IsHeld ((j, p) ∷ m) p = ground (arith, named, eq_iff j p.config.name) in
    ground (arith, rest, here)

-- The provider of that name in a list.
abbrev pub sought : String → List PendingProvider → Option PendingProvider
sought name [] = none
sought name (p ∷ ps) = if p.config.name == name then some p else sought name ps

pub due-sought :
    (config : ManagerConfig) (now : ℕ) (name : String) (p : PendingProvider)
    (m : Map PendingProvider)
    → All (IsEntry config) m
    → lookup name m ≡ some p
    → p.next_retry_at ≤ now
    → sought name (due now m) ≡ some p
unfolding due lookup
due-sought config now name p [] es there late = ground arith
due-sought config now name p ((j, q) ∷ m) ((named, _), es) there late =
    ground (arith, due-sought config now name p m es, named, there, late)
