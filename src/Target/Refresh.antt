-- ===== src/Target/Refresh.antt =====
-- internal/target/refresh.go: the refresher, whose steps run one after the other. An attempt that
-- failed is `none`. The logger, the interval and the ticker are left out.
use dnsweaver.Base.{
  String, ◌≡◌, refl, Bool, true, false, Option, none, some, List, [], ◌∷◌, if◌then◌else◌, ◌==◌,
  Bool-cases, inl, inr, subst, sym,
}

-- `Refresher`, with the values that `onChange` was called with, the last one first
pub record Refresher : Type 0 where
  pub last_good : String
  pub running : Bool
  pub notified : List String

-- `NewRefresher`
abbrev pub new_refresher : Refresher
new_refresher = record { last_good = ""; running = false; notified = [] }

-- `resolveOnce`
unfoldable pub resolve_once : Option String → Refresher → Refresher
resolve_once none r = r
resolve_once (some value) r =
    if value == r.last_good
    then r
    else record r { last_good = value; notified = value ∷ r.notified }

-- `Start`, with the answer of the first attempt
unfoldable pub start : Option String → Refresher → String × Refresher
unfolding resolve_once
start answer r =
    if r.running
    then (r.last_good, r)
    else let r' = resolve_once answer (record r { running = true }) in (r'.last_good, r')

-- `Stop`
abbrev pub stop : Refresher → Refresher
stop r = record r { running = false }

-- what happens to a refresher: the ticks come while it runs
pub data Step : Refresher → Refresher → Type 0 where
  started : (answer : Option String) (r : Refresher) → Step r (start answer r).1
  ticked :
      (answer : Option String) (r : Refresher) → r.running ≡ true → Step r (resolve_once answer r)
  stopped : (r : Refresher) → Step r (stop r)

pub data Reach : Refresher → Type 0 where
  begin : Reach new_refresher
  step : {r r' : Refresher} → Reach r → Step r r' → Reach r'

-- These values came one after the other, and the last one is current: each is another than the one
-- before it.
abbrev pub AreChanges : String → List String → Type 0
AreChanges current [] = current ≡ ""
AreChanges current (v ∷ []) = (v ≡ current) × ((v == "") ≡ false)
AreChanges current (v ∷ u ∷ vs) = (v ≡ current) × ((v == u) ≡ false) × AreChanges u (u ∷ vs)

AreChanges-cons :
    (value current : String) (vs : List String)
    → (value == current) ≡ false
    → AreChanges current vs
    → AreChanges value (value ∷ vs)
AreChanges-cons value current [] other empty = (refl, subst (λ c. (value == c) ≡ false) empty other)
AreChanges-cons value current (u ∷ []) other (same, full) =
    (refl, subst (λ c. (value == c) ≡ false) (sym same) other, (refl, full))
AreChanges-cons value current (u ∷ t ∷ vs) other (same, differs, rest) =
    (refl, subst (λ c. (value == c) ≡ false) (sym same) other, (refl, differs, rest))

resolve_once-AreChanges :
    (answer : Option String) (r : Refresher)
    → AreChanges r.last_good r.notified
    → AreChanges (resolve_once answer r).last_good (resolve_once answer r).notified
unfolding resolve_once
resolve_once-AreChanges none r h = h
resolve_once-AreChanges (some value) r h = elim (Bool-cases (value == r.last_good)) [
  | inl same ↦ rw same h
  | inr other ↦ rw other (AreChanges-cons value r.last_good r.notified other h)
]

start-AreChanges :
    (answer : Option String) (r : Refresher)
    → AreChanges r.last_good r.notified
    → AreChanges (start answer r).1.last_good (start answer r).1.notified
unfolding start
start-AreChanges answer r h = elim (Bool-cases r.running) [
  | inl runs ↦ rw runs h
  | inr idle ↦ rw idle (resolve_once-AreChanges answer (record r { running = true }) h)
]

-- Whatever the attempts answer and whenever the refresher is started and stopped, the value that it
-- was last told about is its last good value, and it is told of a value only when that differs from
-- the one before.
pub reach-AreChanges : {r : Refresher} → Reach r → AreChanges r.last_good r.notified
reach-AreChanges begin = refl
reach-AreChanges (step before (started answer r)) =
    start-AreChanges answer r (reach-AreChanges before)
reach-AreChanges (step before (ticked answer r runs)) =
    resolve_once-AreChanges answer r (reach-AreChanges before)
reach-AreChanges (step before (stopped r)) = reach-AreChanges before
