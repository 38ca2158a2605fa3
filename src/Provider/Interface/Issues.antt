-- ===== src/Provider/Interface/Issues.antt =====
-- Which calls a step may make: the rules by which a bound on the calls is proved along a do block.
use dnsweaver.Base.{Bool, true, false, Option, ◌≡◌, refl, All, if◌then◌else◌}
use dnsweaver.Provider.Record.{Record}
use dnsweaver.Provider.Failure.{Error}
use dnsweaver.Provider.Interface.{
  Provider, Call, System, M, pure, gets, ◌>>=◌, call_list, call_create, call_delete, call_update,
}

-- If every call so far satisfies `Q`, so does every call after the step.
pub record Issues {W A : Type 0} (Q : Call → Type 0) (m : M W A) : Type 0 where
  pub at : (s : System W) → All Q s.calls → All Q (m s).1.calls

-- A call that changes nothing at a provider.
abbrev pub IsRead : Call → Type 0
IsRead (Call.list _) = Unit
IsRead _ = ⊥

module _ {W A : Type 0} (Q : Call → Type 0) where
  pub Issues-pure : (x : A) → Issues Q (pure {W = W} x)
  Issues-pure x = record { at = λ s h. h }

  pub Issues-gets : (f : System W → A) → Issues Q (gets f)
  Issues-gets f = record { at = λ s h. h }

  pub Issues-if :
      (b : Bool) (m n : M W A)
      → (b ≡ true → Issues Q m)
      → (b ≡ false → Issues Q n)
      → Issues Q (if b then m else n)
  Issues-if true m n hm hn = hm refl
  Issues-if false m n hm hn = hn refl

module _ {W A B : Type 0} (Q : Call → Type 0) where
  pub Issues-bind :
      (m : M W A) (f : A → M W B) → Issues Q m → ((x : A) → Issues Q (f x)) → Issues Q (m >>= f)
  unfolding ◌>>=◌
  Issues-bind m f hm hf = record { at = λ s h. let (x, s') = m s in (hf x).at s' (hm.at s h) }

  pub Issues-gets_bind :
      (f : System W → A) (k : A → M W B)
      → ((s : System W) → Issues Q (k (f s)))
      → Issues Q (gets f >>= k)
  unfolding ◌>>=◌
  Issues-gets_bind f k h = record { at = λ s q. (h s).at s q }

module _ {W : Type 0} (Q : Call → Type 0) (p : Provider W) where
  pub Issues-call_list : Q (Call.list p.name) → Issues Q (call_list p)
  unfolding call_list
  Issues-call_list q = record { at = λ s h. (q, h) }

  pub Issues-call_create : (x : Record) → Q (Call.create p.name x) → Issues Q (call_create p x)
  unfolding call_create
  Issues-call_create x q = record { at = λ s h. (q, h) }

  pub Issues-call_delete : (x : Record) → Q (Call.delete p.name x) → Issues Q (call_delete p x)
  unfolding call_delete
  Issues-call_delete x q = record { at = λ s h. (q, h) }

  pub Issues-call_update :
      (f : Record → Record → W → Option Error × W) (x y : Record)
      → Q (Call.update p.name x y)
      → Issues Q (call_update p f x y)
  unfolding call_update
  Issues-call_update f x y q = record { at = λ s h. (q, h) }
