-- ===== src/Base/Words.antt =====
-- Go's `strings` functions on hostnames. Letters beyond ASCII keep their case here.
use Prim.Native.Nat.{ℕ, ◌+◌, ◌-◌, ◌<◌}
use Prim.Native.Char.{Char, char, code, IsScalar}
use Prim.Native.String.{String, [], ◌∷◌}
use mathlib.Core.Path.{◌≡◌, refl, ap, ◌∙◌}
use mathlib.Core.Logic.{dite, ite}
use mathlib.Core.Bool.{Bool, true, false}
use native.Mathlib.Omega.{arith}
use native.Mathlib.Decide.{dec_lt}
use text.Mathlib.TextEquality.{Char-path}
use package.dnsweaver.Base.Tests.{nat_eq, if◌then◌else◌}

IsScalar-small : (n : ℕ) → n < 128 → IsScalar n
IsScalar-small n h = ground arith

unfoldable pub lower_char : Char → Char
unfolding dec_lt IsScalar-small
lower_char c =
    dite (dec_lt (code c) 65) (λ _. c)
      (λ _.
        dite (dec_lt (code c) 91)
          (λ h. char (code c + 32) (IsScalar-small (code c + 32) (omega arith))) (λ _. c))

-- strings.ToLower
unfoldable pub to_lower : String → String
to_lower [] = []
to_lower (c ∷ s) = lower_char c ∷ to_lower s

unfoldable pub upper_char : Char → Char
unfolding dec_lt IsScalar-small
upper_char c =
    dite (dec_lt (code c) 97) (λ _. c)
      (λ _.
        dite (dec_lt (code c) 123)
          (λ h. char (code c - 32) (IsScalar-small (code c - 32) (omega arith))) (λ _. c))

-- strings.ToUpper
unfoldable pub to_upper : String → String
to_upper [] = []
to_upper (c ∷ s) = upper_char c ∷ to_upper s

-- strings.TrimSuffix(s, ".")
unfoldable pub trim_dot : String → String
trim_dot [] = []
trim_dot (c ∷ []) = if nat_eq (code c) b'.' then [] else c ∷ []
trim_dot (c ∷ d ∷ s) = c ∷ trim_dot (d ∷ s)

-- The number of a lowered character.
code-lower_char :
    (c : Char)
    → code (lower_char c)
      ≡ ite (dec_lt (code c) 65) (code c) (ite (dec_lt (code c) 91) (code c + 32) (code c))
unfolding lower_char
code-lower_char c = ground arith

pub lower_char_idem : (c : Char) → lower_char (lower_char c) ≡ lower_char c
lower_char_idem c =
    Char-path _ _ (ground (arith, code-lower_char c, code-lower_char (lower_char c)))

pub to_lower_idem : (s : String) → to_lower (to_lower s) ≡ to_lower s
unfolding to_lower
to_lower_idem [] = refl
to_lower_idem (c ∷ s) = cc (lower_char_idem c, to_lower_idem s)

-- Lowering keeps every dot in its place.
lower_char_dot : (c : Char) → nat_eq (code (lower_char c)) b'.' ≡ nat_eq (code c) b'.'
lower_char_dot c = ground (arith, code-lower_char c)

to_lower-if :
    (b : Bool) (c : Char)
    → (if b then [] else lower_char c ∷ []) ≡ to_lower (if b then [] else c ∷ [])
unfolding to_lower
to_lower-if true c = refl
to_lower-if false c = refl

pub trim_dot-to_lower : (s : String) → trim_dot (to_lower s) ≡ to_lower (trim_dot s)
unfolding trim_dot to_lower
trim_dot-to_lower [] = refl
trim_dot-to_lower (c ∷ []) =
    ap (λ b. if b then [] else lower_char c ∷ []) (lower_char_dot c)
    ∙ to_lower-if (nat_eq (code c) b'.') c
trim_dot-to_lower (c ∷ d ∷ s) = ap (λ t. lower_char c ∷ t) (trim_dot-to_lower (d ∷ s))

lowered : trim_dot (to_lower "App.Example.COM.") ≡ "app.example.com"
unfolding trim_dot to_lower lower_char
lowered = refl
