-- ===== src/Provider/Ownership/Parts.antt =====
-- The functions of Go's `strings` that the ownership values are read with, and their laws.
use Prim.Native.Char.{Char, code}
use Prim.Native.String.{◌++◌ as append}
use text.Mathlib.TextLemmas.{nil-append, cons-append}
use dnsweaver.Base.{
  ℕ, String, ◌≡◌, ◌≢◌, refl, true, Option, none, some, List, [], ◌∷◌, arith, if◌then◌else◌, nat_eq,
}

abbrev onto_first : Char → List String → List String
onto_first c [] = String.◌∷◌ c String.[] ∷ []
onto_first c (w ∷ ws) = String.◌∷◌ c w ∷ ws

-- strings.Split(s, ",")
unfoldable pub split : String → List String
split String.[] = "" ∷ []
split (String.◌∷◌ c s) =
    let ws = split s in if nat_eq (code c) b',' then "" ∷ ws else onto_first c ws

abbrev keep_char : Char → Option (String × String) → Option (String × String)
keep_char c none = none
keep_char c (some (k, v)) = some (String.◌∷◌ c k, v)

-- strings.SplitN(s, "=", 2): `none` where the result has one part
unfoldable pub split_pair : String → Option (String × String)
split_pair String.[] = none
split_pair (String.◌∷◌ c s) =
    let found = split_pair s in if nat_eq (code c) b'=' then some ("", s) else keep_char c found

-- strings.HasPrefix(s, p) and s[len(p):]
unfoldable pub strip_prefix : String → String → Option String
strip_prefix String.[] s = some s
strip_prefix (String.◌∷◌ c p) String.[] = none
strip_prefix (String.◌∷◌ c p) (String.◌∷◌ d s) =
    let rest = strip_prefix p s in if nat_eq (code c) (code d) then rest else none

-- The text holds no character of this number.
abbrev pub Lacks : ℕ → String → Type 0
Lacks n String.[] = Unit
Lacks n (String.◌∷◌ c s) = (code c ≢ n) × Lacks n s

nat_eq_refl : (n : ℕ) → nat_eq n n ≡ true
nat_eq_refl n = ground arith

pub strip_prefix-append : (p s : String) → strip_prefix p (append p s) ≡ some s
unfolding strip_prefix
strip_prefix-append String.[] s = rw nil-append
strip_prefix-append (String.◌∷◌ c p) s =
    rw (cons-append, nat_eq_refl (code c)) (strip_prefix-append p s)

pub split-append : (p s : String) → Lacks b',' p → split (append p (String.◌∷◌ "," s)) ≡ p ∷ split s
unfolding split
split-append String.[] s h = rw nil-append
split-append (String.◌∷◌ c p) s (ne, h) = rw (cons-append, split-append p s h) (ground arith)

pub split_of_Lacks : (p : String) → Lacks b',' p → split p ≡ p ∷ []
unfolding split
split_of_Lacks String.[] h = refl
split_of_Lacks (String.◌∷◌ c p) (ne, h) = rw (split_of_Lacks p h) (ground arith)

pub split_pair-append :
    (k v : String) → Lacks b'=' k → split_pair (append k (String.◌∷◌ "=" v)) ≡ some (k, v)
unfolding split_pair
split_pair-append String.[] v h = rw nil-append
split_pair-append (String.◌∷◌ c k) v (ne, h) =
    rw (cons-append, split_pair-append k v h) (ground arith)

pub Lacks-append : (n : ℕ) (s t : String) → Lacks n s → Lacks n t → Lacks n (append s t)
Lacks-append n String.[] t hs ht = rw nil-append ht
Lacks-append n (String.◌∷◌ c s) t (ne, hs) ht = rw cons-append (ne, Lacks-append n s t hs ht)

split_example : split "a,,b" ≡ "a" ∷ "" ∷ "b" ∷ []
unfolding split
split_example = refl

split_pair_example : split_pair "k=v=w" ≡ some ("k", "v=w")
unfolding split_pair
split_pair_example = refl

strip_prefix_example : strip_prefix "_dnsweaver." "_dnsweaver.app" ≡ some "app"
unfolding strip_prefix
strip_prefix_example = refl
