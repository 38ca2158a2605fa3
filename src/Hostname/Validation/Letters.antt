-- ===== src/Hostname/Validation/Letters.antt =====
-- pkg/source/hostname.go: the characters of a label, described without the regular expressions.
use Prim.Native.Char.{Char, code}
use dnsweaver.Base.{◌≤◌, String, ◌≡◌, ◌≢◌, ◌↔◌, ◌⊎◌, true, arith}
use dnsweaver.Hostname.Validation.{is_alphanumeric, rest_matches, label_matches, srv_label_matches}

-- an ASCII letter or a digit
abbrev pub IsAlphanumeric : Char → Type 0
IsAlphanumeric c =
    ((b'a' ≤ code c) × (code c ≤ b'z'))
    ⊎ ((b'A' ≤ code c) × (code c ≤ b'Z'))
    ⊎ ((b'0' ≤ code c) × (code c ≤ b'9'))

-- only letters, digits and hyphens
abbrev pub AreAllowed : String → Type 0
AreAllowed String.[] = Unit
AreAllowed (String.◌∷◌ c s) = (IsAlphanumeric c ⊎ (code c ≡ b'-')) × AreAllowed s

-- no hyphen in front
abbrev pub StartsWell : String → Type 0
StartsWell String.[] = Unit
StartsWell (String.◌∷◌ c s) = code c ≢ b'-'

-- no hyphen at the end
abbrev pub EndsWell : String → Type 0
EndsWell String.[] = Unit
EndsWell (String.◌∷◌ c String.[]) = code c ≢ b'-'
EndsWell (String.◌∷◌ c (String.◌∷◌ d s)) = EndsWell (String.◌∷◌ d s)

-- a text of letters, digits and hyphens, without a hyphen at either end
abbrev pub IsWord : String → Type 0
IsWord String.[] = ⊥
IsWord (String.◌∷◌ c s) =
    AreAllowed (String.◌∷◌ c s) × StartsWell (String.◌∷◌ c s) × EndsWell (String.◌∷◌ c s)

-- an underscore and such a text
abbrev pub IsServiceWord : String → Type 0
IsServiceWord String.[] = ⊥
IsServiceWord (String.◌∷◌ c s) = (code c ≡ b'_') × IsWord s

char_iff : (c : Char) → (is_alphanumeric c ≡ true) ↔ IsAlphanumeric c
char_iff c = ground arith

char_differs : (c : Char) → IsAlphanumeric c → code c ≢ b'-'
char_differs c h = ground (arith, h)

rest_iff : (s : String) → (rest_matches s ≡ true) ↔ (AreAllowed s × EndsWell s)
unfolding rest_matches
rest_iff String.[] = ground arith
rest_iff (String.◌∷◌ c String.[]) = ground (arith, char_iff c, char_differs c)
rest_iff (String.◌∷◌ c (String.◌∷◌ d s)) = ground (arith, char_iff c, rest_iff (String.◌∷◌ d s))

pub label_iff : (l : String) → (label_matches l ≡ true) ↔ IsWord l
unfolding label_matches
label_iff String.[] = ground arith
label_iff (String.◌∷◌ c String.[]) = ground (arith, char_iff c, char_differs c, rest_iff "")
label_iff (String.◌∷◌ c (String.◌∷◌ d s)) =
    ground (arith, char_iff c, char_differs c, rest_iff (String.◌∷◌ d s))

pub service_label_iff : (l : String) → (srv_label_matches l ≡ true) ↔ IsServiceWord l
unfolding srv_label_matches
service_label_iff String.[] = ground arith
service_label_iff (String.◌∷◌ c s) = ground (arith, label_iff s)
