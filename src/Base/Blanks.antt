-- ===== src/Base/Blanks.antt =====
-- Blanks, of which these are the ones among the ASCII characters.
use Prim.Native.Char.{Char, code}
use Prim.Native.String.{String, [], ◌∷◌}
use mathlib.Core.Bool.{Bool, ◌&&◌, ◌||◌}
use text.Mathlib.Text.{◌==◌}
use package.dnsweaver.Base.Tests.{nat_eq, leb, if◌then◌else◌}

-- unicode.IsSpace
abbrev pub is_blank : Char → Bool
is_blank c = nat_eq (code c) 32 || (leb 9 (code c) && leb (code c) 13)

unfoldable trim_left : String → String
trim_left [] = []
trim_left (c ∷ s) = let rest = trim_left s in if is_blank c then rest else c ∷ s

unfoldable trim_right : String → String
trim_right [] = []
trim_right (c ∷ s) = let rest = trim_right s in if is_blank c && (rest == "") then "" else c ∷ rest

-- strings.TrimSpace
unfoldable pub trim_space : String → String
unfolding trim_left trim_right
trim_space s = trim_right (trim_left s)
