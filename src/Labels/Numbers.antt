-- ===== src/Labels/Numbers.antt =====
-- The numbers of sources/dnsweaver/parser.go, as strconv reads them.
use Prim.Native.Char.{Char, code}
use dnsweaver.Base.{
  ℕ, ◌+◌, ◌-◌, ◌*◌, String, Bool, ◌&&◌, Option, none, some, if◌then◌else◌, leb, nat_eq,
}

abbrev pub is_digit : Char → Bool
is_digit c = leb 48 (code c) && leb (code c) 57

unfoldable pub digits_from : ℕ → String → Option ℕ
digits_from value String.[] = some value
digits_from value (String.◌∷◌ c s) =
    let rest = digits_from (value * 10 + (code c - 48)) s in if is_digit c then rest else none

-- a number in decimal digits, of which there is one at least
unfoldable pub digits : String → Option ℕ
unfolding digits_from
digits String.[] = none
digits (String.◌∷◌ c s) = digits_from 0 (String.◌∷◌ c s)

abbrev pub in_range : ℕ → ℕ → Option ℕ → Option ℕ
in_range least greatest none = none
in_range least greatest (some n) = if leb least n && leb n greatest then some n else none

-- `strconv.ParseUint(s, 10, 16)`, with `none` for an error
unfoldable pub parse_uint16 : String → Option ℕ
unfolding digits
parse_uint16 s = in_range 0 65535 (digits s)

-- `strconv.Atoi` with its result where it is above 0, which is where it is used
unfoldable pub positive_atoi : String → Option ℕ
unfolding digits
positive_atoi String.[] = none
positive_atoi (String.◌∷◌ c s) =
    in_range 1 9223372036854775807
      (if nat_eq (code c) b'+' then digits s else digits (String.◌∷◌ c s))
