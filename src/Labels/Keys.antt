-- ===== src/Labels/Keys.antt =====
-- The keys of the labels of named records, `namedRecordRegex` of sources/dnsweaver/parser.go: behind
-- the prefix a name of letters, digits, hyphens and underscores, a dot, and a field in which there may
-- be dots too.
use Prim.Native.Char.{Char, code}
use dnsweaver.Base.{
  String, Bool, true, ◌&&◌, ◌||◌, not, Option, none, some, if◌then◌else◌, leb, nat_eq, ◌==◌,
}
use dnsweaver.Base.Chain.{◌>>=◌}
use dnsweaver.Provider.Ownership.Parts.{strip_prefix}

abbrev is_name_char : Char → Bool
is_name_char c =
    leb 97 (code c) && leb (code c) 122
    || leb 65 (code c) && leb (code c) 90
    || leb 48 (code c) && leb (code c) 57
    || nat_eq (code c) b'_'
    || nat_eq (code c) b'-'

unfoldable pub is_field : String → Bool
is_field String.[] = true
is_field (String.◌∷◌ c s) = (is_name_char c || nat_eq (code c) b'.') && is_field s

abbrev keep_char : Char → Option (String × String) → Option (String × String)
keep_char c none = none
keep_char c (some (name, field)) = some (String.◌∷◌ c name, field)

-- what stands before the first dot and behind it
unfoldable split_name : String → Option (String × String)
split_name String.[] = none
split_name (String.◌∷◌ c s) =
    let found = split_name s in
    if nat_eq (code c) b'.'
    then some ("", s)
    else if is_name_char c
    then keep_char c found
    else none

abbrev pub checked : String × String → Option (String × String)
checked (name, field) =
    if not (name == "") && not (field == "") && is_field field then some (name, field) else none

-- the match of the expression
unfoldable pub named_record_key : String → Option (String × String)
unfolding strip_prefix split_name
named_record_key key = strip_prefix "dnsweaver.records." key >>= split_name >>= checked
