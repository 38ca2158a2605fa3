-- ===== src/Hostname/Validation.antt =====
-- pkg/source/hostname.go: which hostnames are accepted. The regular expressions on labels are
-- functions on their characters; `len` counts the bytes of UTF-8.
pub mod Accepted
pub mod Letters
use Prim.Native.Char.{Char, code}
use Prim.Native.String
use dnsweaver.Base.{
  ℕ, ◌+◌, String, Bool, true, false, not, ◌&&◌, ◌||◌, Option, none, some, List, [], ◌∷◌, ◌==◌,
  if◌then◌else◌, nat_eq, ltb, leb, trim_dot,
}
use dnsweaver.Hostname.{Hostname, RecordHints}

-- The errors of the file; the last two have no name there.
pub data InvalidHostname : Type 0 where
  empty too_long label_too_long label_empty invalid_characters : InvalidHostname
  invalid_label_start invalid_label_end : InvalidHostname
  too_few_srv_labels no_underscore : InvalidHostname

pub record HostnameValidationError : Type 0 where
  pub hostname : String
  pub label : String
  pub reason : InvalidHostname

-- strings.Split(s, ".")
abbrev onto_first : Char → List String → List String
onto_first c [] = String.◌∷◌ c String.[] ∷ []
onto_first c (w ∷ ws) = String.◌∷◌ c w ∷ ws

unfoldable pub split_dots : String → List String
split_dots String.[] = "" ∷ []
split_dots (String.◌∷◌ c s) =
    let ws = split_dots s in if nat_eq (code c) b'.' then "" ∷ ws else onto_first c ws

-- the bytes of a character in UTF-8
abbrev width : Char → ℕ
width c =
    if ltb (code c) 128
    then 1
    else if ltb (code c) 2048
    then 2
    else if ltb (code c) 65536
    then 3
    else 4

unfoldable pub byte_length : String → ℕ
byte_length String.[] = 0
byte_length (String.◌∷◌ c s) = width c + byte_length s

-- `isAlphanumeric`
abbrev pub is_alphanumeric : Char → Bool
is_alphanumeric c =
    (leb b'a' (code c) && leb (code c) b'z')
    || (leb b'A' (code c) && leb (code c) b'Z')
    || (leb b'0' (code c) && leb (code c) b'9')

-- `([a-zA-Z0-9-]*[a-zA-Z0-9])?$`
unfoldable pub rest_matches : String → Bool
rest_matches String.[] = true
rest_matches (String.◌∷◌ c String.[]) = is_alphanumeric c
rest_matches (String.◌∷◌ c (String.◌∷◌ d s)) =
    (is_alphanumeric c || nat_eq (code c) b'-') && rest_matches (String.◌∷◌ d s)

-- `labelRegex`
unfoldable pub label_matches : String → Bool
unfolding rest_matches
label_matches String.[] = false
label_matches (String.◌∷◌ c s) = is_alphanumeric c && rest_matches s

-- `srvLabelRegex`
unfoldable pub srv_label_matches : String → Bool
unfolding label_matches
srv_label_matches String.[] = false
srv_label_matches (String.◌∷◌ c s) = nat_eq (code c) b'_' && label_matches s

-- `singleCharLabelRegex`
unfoldable pub single_matches : String → Bool
single_matches (String.◌∷◌ c String.[]) = is_alphanumeric c
single_matches _ = false

-- isAlphanumeric(label[0]) and isAlphanumeric(label[len(label)-1])
abbrev starts_well : String → Bool
starts_well String.[] = false
starts_well (String.◌∷◌ c s) = is_alphanumeric c

abbrev ends_well : String → Bool
ends_well String.[] = false
ends_well (String.◌∷◌ c String.[]) = is_alphanumeric c
ends_well (String.◌∷◌ c (String.◌∷◌ d s)) = ends_well (String.◌∷◌ d s)

-- the tests on the format of a label
unfoldable pub format_error : String → Option InvalidHostname
format_error label =
    if nat_eq (byte_length label) 1
    then (if single_matches label then none else some invalid_characters)
    else if label_matches label
    then none
    else if not (starts_well label)
    then some invalid_label_start
    else if not (ends_well label)
    then some invalid_label_end
    else some invalid_characters

-- the tests on every label, with those on its format
abbrev label_error : String → Option InvalidHostname → Option InvalidHostname
label_error label format =
    if label == ""
    then some label_empty
    else if ltb 63 (byte_length label)
    then some label_too_long
    else format

abbrev at_label : String → String → InvalidHostname → HostnameValidationError
at_label hostname label reason = record { hostname = hostname; label = label; reason = reason }

abbrev first_error :
    Option HostnameValidationError → Option HostnameValidationError → Option HostnameValidationError
first_error (some e) o = some e
first_error none o = o

abbrev located : String → String → Option InvalidHostname → Option HostnameValidationError
located hostname label none = none
located hostname label (some reason) = some (at_label hostname label reason)

-- the loop over the labels after the first of `ValidateHostname`, or after the second of
-- `ValidateSRVHostname`
unfoldable pub labels_error : String → List String → Option HostnameValidationError
unfolding format_error
labels_error hostname [] = none
labels_error hostname (label ∷ labels) =
    first_error (located hostname label (label_error label (format_error label)))
      (labels_error hostname labels)

-- the whole loop of `ValidateHostname`: the first label may be a wildcard
unfoldable pub hostname_error : String → List String → Option HostnameValidationError
unfolding labels_error
hostname_error hostname [] = none
hostname_error hostname (label ∷ labels) =
    first_error
      (located hostname label
        (label_error label (if label == "*" then none else format_error label)))
      (labels_error hostname labels)

-- the tests before the loop
abbrev size_error : String → Option HostnameValidationError → Option HostnameValidationError
size_error hostname loop =
    if hostname == ""
    then some (at_label hostname "" empty)
    else if ltb 253 (byte_length hostname)
    then some (at_label hostname "" too_long)
    else loop

-- `ValidateHostname`; `none` is a valid hostname
unfoldable pub validate_hostname : String → Option HostnameValidationError
unfolding hostname_error
validate_hostname name =
    let hostname = trim_dot name in
    size_error hostname (hostname_error hostname (split_dots hostname))

abbrev srv_label_error : String → Option InvalidHostname
srv_label_error label =
    label_error label (if srv_label_matches label then none else some no_underscore)

-- the loop of `ValidateSRVHostname`, which needs at least three labels
unfoldable pub srv_hostname_error : String → List String → Option HostnameValidationError
unfolding labels_error
srv_hostname_error hostname (service ∷ protocol ∷ label ∷ labels) =
    first_error (located hostname service (srv_label_error service)) (
      first_error (located hostname protocol (srv_label_error protocol))
        (labels_error hostname (label ∷ labels)))
srv_hostname_error hostname _ = some (at_label hostname "" too_few_srv_labels)

-- `ValidateSRVHostname`
unfoldable pub validate_srv_hostname : String → Option HostnameValidationError
unfolding srv_hostname_error
validate_srv_hostname name =
    let hostname = trim_dot name in
    size_error hostname (srv_hostname_error hostname (split_dots hostname))

abbrev is_srv_hint : Option RecordHints → Bool
is_srv_hint none = false
is_srv_hint (some hints) = hints.type == "SRV"

-- `Validate`
unfoldable pub validate : Hostname → Option HostnameValidationError
validate h =
    if is_srv_hint h.record_hints then validate_srv_hostname h.name else validate_hostname h.name

pub record HostnameValidationResult : Type 0 where
  pub hostname : Hostname
  pub error : HostnameValidationError

pub record ValidationResult : Type 0 where
  pub valid : List Hostname
  pub invalid : List HostnameValidationResult

abbrev sorted : Hostname → Option HostnameValidationError → ValidationResult → ValidationResult
sorted h none r = record r { valid = h ∷ r.valid }
sorted h (some e) r = record r { invalid = record { hostname = h; error = e } ∷ r.invalid }

-- `ValidateAll`
unfoldable pub validate_all : List Hostname → ValidationResult
validate_all [] = record { valid = []; invalid = [] }
validate_all (h ∷ hs) = sorted h (validate h) (validate_all hs)
