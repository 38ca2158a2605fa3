-- ===== src/Hostname/Validation/Accepted.antt =====
-- The hostnames that are accepted, described without the order of the tests.
use Prim.Native.Char.{Char}
use dnsweaver.Base.{
  ◌+◌, ◌≤◌, String, ◌≡◌, ◌↔◌, refl, Bool, true, false, ◌==◌, eq_iff, none, List, [], ◌∷◌, arith,
  nat_eq, All, length, trim_dot, ◌⊎◌, Bool-cases, inl, inr, ap,
}
use dnsweaver.Hostname.{Hostname}
use dnsweaver.Hostname.Validation.Letters.{IsWord, IsServiceWord, label_iff, service_label_iff}
use dnsweaver.Hostname.Validation.{
  split_dots, byte_length, label_matches, single_matches, rest_matches, format_error, labels_error,
  hostname_error, validate_hostname, validate_srv_hostname, srv_hostname_error, srv_label_matches,
  validate, validate_all,
}

-- at most 63 bytes, letters, digits and hyphens, with no hyphen at either end
abbrev pub IsLabel : String → Type 0
IsLabel l = (byte_length l ≤ 63) × IsWord l

-- the labels of a hostname: the first may be a wildcard
abbrev pub AreLabels : List String → Type 0
AreLabels [] = Unit
AreLabels (l ∷ ls) = ((l ≡ "*") ⊎ IsLabel l) × All IsLabel ls

long : (c d : Char) (s : String) → nat_eq (byte_length (String.◌∷◌ c (String.◌∷◌ d s))) 1 ≡ false
unfolding byte_length
long c d s = ground arith

format_iff : (l : String) → (format_error l ≡ none) ↔ (label_matches l ≡ true)
unfolding format_error label_matches single_matches rest_matches byte_length
format_iff String.[] = ground arith
format_iff (String.◌∷◌ c String.[]) = ground arith
format_iff (String.◌∷◌ c (String.◌∷◌ d s)) = ground (arith, long c d s)

abbrev is_nil : String → Bool
is_nil String.[] = true
is_nil (String.◌∷◌ c s) = false

not_nil : (l : String) → is_nil l ≡ false → (l == "") ≡ false
not_nil l e = elim (Bool-cases (l == "")) [
  | inl equal ↦ absurd (ground (arith, ap is_nil ((eq_iff l "").0 equal)))
  | inr differ ↦ differ
]

not_empty : (l : String) → label_matches l ≡ true → (l == "") ≡ false
unfolding label_matches
not_empty String.[] e = ground arith
not_empty (String.◌∷◌ c s) e = not_nil (String.◌∷◌ c s) refl

labels_iff : (h : String) (ls : List String) → (labels_error h ls ≡ none) ↔ All IsLabel ls
unfolding labels_error
labels_iff h [] = ground arith
labels_iff h (l ∷ ls) = ground (arith, format_iff l, label_iff l, not_empty l, labels_iff h ls)

wildcard_short : byte_length "*" ≤ 63
unfolding byte_length
wildcard_short = ground arith

wildcard_fits : (l : String) → l ≡ "*" → (byte_length l ≤ 63) × ((l == "") ≡ false)
wildcard_fits l e = rw e (wildcard_short, refl)

hostname_iff : (h : String) (ls : List String) → (hostname_error h ls ≡ none) ↔ AreLabels ls
unfolding hostname_error
hostname_iff h [] = ground arith
hostname_iff h (l ∷ ls) =
    ground (
      arith,
      format_iff l,
      label_iff l,
      not_empty l,
      labels_iff h ls,
      eq_iff l "*",
      wildcard_fits l,
    )

validate_hostname_iff :
    (h : String)
    → (validate_hostname h ≡ none) ↔ (
        ((trim_dot h == "") ≡ false)
        × (byte_length (trim_dot h) ≤ 253)
        × AreLabels (split_dots (trim_dot h)))
unfolding validate_hostname
validate_hostname_iff h =
    let labels = hostname_iff (trim_dot h) (split_dots (trim_dot h)) in ground (arith, labels)

-- a label with an underscore in front
abbrev pub IsServiceLabel : String → Type 0
IsServiceLabel l = (byte_length l ≤ 63) × IsServiceWord l

-- the labels of a service: `_service._protocol.name`, with any labels after the name
abbrev pub AreServiceLabels : List String → Type 0
AreServiceLabels (s ∷ p ∷ l ∷ ls) = IsServiceLabel s × IsServiceLabel p × All IsLabel (l ∷ ls)
AreServiceLabels _ = ⊥

service_not_empty : (l : String) → srv_label_matches l ≡ true → (l == "") ≡ false
unfolding srv_label_matches
service_not_empty String.[] e = ground arith
service_not_empty (String.◌∷◌ c s) e = not_nil (String.◌∷◌ c s) refl

service_iff :
    (h : String) (ls : List String) → (srv_hostname_error h ls ≡ none) ↔ AreServiceLabels ls
unfolding srv_hostname_error
service_iff h [] = ground arith
service_iff h (s ∷ []) = ground arith
service_iff h (s ∷ p ∷ []) = ground arith
service_iff h (s ∷ p ∷ l ∷ ls) =
    let labels = labels_iff h (l ∷ ls) in
    ground (
      arith,
      labels,
      service_label_iff s,
      service_label_iff p,
      service_not_empty s,
      service_not_empty p,
    )

validate_srv_hostname_iff :
    (h : String)
    → (validate_srv_hostname h ≡ none) ↔ (
        ((trim_dot h == "") ≡ false)
        × (byte_length (trim_dot h) ≤ 253)
        × AreServiceLabels (split_dots (trim_dot h)))
unfolding validate_srv_hostname
validate_srv_hostname_iff h =
    let labels = service_iff (trim_dot h) (split_dots (trim_dot h)) in ground (arith, labels)

-- A hostname is accepted exactly if, without one final dot, it is not empty and has at most 253
-- bytes, and each of its labels has at most 63 bytes, is not empty, holds only ASCII letters, digits
-- and hyphens and neither starts nor ends with a hyphen; the first label may be `*` instead. For an
-- SRV hostname there are at least three labels, none of them may be `*`, and each of the first two is
-- an underscore and such a text, with at most 63 bytes together.
pub validators_iff :
    (h : String)
    → ((validate_hostname h ≡ none) ↔ (
        ((trim_dot h == "") ≡ false)
        × (byte_length (trim_dot h) ≤ 253)
        × AreLabels (split_dots (trim_dot h))))
      × ((validate_srv_hostname h ≡ none) ↔ (
          ((trim_dot h == "") ≡ false)
          × (byte_length (trim_dot h) ≤ 253)
          × AreServiceLabels (split_dots (trim_dot h))))
validators_iff h = (validate_hostname_iff h, validate_srv_hostname_iff h)

-- The hostnames that pass are those that `Validate` accepts, in their order, and the others are
-- reported: together they are as many as were given.
pub validate_all-sorted :
    (hs : List Hostname)
    → All (λ h. validate h ≡ none) (validate_all hs).valid
      × (length (validate_all hs).valid + length (validate_all hs).invalid ≡ length hs)
unfolding validate_all
validate_all-sorted [] = ground arith
validate_all-sorted (h ∷ hs) = ground (arith, validate_all-sorted hs)
