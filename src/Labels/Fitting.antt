-- ===== src/Labels/Fitting.antt =====
-- sources/dnsweaver: what the source promises of its hostnames, whatever the labels are.
use Prim.Native.Char.{code}
use dnsweaver.Base.{
  nat_eq, ℕ, ◌≤◌, ◌==◌, String, ◌≡◌, ◌||◌, Bool-cases, inl, inr, false, Option, none, some, List,
  [], ◌∷◌, All, All-append, map, arith, if◌then◌else◌,
}
use dnsweaver.Base.Blanks.{trim_space}
use dnsweaver.Base.Map.{Map, lookup}
use dnsweaver.Hostname.{Hostname, RecordHints, SrvHints}
use dnsweaver.Source.{Workload}
use dnsweaver.Source.Registry.{is_opt_out}
use package.dnsweaver.Labels.{Extraction, has_hints}
use package.dnsweaver.Labels.Numbers.{parse_uint16, positive_atoi, in_range, digits}
use package.dnsweaver.Labels.Named.{
  Fields, field, or_zero, ttl_of, srv_number, srv_data, srv_of, named_extraction, named_extractions,
  collect, new_extraction,
}
use package.dnsweaver.Labels.Parser.{
  simple_extractions, extract_hostnames, one_hostname, listed_hostnames,
}
use package.dnsweaver.Labels.Native.{hints, srv_hints, to_hostname, extract, effective_labels}

-- The numbers of an SRV record are in the range of uint16.
abbrev pub Fits : Option SrvHints → Type 0
Fits none = Unit
Fits (some s) = (s.port ≤ 65535) × (s.priority ≤ 65535) × (s.weight ≤ 65535)

abbrev pub HintsFit : Option RecordHints → Type 0
HintsFit none = Unit
HintsFit (some h) = (h.ttl ≤ 9223372036854775807) × Fits h.srv

-- The hostname has a name, and its hints are in the range of their Go types.
abbrev pub IsUsable : Hostname → Type 0
IsUsable h = ((h.name == "") ≡ false) × HintsFit h.record_hints

or_zero-in_range :
    (least greatest : ℕ) (n : Option ℕ) → or_zero (in_range least greatest n) ≤ greatest
or_zero-in_range least greatest none = ground arith
or_zero-in_range least greatest (some n) = ground arith

or_zero-parse_uint16 : (s : String) → or_zero (parse_uint16 s) ≤ 65535
unfolding parse_uint16
or_zero-parse_uint16 s = or_zero-in_range 0 65535 (digits s)

or_zero-srv_number : (s : String) → or_zero (srv_number s) ≤ 65535
unfolding srv_number
or_zero-srv_number s = ground (arith, or_zero-parse_uint16 s)

or_zero-positive_atoi : (s : String) → or_zero (positive_atoi s) ≤ 9223372036854775807
unfolding positive_atoi
or_zero-positive_atoi String.[] = ground arith
or_zero-positive_atoi (String.◌∷◌ c s) =
    or_zero-in_range 1 9223372036854775807
      (if nat_eq (code c) b'+' then digits s else digits (String.◌∷◌ c s))

ttl_of-bounded : (s : String) → ttl_of s ≤ 9223372036854775807
unfolding ttl_of
ttl_of-bounded s = ground (arith, or_zero-positive_atoi s)

srv_data-Fits :
    (port priority weight : Option ℕ)
    → or_zero port ≤ 65535
    → or_zero priority ≤ 65535
    → or_zero weight ≤ 65535
    → Fits (srv_hints (srv_data port priority weight))
unfolding srv_hints
srv_data-Fits none none none p q r = tt
srv_data-Fits (some a) q r hp hq hr = (hp, hq, hr)
srv_data-Fits none (some b) r hp hq hr = (hp, hq, hr)
srv_data-Fits none none (some c) hp hq hr = (hp, hq, hr)

srv_of-Fits : (type : String) (fields : Fields) → Fits (srv_hints (srv_of type fields))
unfolding srv_of srv_hints
srv_of-Fits type fields = ground (
  arith,
  srv_data-Fits (srv_number (field "port" fields)) (srv_number (field "priority" fields))
      (srv_number (field "weight" fields)) (or_zero-srv_number (field "port" fields))
      (or_zero-srv_number (field "priority" fields)) (or_zero-srv_number (field "weight" fields)),
)

abbrev IsSound : Extraction → Type 0
IsSound e = ((e.hostname == "") ≡ false) × (e.ttl ≤ 9223372036854775807) × Fits (srv_hints e.srv)

simple_extractions-IsSound :
    (labels : Map String) (hs : List String) → All IsSound (simple_extractions labels hs)
unfolding simple_extractions srv_hints
simple_extractions-IsSound labels [] = tt
simple_extractions-IsSound labels (h ∷ hs) =
    let rest = simple_extractions-IsSound labels hs in
    let small = ttl_of-bounded (trim_space (field "dnsweaver.ttl" labels)) in
    elim (Bool-cases (trim_space h == "")) [
      | inl empty ↦ rw empty rest
      | inr full ↦ rw full ((full, small, tt), rest)
    ]

new_extraction-IsSound :
    (name : String) (fields : Fields)
    → (field "hostname" fields == "") ≡ false
    → IsSound (new_extraction name fields (field "hostname" fields))
new_extraction-IsSound name fields full =
    (full, ttl_of-bounded (field "ttl" fields), srv_of-Fits _ fields)

abbrev IsSoundIf : Option Extraction → Type 0
IsSoundIf none = Unit
IsSoundIf (some e) = IsSound e

named_extraction-IsSound :
    (name : String) (fields : Fields) → IsSoundIf (named_extraction name fields)
unfolding named_extraction
named_extraction-IsSound name fields =
    elim (Bool-cases (is_opt_out (lookup "enabled" fields) || (field "hostname" fields == ""))) [
      | inl skipped ↦ rw skipped tt
      | inr taken ↦ rw taken (new_extraction-IsSound name fields (ground (arith, taken)))
    ]

with_extraction-IsSound :
    (o : Option Extraction) (es : List Extraction)
    → IsSoundIf o
    → All IsSound es
    → All IsSound (elim o [ none ↦ es | some e ↦ e ∷ es ])
with_extraction-IsSound none es h hs = hs
with_extraction-IsSound (some e) es h hs = (h, hs)

named_extractions-IsSound : (records : Map Fields) → All IsSound (named_extractions records)
unfolding named_extractions
named_extractions-IsSound [] = tt
named_extractions-IsSound ((name, fields) ∷ records) =
    with_extraction-IsSound (named_extraction name fields) (named_extractions records)
      (named_extraction-IsSound name fields) (named_extractions-IsSound records)

extract_hostnames-IsSound : (labels : Map String) → All IsSound (extract_hostnames labels)
unfolding extract_hostnames
extract_hostnames-IsSound labels =
    elim (Bool-cases (is_opt_out (lookup "dnsweaver.enabled" labels))) [
      | inl disabled ↦ rw disabled tt
      | inr enabled ↦ rw enabled (
          All-append IsSound _ _
            (All-append IsSound _ _
              (simple_extractions-IsSound labels
                (one_hostname (lookup "dnsweaver.hostname" labels)))
              (simple_extractions-IsSound labels
                (listed_hostnames (lookup "dnsweaver.hostnames" labels))))
            (named_extractions-IsSound (collect labels [])))
    ]

to_hostname-IsUsable : (e : Extraction) → IsSound e → IsUsable (to_hostname e)
unfolding to_hostname hints
to_hostname-IsUsable e (full, small, fits) = elim (Bool-cases (has_hints e)) [
  | inl hinted ↦ rw hinted (full, (small, fits))
  | inr plain ↦ rw plain (full, tt)
]

map-IsUsable : (es : List Extraction) → All IsSound es → All IsUsable (map to_hostname es)
map-IsUsable [] h = tt
map-IsUsable (e ∷ es) (sound, h) = (to_hostname-IsUsable e sound, map-IsUsable es h)

-- Every hostname that the source reads from the labels and annotations of a workload, whatever they
-- are, has a name, and its hints have a TTL that fits in an int and SRV numbers that fit in a uint16.
pub extract-IsUsable : (w : Workload) → All IsUsable (extract w)
unfolding extract
extract-IsUsable w =
    map-IsUsable (extract_hostnames (effective_labels w))
      (extract_hostnames-IsSound (effective_labels w))
