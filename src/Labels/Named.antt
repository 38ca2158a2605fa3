-- ===== src/Labels/Named.antt =====
-- The named records of sources/dnsweaver/parser.go. A map that has no entry for a name answers with
-- the empty text, and a Go map is read in the order of insertion.
use dnsweaver.Base.{
  ℕ, String, ◌||◌, not, Option, none, some, List, [], ◌∷◌, if◌then◌else◌, ◌==◌, is_some, to_lower,
  to_upper,
}
use dnsweaver.Base.Blanks.{trim_space}
use dnsweaver.Base.Map.{Map, lookup, insert}
use dnsweaver.Provider.Ownership.Parts.{strip_prefix}
use dnsweaver.Source.Registry.{is_opt_out}
use package.dnsweaver.Labels.{SrvData, Extraction}
use package.dnsweaver.Labels.Numbers.{parse_uint16, positive_atoi}
use package.dnsweaver.Labels.Keys.{named_record_key}

abbrev pub Fields : Type 0
Fields = Map String

abbrev pub or_empty : Option Fields → Fields
or_empty none = []
or_empty (some fields) = fields

abbrev pub or_zero : Option ℕ → ℕ
or_zero none = 0
or_zero (some n) = n

-- `fields[name]`
abbrev pub field : String → Fields → String
field name fields = elim (lookup name fields) [ none ↦ "" | some value ↦ value ]

-- what one label adds to the named records
abbrev pub collected : Option (String × String) → String → Map Fields → Map Fields
collected none value records = records
collected (some (name, key)) value records =
    insert name (insert (to_lower key) (trim_space value) (or_empty (lookup name records))) records

-- the loop that collects the fields of the named records
unfoldable pub collect : Map String → Map Fields → Map Fields
unfolding named_record_key
collect [] records = records
collect ((key, value) ∷ labels) records =
    collect labels (collected (named_record_key key) value records)

-- a TTL that is not a number above 0 is left out
unfoldable pub ttl_of : String → ℕ
ttl_of s = if s == "" then 0 else or_zero (positive_atoi s)

-- a number that is empty or no uint16 is left out
unfoldable pub srv_number : String → Option ℕ
srv_number s = if s == "" then none else parse_uint16 s

-- `hasSRVData`
abbrev pub srv_data : Option ℕ → Option ℕ → Option ℕ → Option SrvData
srv_data port priority weight =
    if is_some port || is_some priority || is_some weight
    then some (record { port = or_zero port; priority = or_zero priority; weight = or_zero weight })
    else none

unfoldable pub srv_of : String → Fields → Option SrvData
unfolding srv_number
srv_of type fields =
    if type == "SRV" || not (field "port" fields == "")
    then srv_data (srv_number (field "port" fields)) (srv_number (field "priority" fields))
        (srv_number (field "weight" fields))
    else none

-- the metadata of `proxied`, which is true or false
unfoldable pub proxied_of : String → Map String
proxied_of value =
    let proxied = trim_space (to_lower value) in
    if proxied == "true" || proxied == "false" then ("proxied", proxied) ∷ [] else []

-- one `meta.` field: what is there already wins
abbrev pub with_key : Option String → String → Map String → Map String
with_key none value metadata = metadata
with_key (some key) value metadata =
    if key == "" || is_some (lookup key metadata) then metadata else insert key value metadata

unfoldable pub with_meta : Fields → Map String → Map String
with_meta [] metadata = metadata
with_meta ((key, value) ∷ fields) metadata =
    with_meta fields (with_key (strip_prefix "meta." key) value metadata)

abbrev pub new_extraction : String → Fields → String → Extraction
new_extraction name fields hostname =
    let type = to_upper (field "type" fields) in
    record {
      hostname = hostname;
      record_name = name;
      type = type;
      target = field "target" fields;
      provider = field "provider" fields;
      ttl = ttl_of (field "ttl" fields);
      srv = srv_of type fields;
      metadata = with_meta fields (proxied_of (field "proxied" fields));
    }

-- one named record: none if it is disabled or has no hostname
unfoldable pub named_extraction : String → Fields → Option Extraction
unfolding ttl_of srv_of proxied_of with_meta
named_extraction name fields =
    let hostname = field "hostname" fields in
    if is_opt_out (lookup "enabled" fields) || (hostname == "")
    then none
    else some (new_extraction name fields hostname)

unfoldable pub named_extractions : Map Fields → List Extraction
unfolding named_extraction
named_extractions [] = []
named_extractions ((name, fields) ∷ records) =
    let rest = named_extractions records in
    elim (named_extraction name fields) [ none ↦ rest | some e ↦ e ∷ rest ]
