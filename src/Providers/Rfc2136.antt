-- ===== src/Providers/Rfc2136.antt =====
-- providers/rfc2136/provider.go: the provider over a DNS server that takes dynamic updates,
-- which finds its hostnames in the catalog: the conversions of names and records.
pub mod Conversion
pub mod Listing
pub mod Writing
use Prim.Native.String.{◌++◌ as append}
use dnsweaver.Base.{ℕ, String, ◌||◌, Option, none, some, [], if◌then◌else◌, ltb, trim_dot}
use dnsweaver.Provider.Record as provider
use dnsweaver.Provider.Record.{RecordType, SrvData, type_text}
use dnsweaver.DnsUpdate.Record.{RrType, Record, txt, a, aaaa, cname, srv, has_suffix, dotted}

-- `clampTTL`, for a TTL that is not negative
unfoldable pub clamp_ttl : ℕ → ℕ
clamp_ttl v = if ltb 4294967295 v then 4294967295 else v

-- `ensureFQDN`
unfoldable pub ensure_fqdn : String → String → String
unfolding has_suffix trim_dot
ensure_fqdn zone name =
    let zone_without_dot = trim_dot zone in
    if has_suffix name "."
    then name
    else if has_suffix name zone_without_dot || has_suffix name (append "." zone_without_dot)
    then append name "."
    else append name (append "." (append zone_without_dot "."))

-- `recordTypeToUint16`
abbrev pub rr_type : RecordType → RrType
rr_type RecordType.a = RrType.a
rr_type RecordType.aaaa = RrType.aaaa
rr_type RecordType.cname = RrType.cname
rr_type RecordType.txt = RrType.txt
rr_type RecordType.srv = RrType.srv
rr_type _ = RrType.a

-- `uint16ToRecordType`
abbrev pub record_type_of : RrType → Option RecordType
record_type_of RrType.a = some RecordType.a
record_type_of RrType.aaaa = some RecordType.aaaa
record_type_of RrType.cname = some RecordType.cname
record_type_of RrType.txt = some RecordType.txt
record_type_of RrType.srv = some RecordType.srv
record_type_of _ = none

abbrev srv_or_zero : Option SrvData → SrvData
srv_or_zero none = record { priority = 0; weight = 0; port = 0 }
srv_or_zero (some data_) = data_

abbrev new_rr : String → RrType → ℕ → String → SrvData → Record
new_rr name type ttl rdata data_ = record {
  name = name;
  type = type;
  ttl = ttl;
  rdata = rdata;
  priority = data_.priority;
  weight = data_.weight;
  port = data_.port;
}

abbrev no_srv : SrvData
no_srv = record { priority = 0; weight = 0; port = 0 }

-- `toRFC2136Record`; a TTL of 0 is that of the provider
unfoldable pub to_rfc2136_record : String → ℕ → provider.Record → Option Record
unfolding clamp_ttl ensure_fqdn dotted
to_rfc2136_record zone default_ttl r =
    let name = ensure_fqdn zone r.hostname in
    let ttl = if ltb 0 r.ttl then clamp_ttl r.ttl else clamp_ttl default_ttl in
    let make = new_rr name (rr_type r.type) ttl in
    elim r.type [
      | provider.a ↦ some (make r.target no_srv)
      | provider.aaaa ↦ some (make r.target no_srv)
      | provider.cname ↦ some (make (dotted r.target) no_srv)
      | provider.txt ↦ some (make r.target no_srv)
      | provider.srv ↦ some (make (dotted r.target) (srv_or_zero r.srv))
      | _ ↦ none
    ]

abbrev srv_of : RecordType → Record → Option SrvData
srv_of RecordType.srv r = some (record { priority = r.priority; weight = r.weight; port = r.port })
srv_of _ r = none

-- `fromRFC2136Record`
unfoldable pub from_rfc2136_record : Record → Option provider.Record
unfolding trim_dot type_text
from_rfc2136_record r = elim (record_type_of r.type) [
  | none ↦ none
  | some type ↦ some (record {
    hostname = trim_dot r.name;
    type = type;
    target = trim_dot r.rdata;
    ttl = r.ttl;
    provider_id = append r.name (append ":" (append (type_text type) (append ":" r.rdata)));
    srv = srv_of type r;
    https = none;
    metadata = [];
  })
]
