-- ===== src/Provider/Record.antt =====
-- pkg/provider/provider.go: the record types, the records and what a provider supports, and
-- `srvDataEquals` of internal/reconciler/actions.go. A Go `RecordType` is any string: the strings
-- that the code names are constructors, and `other` holds the rest. A nil pointer is `none`, a nil
-- map the empty map, and a TTL a natural number (the code reads a negative one as it reads 0).
use dnsweaver.Base.{
  ℕ, String, ◌≡◌, ◌↔◌, refl, Bool, true, false, ◌&&◌, Option, none, some, List, [], ◌∷◌, arith,
  ◌==◌, eq_iff, if◌then◌else◌, nat_eq,
}
use dnsweaver.Base.Map.{Map}

pub data RecordType : Type 0 where
  a aaaa cname txt srv https : RecordType
  other : String → RecordType

-- RecordType(s)
unfoldable pub record_type : String → RecordType
record_type s =
    if s == "A"
    then RecordType.a
    else if s == "AAAA"
    then RecordType.aaaa
    else if s == "CNAME"
    then RecordType.cname
    else if s == "TXT"
    then RecordType.txt
    else if s == "SRV"
    then RecordType.srv
    else if s == "HTTPS"
    then RecordType.https
    else RecordType.other s

-- string(recordType)
unfoldable pub type_text : RecordType → String
type_text RecordType.a = "A"
type_text RecordType.aaaa = "AAAA"
type_text RecordType.cname = "CNAME"
type_text RecordType.txt = "TXT"
type_text RecordType.srv = "SRV"
type_text RecordType.https = "HTTPS"
type_text (RecordType.other s) = s

-- t == u, on record types
unfoldable pub type_eq : RecordType → RecordType → Bool
type_eq RecordType.a RecordType.a = true
type_eq RecordType.aaaa RecordType.aaaa = true
type_eq RecordType.cname RecordType.cname = true
type_eq RecordType.txt RecordType.txt = true
type_eq RecordType.srv RecordType.srv = true
type_eq RecordType.https RecordType.https = true
type_eq (RecordType.other s) (RecordType.other t) = s == t
type_eq _ _ = false

pub type_eq_iff : (t u : RecordType) → (type_eq t u ≡ true) ↔ (t ≡ u)
unfolding type_eq
type_eq_iff RecordType.a u = ground arith
type_eq_iff (RecordType.other s) (RecordType.other t) = ground (arith, eq_iff s t)
type_eq_iff t u = ground arith

pub type_eq_refl : (t : RecordType) → type_eq t t ≡ true
type_eq_refl t = (type_eq_iff t t).1 refl

-- The record types that the reconciler manages; TXT records hold ownership markers.
unfoldable pub is_data_type : RecordType → Bool
is_data_type RecordType.a = true
is_data_type RecordType.aaaa = true
is_data_type RecordType.cname = true
is_data_type RecordType.srv = true
is_data_type RecordType.https = true
is_data_type _ = false

pub record SrvData : Type 0 where
  pub priority : ℕ  -- uint16
  pub weight : ℕ  -- uint16
  pub port : ℕ  -- uint16

pub record HttpsData : Type 0 where
  pub priority : ℕ  -- uint16
  pub target_name : String
  pub alpn : String

pub record Record : Type 0 where
  pub hostname : String
  pub type : RecordType
  pub target : String
  pub ttl : ℕ
  pub provider_id : String
  pub srv : Option SrvData
  pub https : Option HttpsData
  pub metadata : Map String

-- A record literal that leaves out the provider's identifier and the HTTPS data.
abbrev pub new_record : String → RecordType → String → ℕ → Option SrvData → Map String → Record
new_record hostname type target ttl srv_data metadata = record {
  hostname = hostname;
  type = type;
  target = target;
  ttl = ttl;
  provider_id = "";
  srv = srv_data;
  https = none;
  metadata = metadata;
}

pub record Capabilities : Type 0 where
  pub supports_ownership_txt : Bool
  pub supports_native_update : Bool
  pub supported_record_types : List RecordType

types_contain : RecordType → List RecordType → Bool
types_contain rt [] = false
types_contain rt (t ∷ ts) = if type_eq t rt then true else types_contain rt ts

unfoldable pub supports_record_type : Capabilities → RecordType → Bool
unfolding types_contain
supports_record_type c rt = types_contain rt c.supported_record_types

srv_fields_equal : SrvData → SrvData → Bool
srv_fields_equal x y =
    nat_eq x.priority y.priority && nat_eq x.weight y.weight && nat_eq x.port y.port

-- `srvDataEquals`, and the SRV part of `RecordEquals`
unfoldable pub srv_data_equals : Option SrvData → Option SrvData → Bool
unfolding srv_fields_equal
srv_data_equals none none = true
srv_data_equals (some x) (some y) = srv_fields_equal x y
srv_data_equals _ _ = false

https_data_equals : Option HttpsData → Option HttpsData → Bool
https_data_equals none none = true
https_data_equals (some x) (some y) =
    nat_eq x.priority y.priority && x.target_name == y.target_name && x.alpn == y.alpn
https_data_equals _ _ = false

same_data : RecordType → Record → Record → Bool
unfolding srv_data_equals https_data_equals
same_data RecordType.srv x y = srv_data_equals x.srv y.srv
same_data RecordType.https x y = https_data_equals x.https y.https
same_data _ x y = true

-- `RecordEquals`
pub record_equals : Record → Record → Bool
unfolding same_data
record_equals x y =
    x.hostname == y.hostname
    && type_eq x.type y.type
    && x.target == y.target
    && nat_eq x.ttl y.ttl
    && same_data x.type x y

pub srv_data_equals_iff : (x y : Option SrvData) → (srv_data_equals x y ≡ true) ↔ (x ≡ y)
unfolding srv_data_equals
srv_data_equals_iff x y = ground arith
