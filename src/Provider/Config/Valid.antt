-- ===== src/Provider/Config/Valid.antt =====
-- What `Validate` of pkg/provider/instance.go accepts, described without its tests.
use dnsweaver.Base.{
  ◌≤◌, String, ◌≡◌, ◌≢◌, ◌↔◌, ◌⊎◌, true, false, not, ◌&&◌, Option, none, some, List, [], ◌∷◌, arith,
  ◌==◌,
}
use dnsweaver.Provider.Record.{RecordType}
use dnsweaver.Provider.Config.{
  Family, ipv4, ipv6, ProviderInstanceConfig, validate, fits_type, is_empty, is_address_type,
  is_family, is_address,
}

-- The record type is A, AAAA or CNAME, and the target an IPv4 address, an IPv6 address or no address.
abbrev pub Suits : RecordType → Option Family → Type 0
Suits t family =
    ((t ≡ RecordType.a) × (family ≡ some ipv4))
    ⊎ ((t ≡ RecordType.aaaa) × (family ≡ some ipv6))
    ⊎ ((t ≡ RecordType.cname) × (family ≡ none))

-- the texts that must be given, a target that suits the type, a TTL, and patterns of one kind
abbrev pub IsValid : (String → Option Family) → ProviderInstanceConfig → Type 0
IsValid ip_family c =
    ((c.name == "") ≡ false)
    × ((c.type_name == "") ≡ false)
    × ((c.target == "") ≡ false)
    × Suits c.record_type (ip_family c.target)
    × (1 ≤ c.ttl)
    × (((c.domains ≡ []) × (c.domains_regex ≢ [])) ⊎ ((c.domains ≢ []) × (c.domains_regex ≡ [])))

family_iff : (f : Family) (o : Option Family) → (is_family f o ≡ true) ↔ (o ≡ some f)
family_iff ipv4 none = ground arith
family_iff ipv4 (some ipv4) = ground arith
family_iff ipv4 (some ipv6) = ground arith
family_iff ipv6 none = ground arith
family_iff ipv6 (some ipv4) = ground arith
family_iff ipv6 (some ipv6) = ground arith

no_address_iff : (o : Option Family) → (not (is_address o) ≡ true) ↔ (o ≡ none)
no_address_iff none = ground arith
no_address_iff (some f) = ground arith

target_iff :
    (ip_family : String → Option Family) (t : RecordType) (target : String)
    → ((is_address_type t && fits_type ip_family t target) ≡ true) ↔ Suits t (ip_family target)
unfolding fits_type
target_iff ip_family RecordType.a target = ground (arith, family_iff ipv4 (ip_family target))
target_iff ip_family RecordType.aaaa target = ground (arith, family_iff ipv6 (ip_family target))
target_iff ip_family RecordType.cname target = ground (arith, no_address_iff (ip_family target))
target_iff ip_family _ target = ground arith

empty_iff : (xs : List String) → (is_empty xs ≡ true) ↔ (xs ≡ [])
empty_iff [] = ground arith
empty_iff (x ∷ xs) = ground arith

-- `Validate` accepts a configuration exactly if the name, the type and the target are given, the
-- record type is A with an IPv4 address as target, AAAA with an IPv6 address, or CNAME with a text
-- that is no address, the TTL is at least 1, and the domains are given either as globs or as regular
-- expressions, not both.
pub validate_iff :
    (ip_family : String → Option Family) (c : ProviderInstanceConfig)
    → (validate ip_family c ≡ none) ↔ IsValid ip_family c
unfolding validate
validate_iff ip_family c = ground (
  arith,
  target_iff ip_family c.record_type c.target,
  empty_iff c.domains,
  empty_iff c.domains_regex,
)
