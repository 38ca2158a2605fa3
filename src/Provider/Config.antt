-- ===== src/Provider/Config.antt =====
-- `ProviderInstanceConfig` of pkg/provider/instance.go. `net.ParseIP` is the parameter `ip_family`:
-- the family of an address, `none` for a text that is no address.
pub mod Valid
use Prim.Native.String.{◌++◌ as append}
use dnsweaver.Base.{
  ℕ, String, Bool, true, false, not, ◌&&◌, Option, none, some, List, [], ◌∷◌, ◌==◌, if◌then◌else◌,
  ltb,
}
use dnsweaver.Base.Map.{Map}
use dnsweaver.Provider.Record.{RecordType, type_text}
use dnsweaver.Provider.Failure.{Error, unclassified}
use dnsweaver.Provider.Mode.{OperationalMode}

pub data Family : Type 0 where
  ipv4 ipv6 : Family

pub record ProviderInstanceConfig : Type 0 where
  pub name : String
  pub type_name : String
  pub record_type : RecordType
  pub target : String
  pub ttl : ℕ
  pub mode : OperationalMode
  pub domains : List String
  pub exclude_domains : List String
  pub domains_regex : List String
  pub exclude_domains_regex : List String
  pub metadata_filters : Map (List String)
  pub provider_config : Map String

config_error : String → String → Error
config_error field message = record {
  kind = unclassified;
  message = append "configuration error: " (append field (append ": " message));
}

-- `ErrConfigMissing`
err_config_missing : String → Error
unfolding config_error
err_config_missing field = config_error field "required but not set"

-- `ErrConfigInvalid`
err_config_invalid : String → String → String → Error
unfolding config_error
err_config_invalid field value message =
    if value == "" then config_error field message else record {
      kind = unclassified;
      message =
          append "configuration error: "
            (append field (append "=\"" (append value (append "\": " message))));
    }

abbrev pub is_empty : List String → Bool
is_empty [] = true
is_empty (_ ∷ _) = false

abbrev pub is_family : Family → Option Family → Bool
is_family ipv4 (some ipv4) = true
is_family ipv6 (some ipv6) = true
is_family _ _ = false

abbrev pub is_address : Option Family → Bool
is_address none = false
is_address (some _) = true

-- the tests of `Validate` on the target, by the record type
unfoldable pub fits_type : (String → Option Family) → RecordType → String → Bool
fits_type ip_family RecordType.a target = is_family ipv4 (ip_family target)
fits_type ip_family RecordType.aaaa target = is_family ipv6 (ip_family target)
fits_type ip_family RecordType.cname target = not (is_address (ip_family target))
fits_type ip_family _ target = true

target_error : RecordType → String
target_error RecordType.cname =
    "CNAME records cannot point to IP addresses; use record_type=A or AAAA for IP targets"
target_error RecordType.a =
    "A records must point to IPv4 addresses; use record_type=AAAA for IPv6 or CNAME for hostnames"
target_error _ =
    "AAAA records must point to IPv6 addresses; use record_type=A for IPv4 or CNAME for hostnames"

abbrev pub is_address_type : RecordType → Bool
is_address_type RecordType.a = true
is_address_type RecordType.aaaa = true
is_address_type RecordType.cname = true
is_address_type _ = false

module _ (ip_family : String → Option Family) where
  -- `Validate`; `none` is a valid configuration
  unfoldable pub validate : ProviderInstanceConfig → Option Error
  unfolding err_config_missing err_config_invalid target_error
  validate c =
      if c.name == ""
      then some (err_config_missing "name")
      else if c.type_name == ""
      then some (err_config_missing "type")
      else if not (is_address_type c.record_type)
      then some
          (err_config_invalid "record_type" (type_text c.record_type) "must be A, AAAA, or CNAME")
      else if c.target == ""
      then some (err_config_missing "target")
      else if not (fits_type ip_family c.record_type c.target)
      then some (err_config_invalid "target" c.target (target_error c.record_type))
      else if ltb c.ttl 1
      then some (err_config_invalid "ttl" "" "must be at least 1")
      else if is_empty c.domains && is_empty c.domains_regex
      then some (err_config_missing "domains (or domains_regex)")
      else if not (is_empty c.domains) && not (is_empty c.domains_regex)
      then some (err_config_invalid "domains" "" "cannot specify both DOMAINS and DOMAINS_REGEX")
      else none

-- `UseRegex`
unfoldable pub use_regex : ProviderInstanceConfig → Bool
use_regex c = not (is_empty c.domains_regex)

-- `GetIncludes`
unfoldable pub get_includes : ProviderInstanceConfig → List String
unfolding use_regex
get_includes c = if use_regex c then c.domains_regex else c.domains

-- `GetExcludes`
unfoldable pub get_excludes : ProviderInstanceConfig → List String
unfolding use_regex
get_excludes c = if use_regex c then c.exclude_domains_regex else c.exclude_domains
