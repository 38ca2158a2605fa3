-- ===== src/Config.antt =====
-- internal/config: the settings that the validation reads. Reading them from a file and from the
-- environment is not modelled.
pub mod Validation
pub mod Accepted
use dnsweaver.Base.{String, List}
use dnsweaver.Provider.Record.{RecordType}

-- `GlobalConfig`, as far as the validation reads it
pub record GlobalConfig : Type 0 where
  pub log_level : String
  pub log_format : String
  pub docker_mode : String
  pub platform : String

-- `ProviderInstanceConfig`, as far as the validation reads it
pub record InstanceConfig : Type 0 where
  pub name : String
  pub record_type : RecordType
  pub target : String
  pub target_mode : String
  pub domains : List String
  pub domains_regex : List String
  pub exclude_domains : List String
  pub exclude_domains_regex : List String

-- `Config`
pub record Config : Type 0 where
  pub global : GlobalConfig
  pub provider_instances : List InstanceConfig

-- the errors, with the instance and the value that they name; their texts are left out
pub data ConfigError : Type 0 where
  log_level log_format docker_mode platform : String → ConfigError
  duplicate_name : String → ConfigError
  target_mode cname_with_mode no_address no_ipv4 no_ipv6 cname_address :
      String → String → ConfigError
  domain_pattern exclude_pattern domain_regexp exclude_regexp : String → String → ConfigError
