-- ===== src/Config/Validation.antt =====
-- internal/config/validate.go. `net.ParseIP` is the parameter `ip_family`, as in `Provider.Config`, and
-- `regexp.Compile` is `compiles`, which tells whether a pattern compiles.
use Prim.Native.Char.{code}
use dnsweaver.Base.{
  String, Bool, true, false, not, ◌&&◌, ◌||◌, Option, none, some, List, [], ◌∷◌, ◌++◌, ◌==◌,
  if◌then◌else◌, contains, any, nat_eq,
}
use dnsweaver.Hostname.Validation.{split_dots}
use dnsweaver.Provider.Config as provider
use dnsweaver.Provider.Ownership.Parts.{strip_prefix}
use dnsweaver.Provider.Record.{RecordType}
use dnsweaver.Target.{Parsed, parse}
use dnsweaver.Target as target
use package.dnsweaver.Config.{
  GlobalConfig, InstanceConfig, Config, ConfigError, log_level, log_format, docker_mode, platform,
  duplicate_name, target_mode, cname_with_mode, no_address, no_ipv4, no_ipv6, cname_address,
  domain_pattern, exclude_pattern, domain_regexp, exclude_regexp,
}

abbrev pub one_of : List String → String → ConfigError → List ConfigError
one_of values value e = if contains value values then [] else e ∷ []

-- the settings with a fixed list of values
abbrev pub validate_global : GlobalConfig → List ConfigError
validate_global g =
    one_of ("debug" ∷ "info" ∷ "warn" ∷ "error" ∷ []) g.log_level (log_level g.log_level)
    ++ one_of ("json" ∷ "text" ∷ []) g.log_format (log_format g.log_format)
    ++ one_of ("auto" ∷ "swarm" ∷ "standalone" ∷ "" ∷ []) g.docker_mode (docker_mode g.docker_mode)
    ++ one_of ("docker" ∷ "kubernetes" ∷ "both" ∷ "none" ∷ "" ∷ []) g.platform (platform g.platform)

-- the loop over the names, with those seen
unfoldable pub duplicate_names : List String → List InstanceConfig → List ConfigError
duplicate_names seen [] = []
duplicate_names seen (inst ∷ insts) =
    let rest = duplicate_names (inst.name ∷ seen) insts in
    if contains inst.name seen then duplicate_name inst.name ∷ rest else rest

abbrev is_cname : RecordType → Bool
is_cname RecordType.cname = true
is_cname _ = false

abbrev pub address_error : InstanceConfig → Option provider.Family → List ConfigError
address_error inst family = elim inst.record_type [
  | RecordType.a ↦ elim family [
    | none ↦ no_address inst.name inst.target ∷ []
    | some f ↦ elim f [ provider.ipv4 ↦ [] | provider.ipv6 ↦ no_ipv4 inst.name inst.target ∷ [] ]
  ]
  | RecordType.aaaa ↦ elim family [
    | none ↦ no_ipv6 inst.name inst.target ∷ []
    | some f ↦ elim f [ provider.ipv4 ↦ no_ipv6 inst.name inst.target ∷ [] | provider.ipv6 ↦ [] ]
  ]
  | RecordType.cname ↦ elim family [ none ↦ [] | some _ ↦ cname_address inst.name inst.target ∷ [] ]
  | _ ↦ []
]

abbrev pub parse_error : InstanceConfig → Parsed → List ConfigError
parse_error inst target.name_required = target_mode inst.name inst.target_mode ∷ []
parse_error inst target.invalid_mode = target_mode inst.name inst.target_mode ∷ []
parse_error inst _ = []

abbrev pub mode_errors : InstanceConfig → List ConfigError
mode_errors inst =
    parse_error inst (parse inst.target_mode target.ipv4)
    ++ (if is_cname inst.record_type then cname_with_mode inst.name inst.target_mode ∷ [] else [])

-- `validateTargetRecordType`
unfoldable pub validate_target_record_type :
    (String → Option provider.Family) → InstanceConfig → List ConfigError
unfolding parse
validate_target_record_type ip_family inst =
    let address = address_error inst (ip_family inst.target) in
    if inst.target_mode == ""
    then address
    else if inst.target == ""
    then mode_errors inst
    else mode_errors inst ++ address

unfoldable pub has_star : String → Bool
has_star String.[] = false
has_star (String.◌∷◌ c s) = nat_eq (code c) b'*' || has_star s

abbrev starts_with : String → String → Bool
starts_with p s = elim (strip_prefix p s) [ none ↦ false | some _ ↦ true ]

-- strings.Contains
unfoldable pub has_part : String → String → Bool
unfolding strip_prefix
has_part p String.[] = p == ""
has_part p (String.◌∷◌ c s) = starts_with p (String.◌∷◌ c s) || has_part p s

abbrev pub is_bad_label : String → Bool
is_bad_label label = has_star label && not (label == "*") && not (starts_with "*" label)

-- `validateGlobPattern`: whether it returns an error
unfoldable pub is_bad_glob : String → Bool
unfolding has_part has_star split_dots strip_prefix
is_bad_glob pattern =
    (pattern == "") || has_part "*.*" pattern || any is_bad_label (split_dots pattern)

unfoldable pub bad_ones : (String → Bool) → (String → ConfigError) → List String → List ConfigError
bad_ones is_bad e [] = []
bad_ones is_bad e (p ∷ ps) =
    let rest = bad_ones is_bad e ps in if is_bad p then e p ∷ rest else rest

-- `validateDomainPatterns`
unfoldable pub validate_domain_patterns : (String → Bool) → InstanceConfig → List ConfigError
unfolding is_bad_glob bad_ones
validate_domain_patterns compiles inst =
    bad_ones is_bad_glob (domain_pattern inst.name) inst.domains
    ++ bad_ones is_bad_glob (exclude_pattern inst.name) inst.exclude_domains
    ++ bad_ones (λ p. not (compiles p)) (domain_regexp inst.name) inst.domains_regex
    ++ bad_ones (λ p. not (compiles p)) (exclude_regexp inst.name) inst.exclude_domains_regex

unfoldable pub each_instance :
    (InstanceConfig → List ConfigError) → List InstanceConfig → List ConfigError
each_instance f [] = []
each_instance f (inst ∷ insts) = f inst ++ each_instance f insts

-- `validateConfig`
unfoldable pub validate_config :
    (String → Option provider.Family) → (String → Bool) → Config → List ConfigError
unfolding duplicate_names each_instance validate_target_record_type validate_domain_patterns
validate_config ip_family compiles cfg =
    validate_global cfg.global
    ++ duplicate_names [] cfg.provider_instances
    ++ each_instance (validate_target_record_type ip_family) cfg.provider_instances
    ++ each_instance (validate_domain_patterns compiles) cfg.provider_instances
