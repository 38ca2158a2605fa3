-- ===== src/Tests/Registering.antt =====
-- Tests of the configuration and of the registry.
use dnsweaver.Base.{
  String, ◌≡◌, ◌↔◌, refl, true, false, Bool, Option, none, some, List, [], ◌∷◌, ◌==◌, if◌then◌else◌,
  arith,
}
use dnsweaver.Provider.Record.{RecordType}
use dnsweaver.Provider.Mode.{managed}
use dnsweaver.Provider.Config.{Family, ipv4, ProviderInstanceConfig, validate}
use dnsweaver.Provider.Config.Valid.{IsValid, validate_iff}
use dnsweaver.Provider.Registry.{create_instance}
use dnsweaver.Provider.Registry.Bookkeeping.{IsConsistent}
use dnsweaver.Provider.Registry.Creation.{IsOutcome, create_instance-IsOutcome}
use package.dnsweaver.Tests.Backend.{registry}

-- one address is known, and every pattern compiles
abbrev pub family : String → Option Family
family s = if s == "10.0.0.2" then some ipv4 else none

abbrev pub regexp : String → Option (String → Bool)
regexp s = some (λ h. true)

abbrev pub config : ProviderInstanceConfig
config = record {
  name = "second";
  type_name = "memory";
  record_type = RecordType.a;
  target = "10.0.0.2";
  ttl = 60;
  mode = managed;
  domains = "*.example.com" ∷ [];
  exclude_domains = [];
  domains_regex = [];
  exclude_domains_regex = [];
  metadata_filters = [];
  provider_config = [];
}

pub registry-IsConsistent : IsConsistent registry
unfolding dnsweaver.Base.Map.lookup
registry-IsConsistent = record {
  same = refl;
  keys_differ = (refl, tt);
  ascending = (tt, tt);
  below = ground arith;
}

validate_iff_example : (validate family config ≡ none) ↔ IsValid family config
validate_iff_example = validate_iff family config

create_instance-IsOutcome_example :
    IsOutcome "second" registry (create_instance family regexp config registry)
create_instance-IsOutcome_example = create_instance-IsOutcome family regexp config registry
