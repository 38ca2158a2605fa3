-- ===== src/Tests/Configuring.antt =====
-- A concrete configuration, and a concrete run of the refresher of a target.
use dnsweaver.Base.{String, ◌≡◌, refl, true, Option, none, some, List, [], ◌∷◌, All}
use dnsweaver.Provider.Config as provider
use dnsweaver.Provider.Record.{RecordType}
use dnsweaver.Config.{InstanceConfig, Config}
use dnsweaver.Config.Validation.{validate_config}
use dnsweaver.Config.Accepted.{AreDistinct, TargetFits, validate_config_accepted}
use dnsweaver.Target.Refresh.{
  Refresher, new_refresher, start, resolve_once, begin, step, started, ticked, AreChanges,
  reach-AreChanges,
}

abbrev instance_named : String → String → String → InstanceConfig
instance_named name target target_mode = record {
  name = name;
  record_type = RecordType.a;
  target = target;
  target_mode = target_mode;
  domains = "*.example.com" ∷ [];
  domains_regex = [];
  exclude_domains = [];
  exclude_domains_regex = [];
}

abbrev family : String → Option provider.Family
family _ = some provider.ipv4

abbrev settings : Config
settings = record {
  global = record {
    log_level = "info";
    log_format = "json";
    docker_mode = "";
    platform = "docker";
  };
  provider_instances =
      instance_named "one" "192.0.2.1" "" ∷ instance_named "two" "" " Interface:eth0" ∷ [];
}

validate_config_accepted_example :
    AreDistinct settings.provider_instances × All (TargetFits family) settings.provider_instances
unfolding validate_config dnsweaver.Base.to_lower dnsweaver.Base.lower_char
validate_config_accepted_example = validate_config_accepted family (λ _. true) settings refl

abbrev refreshed : Refresher
refreshed = resolve_once none (resolve_once (some "192.0.2.1") (start none new_refresher).1)

reach-AreChanges_example : AreChanges refreshed.last_good refreshed.notified
unfolding start
reach-AreChanges_example = reach-AreChanges (
    step
      (step (step begin (started none new_refresher))
        (ticked (some "192.0.2.1") (start none new_refresher).1 refl))
      (ticked none (resolve_once (some "192.0.2.1") (start none new_refresher).1) refl))
