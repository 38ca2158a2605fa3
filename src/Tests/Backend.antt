-- ===== src/Tests/Backend.antt =====
-- A provider that keeps its records in a list, and instances, hostnames and states made with it.
use dnsweaver.Base.{String, Bool, true, false, not, none, List, [], ◌∷◌, ◌++◌, select, ◌==◌, ◌&&◌}
use dnsweaver.Hostname.{Hostname}
use dnsweaver.Matcher.{DomainMatcher, PatternType}
use dnsweaver.Provider.Record.{Record, RecordType, new_record}
use dnsweaver.Provider.Failure.{ok}
use dnsweaver.Provider.Mode.{managed}
use dnsweaver.Provider.Interface.{Provider, System}
use dnsweaver.Provider.Instance.{ProviderInstance}
use dnsweaver.Provider.Registry.{Registry, Slot}
use dnsweaver.Reconciler.Env.{Env}

abbrev same_record : Record → Record → Bool
same_record x y = x.hostname == y.hostname && x.target == y.target

abbrev pub backend : Bool → Provider (List Record)
backend markers = record {
  name = "dns";
  type = "memory";
  capabilities = record {
    supports_ownership_txt = markers;
    supports_native_update = false;
    supported_record_types = RecordType.a ∷ RecordType.txt ∷ [];
  };
  list = λ w. (ok w, w);
  create = λ r w. (none, w ++ r ∷ []);
  delete = λ r w. (none, select (λ x. not (same_record r x)) w);
  update = none;
  identity = none;
}

abbrev pub everything : DomainMatcher
everything = record {
  includes = record { original = "*"; regex = λ _. true } ∷ [];
  excludes = [];
  pattern_type = PatternType.glob;
}

abbrev pub instance_of : Bool → ProviderInstance (List Record)
instance_of markers = record {
  provider = backend markers;
  matcher = everything;
  record_type = RecordType.a;
  target = "10.0.0.1";
  dynamic_target = none;
  ttl = 300;
  mode = managed;
  instance_id = "one";
  metadata_filters = ("entrypoint", "web" ∷ []) ∷ [];
  identity = record { type = "memory"; endpoint = ""; zone = "" };
}

abbrev pub slot : Slot (List Record)
slot = record { address = 0; value = instance_of true }

abbrev pub registry : Registry (List Record)
registry = record {
  factories = ("memory", λ _ _. ok (backend true)) ∷ [];
  instances = slot ∷ [];
  by_name = ("dns", slot) ∷ [];
  instance_id = "one";
  next_address = 1;
}

-- with these switches: a dry run, ownership tracking
abbrev pub env_of : Bool → Bool → Env (List Record)
env_of dry tracking = record {
  config = record {
    dry_run = dry;
    cleanup_orphans = true;
    ownership_tracking = tracking;
    adopt_existing = false;
    enabled = true;
    instance_id = "one";
  };
  providers = registry;
  enabled = true;
  dry_run = dry;
}

abbrev pub address : String → String → Record
address h target = new_record h RecordType.a target 300 none []

-- the store holds these records, and these hostnames are known
abbrev pub state : List Record → List String → System (List Record)
state records known = record {
  store = records;
  calls = [];
  known_hostnames = known;
  hostname_providers = [];
  recovered_metadata = none;
}

abbrev pub hostname : String → Hostname
hostname h = record { name = h; source = "labels"; router = ""; record_hints = none; metadata = [] }
