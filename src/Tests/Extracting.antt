-- ===== src/Tests/Extracting.antt =====
-- Concrete sources and workloads.
use dnsweaver.Base.{String, Option, Bool, ◌≡◌, refl, true, false, none, some, List, [], ◌∷◌, All}
use dnsweaver.Source.{Workload, Source, ok}
use dnsweaver.Source.Registry.{Registry, new_registry, register, is_workload_disabled, extract_all}
use dnsweaver.Reconciler.Cycle.Accepted.{IsAccepted}
use dnsweaver.Reconciler.Cycle.Traced.{IsFrom, discover_sources, discover_sources-IsFrom}
use package.dnsweaver.Tests.Backend.{hostname}

abbrev container : String → Workload
container enabled = record {
  id = "1";
  name = "web";
  namespace = "";
  labels = ("dnsweaver.enabled", enabled) ∷ [];
  annotations = [];
  platform = "docker";
  kind = "container";
  hostnames = [];
  metadata = [];
}

abbrev labels_source : Source
labels_source = record {
  name = "labels";
  extract = λ w. ok (hostname "a.example.com" ∷ hostname "-bad-" ∷ []);
  discover = ok (hostname "b.example.com" ∷ []);
  supports_discovery = true;
  supported_platforms = "docker" ∷ [];
}

abbrev sources : Registry
sources = (register labels_source new_registry).1

opted_out : extract_all sources (container " FALSE ") ≡ []
unfolding extract_all is_workload_disabled dnsweaver.Base.Map.lookup dnsweaver.Base.to_lower
    dnsweaver.Base.Blanks.trim_space dnsweaver.Base.lower_char
opted_out = refl

discover_sources-IsFrom_example :
    All
      (IsAccepted (IsFrom sources (container "true" ∷ container "false" ∷ [])))
      (discover_sources sources (container "true" ∷ container "false" ∷ [])).hostnames
discover_sources-IsFrom_example =
    discover_sources-IsFrom sources (container "true" ∷ container "false" ∷ [])
