-- ===== src/Labels/Native.antt =====
-- sources/dnsweaver/dnsweaver.go: the source over the parser.
use Prim.Native.String.{◌++◌ as append}
use dnsweaver.Base.{String, false, Option, none, some, List, [], ◌∷◌, if◌then◌else◌, ◌==◌, map}
use dnsweaver.Base.Map.{Map, insert}
use dnsweaver.Hostname.{Hostname, RecordHints, SrvHints}
use dnsweaver.Provider.Ownership.Parts.{strip_prefix}
use dnsweaver.Source.{Workload, Source, ok}
use package.dnsweaver.Labels.{SrvData, Extraction, has_hints}
use package.dnsweaver.Labels.Parser.{extract_hostnames}

-- one annotation as a label
abbrev pub converted : Option String → String → Map String → Map String
converted none value labels = labels
converted (some key) value labels = insert (append "dnsweaver." key) value labels

unfoldable pub convert : Map String → Map String → Map String
convert [] labels = labels
convert ((key, value) ∷ annotations) labels =
    convert annotations (converted (strip_prefix "dnsweaver.dev/" key) value labels)

-- the labels that win
unfoldable pub merge : Map String → Map String → Map String
merge [] merged = merged
merge ((key, value) ∷ labels) merged = merge labels (insert key value merged)

-- without an annotation of this program the labels are taken as they are
abbrev pub merged : Map String → Map String → Map String
merged labels [] = labels
merged labels (entry ∷ entries) = merge labels (entry ∷ entries)

-- `effectiveLabels`
unfoldable pub effective_labels : Workload → Map String
unfolding convert merge
effective_labels w =
    if w.platform == "kubernetes" then merged w.labels (convert w.annotations []) else w.labels

unfoldable pub srv_hints : Option SrvData → Option SrvHints
srv_hints none = none
srv_hints (some s) = some (record { priority = s.priority; weight = s.weight; port = s.port })

unfoldable pub hints : Extraction → Option RecordHints
unfolding has_hints srv_hints
hints e =
    if has_hints e
    then some (record {
      type = e.type;
      target = e.target;
      ttl = e.ttl;
      provider = e.provider;
      srv = srv_hints e.srv;
      metadata = e.metadata;
    })
    else none

unfoldable pub to_hostname : Extraction → Hostname
unfolding hints
to_hostname e = record {
  name = e.hostname;
  source = "dnsweaver";
  router = e.record_name;
  record_hints = hints e;
  metadata = [];
}

-- `Extract`
unfoldable pub extract : Workload → List Hostname
unfolding to_hostname effective_labels
extract w = map to_hostname (extract_hostnames (effective_labels w))

-- the source
abbrev pub native_source : Source
native_source = record {
  name = "dnsweaver";
  extract = λ w. ok (extract w);
  discover = ok [];
  supports_discovery = false;
  supported_platforms = [];
}
