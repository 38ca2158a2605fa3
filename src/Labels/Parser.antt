-- ===== src/Labels/Parser.antt =====
-- `ExtractHostnames` of sources/dnsweaver/parser.go.
use dnsweaver.Base.{String, Option, none, some, List, [], ◌∷◌, ◌++◌, if◌then◌else◌, ◌==◌}
use dnsweaver.Base.Blanks.{trim_space}
use dnsweaver.Base.Map.{Map, lookup}
use dnsweaver.Provider.Ownership.Parts.{split}
use dnsweaver.Source.Registry.{is_opt_out}
use package.dnsweaver.Labels.{Extraction}
use package.dnsweaver.Labels.Named.{field, ttl_of, proxied_of, collect, named_extractions}

-- a hostname without a record of its own, with the TTL and the metadata of the workload
abbrev pub simple_extraction : Map String → String → Extraction
simple_extraction labels hostname = record {
  hostname = hostname;
  record_name = "";
  type = "";
  target = "";
  provider = "";
  ttl = ttl_of (trim_space (field "dnsweaver.ttl" labels));
  srv = none;
  metadata = proxied_of (field "dnsweaver.proxied" labels);
}

-- the label for one hostname, and the parts of that for several: an empty one is skipped
unfoldable pub simple_extractions : Map String → List String → List Extraction
simple_extractions labels [] = []
simple_extractions labels (h ∷ hs) =
    let rest = simple_extractions labels hs in
    if trim_space h == "" then rest else simple_extraction labels (trim_space h) ∷ rest

abbrev pub one_hostname : Option String → List String
one_hostname none = []
one_hostname (some h) = h ∷ []

abbrev pub listed_hostnames : Option String → List String
listed_hostnames none = []
listed_hostnames (some hostnames) = split hostnames

-- `ExtractHostnames`
unfoldable pub extract_hostnames : Map String → List Extraction
unfolding simple_extractions collect named_extractions
extract_hostnames labels =
    if is_opt_out (lookup "dnsweaver.enabled" labels)
    then []
    else simple_extractions labels (one_hostname (lookup "dnsweaver.hostname" labels))
      ++ simple_extractions labels (listed_hostnames (lookup "dnsweaver.hostnames" labels))
      ++ named_extractions (collect labels [])
