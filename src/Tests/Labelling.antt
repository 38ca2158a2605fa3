-- ===== src/Tests/Labelling.antt =====
-- Concrete labels.
use dnsweaver.Base.{String, ◌≡◌, refl, none, some, List, [], ◌∷◌, All, map}
use dnsweaver.Labels.{Extraction}
use dnsweaver.Labels.Parser.{extract_hostnames}
use dnsweaver.Hostname.{Hostname}
use dnsweaver.Labels.Native.{extract}
use dnsweaver.Labels.Fitting.{IsUsable, extract-IsUsable}
use dnsweaver.Source.{Workload}

abbrev service : Workload
service = record {
  id = "1";
  name = "sip";
  namespace = "default";
  labels = [];
  annotations =
      ("dnsweaver.dev/hostname", " a.example.com ")
      ∷ ("dnsweaver.dev/ttl", "300")
      ∷ ("dnsweaver.dev/records.sip.hostname", "_sip._tcp.example.com")
      ∷ ("dnsweaver.dev/records.sip.Port", "5060")
      ∷ ("dnsweaver.dev/records.sip.weight", "70000")
      ∷ ("dnsweaver.dev/records.sip.meta.zone", "lan")
      ∷ [];
  platform = "kubernetes";
  kind = "service";
  hostnames = [];
  metadata = [];
}

extract-IsUsable_example : All IsUsable (extract service)
extract-IsUsable_example = extract-IsUsable service

abbrev found : List Hostname
found =
    record {
      name = "a.example.com";
      source = "dnsweaver";
      router = "";
      record_hints =
          some (record {
            type = "";
            target = "";
            ttl = 300;
            provider = "";
            srv = none;
            metadata = [];
          });
      metadata = [];
    }
    ∷ record {
      name = "_sip._tcp.example.com";
      source = "dnsweaver";
      router = "sip";
      record_hints = some (record {
        type = "";
        target = "";
        ttl = 0;
        provider = "";
        srv = some (record { priority = 0; weight = 0; port = 5060 });
        metadata = ("zone", "lan") ∷ [];
      });
      metadata = [];
    }
    ∷ []

read : extract service ≡ found
unfolding extract dnsweaver.Labels.Native.convert dnsweaver.Labels.Native.merge
    dnsweaver.Labels.Parser.extract_hostnames dnsweaver.Labels.Parser.simple_extractions
    dnsweaver.Labels.Named.collect dnsweaver.Labels.Named.named_extractions
    dnsweaver.Labels.Keys.named_record_key dnsweaver.Base.Map.lookup dnsweaver.Base.Map.insert
    dnsweaver.Base.Blanks.trim_space dnsweaver.Labels.Numbers.positive_atoi
    dnsweaver.Labels.Keys.is_field dnsweaver.Base.to_lower dnsweaver.Base.lower_char
    dnsweaver.Base.to_upper dnsweaver.Labels.Numbers.parse_uint16
read = refl
