-- ===== src/Tests/Comparing.antt =====
-- Tests of the comparison of records.
use dnsweaver.Base.{String, ◌≡◌, refl, Option, none, some, List, [], ◌∷◌}
use dnsweaver.Provider.Record.{Record, RecordType, SrvData}
use dnsweaver.Reconciler.Comparison.{compare_record_sets, record_key}
use dnsweaver.Base.Map.{lookup}
use package.dnsweaver.Tests.Backend.{address}

abbrev before : List Record
before = address "a.example.com" "10.0.0.1" ∷ address "b.example.com" "10.0.0.1" ∷ []

abbrev after : List Record
after =
    address "A.example.com" "10.0.0.2"
    ∷ record (address "b.example.com" "10.0.0.1") { ttl = 60 }
    ∷ []

service : Record
service = record (address "_sip._udp.example.com" "sip.example.com") {
  type = RecordType.srv;
  srv = some (record { priority = 10; weight = 0; port = 5060 });
}

service_key : record_key service ≡ "_sip._udp.example.com|SRV|sip.example.com|10:0:5060"
unfolding record_key dnsweaver.Hostname.normalize_hostname dnsweaver.Base.to_lower
    dnsweaver.Base.trim_dot service dnsweaver.Base.lower_char dnsweaver.Provider.Record.type_text
service_key = refl

-- another target is a create and a delete
moved : compare_record_sets before after ≡ record {
  to_create = address "A.example.com" "10.0.0.2" ∷ [];
  to_update =
      record {
        existing = address "b.example.com" "10.0.0.1";
        desired = record (address "b.example.com" "10.0.0.1") { ttl = 60 };
      }
      ∷ [];
  to_delete = address "a.example.com" "10.0.0.1" ∷ [];
  unchanged = [];
}
unfolding compare_record_sets dnsweaver.Base.Map.insert dnsweaver.Hostname.normalize_hostname
    dnsweaver.Base.to_lower dnsweaver.Base.trim_dot dnsweaver.Base.lower_char
    dnsweaver.Provider.Record.type_text dnsweaver.Base.Map.lookup
moved = refl
