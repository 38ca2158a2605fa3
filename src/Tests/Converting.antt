-- ===== src/Tests/Converting.antt =====
-- A concrete record for providers/rfc2136/provider.go.
use dnsweaver.Base.{trim_dot, ◌≡◌, refl, some, [], arith}
use dnsweaver.Provider.Record as provider
use dnsweaver.Provider.Record.{RecordType, SrvData, new_record}
use dnsweaver.DnsUpdate.Record.{has_suffix}
use dnsweaver.Base.Chain.{◌>>=◌}
use dnsweaver.Providers.Rfc2136.{to_rfc2136_record, from_rfc2136_record}
use dnsweaver.Providers.Rfc2136.Conversion.{from_rfc2136_record-to_rfc2136_record, kept, map_kept}

abbrev service : provider.Record
service =
    new_record "sip.example.com" RecordType.srv "host.example.com" 300
      (some (record { priority = 1; weight = 2; port = 5060 })) []

from_rfc2136_record-to_rfc2136_record_example :
    map_kept kept (to_rfc2136_record "example.com." 60 service >>= from_rfc2136_record)
    ≡ some (kept service)
unfolding has_suffix trim_dot
from_rfc2136_record-to_rfc2136_record_example =
    from_rfc2136_record-to_rfc2136_record "example.com." 60 service refl refl refl (ground arith)
      (ground arith) refl
