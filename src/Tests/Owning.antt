-- ===== src/Tests/Owning.antt =====
-- Tests of the ownership values and of the patterns.
use dnsweaver.Hostname.Validation.{
  validate_hostname, validate_srv_hostname, split_dots, byte_length, HostnameValidationError,
  invalid_label_end,
}
use dnsweaver.Hostname.Validation.Accepted.{AreLabels, AreServiceLabels, validators_iff}
use dnsweaver.Base.{
  ◌≤◌, ◌==◌, trim_dot, String, ◌≡◌, ◌↔◌, refl, true, false, Option, none, some, List, [], ◌∷◌, All,
  if◌then◌else◌, arith,
}
use dnsweaver.Base.Map.{lookup}
use dnsweaver.Hostname.{normalize_hostname}
use dnsweaver.Matcher.{matches}
use dnsweaver.Provider.Ownership.{
  parse_ownership_value, make_ownership_value, matches_ownership, is_reserved, ownership_record,
}
use dnsweaver.Provider.Ownership.RoundTrip.{parse-make, matches-make}
use dnsweaver.Provider.Instance.{recovered_hostnames, matches_with_metadata}
use dnsweaver.Provider.Instance.Recovery.{recovered-written}
use dnsweaver.Provider.Instance.Filters.{claims_iff, IsAllowed}
use package.dnsweaver.Tests.Backend.{everything, instance_of}

parse-make_example :
    let o = parse_ownership_value (make_ownership_value "one" (("zone", "lan") ∷ [])) in
    (o.is_owned ≡ true)
    × (o.instance_id ≡ "one")
    × ((k : String)
        → lookup k o.metadata ≡ (if is_reserved k then none else lookup k (("zone", "lan") ∷ [])))
parse-make_example = parse-make "one" (("zone", "lan") ∷ []) (ground arith) (ground arith)

matches-make_example :
    matches_ownership (make_ownership_value "one" (("zone", "lan") ∷ [])) "two" ≡ false
matches-make_example = matches-make "one" "two" (("zone", "lan") ∷ []) (ground arith) (ground arith)

recovered-written_example :
    recovered_hostnames "one"
      (ownership_record "a.example.com" 300 "one" (("zone", "lan") ∷ []) ∷ [])
    ≡ record { hostname = "a.example.com"; metadata = ("zone", "lan") ∷ [] } ∷ []
unfolding parse_ownership_value dnsweaver.Provider.Ownership.Parts.strip_prefix make_ownership_value
    lookup dnsweaver.Provider.Ownership.Parts.split dnsweaver.Provider.Ownership.Parts.split_pair
    dnsweaver.Base.Map.insert
recovered-written_example =
    recovered-written "a.example.com" 300 "one" (("zone", "lan") ∷ []) refl (ground arith)
      (ground arith)

claims_iff_example :
    (matches_with_metadata (instance_of true) "a.example.com" (("entrypoint", "web") ∷ []) ≡ true)
    ↔ ((matches everything "a.example.com" ≡ true)
        × All (IsAllowed (("entrypoint", "web") ∷ [])) (("entrypoint", "web" ∷ []) ∷ []))
claims_iff_example = claims_iff (instance_of true) "a.example.com" (("entrypoint", "web") ∷ [])

validators_iff_example :
    ((validate_hostname "_sip._udp.example" ≡ none) ↔ (
      ((trim_dot "_sip._udp.example" == "") ≡ false)
      × (byte_length (trim_dot "_sip._udp.example") ≤ 253)
      × AreLabels (split_dots (trim_dot "_sip._udp.example"))))
    × ((validate_srv_hostname "_sip._udp.example" ≡ none) ↔ (
        ((trim_dot "_sip._udp.example" == "") ≡ false)
        × (byte_length (trim_dot "_sip._udp.example") ≤ 253)
        × AreServiceLabels (split_dots (trim_dot "_sip._udp.example"))))
validators_iff_example = validators_iff "_sip._udp.example"

accepts : validate_hostname "*.a-b.example." ≡ none
unfolding validate_hostname trim_dot byte_length split_dots
    dnsweaver.Hostname.Validation.label_matches
accepts = refl

refuses :
    validate_hostname "a-.example"
    ≡ some (record { hostname = "a-.example"; label = "a-"; reason = invalid_label_end })
unfolding validate_hostname trim_dot byte_length split_dots
    dnsweaver.Hostname.Validation.label_matches
refuses = refl
