-- ===== src/Providers/Rfc2136/Listing.antt =====
-- `List` of providers/rfc2136/provider.go. `W` is the state of the server; an operation gives back
-- `none` if the load of the catalog has not ended. The client and the catalog are always there.
use Prim.Native.String.{◌++◌ as append}
use dnsweaver.Base.{ℕ, String, ◌&&◌, Option, none, some, List, [], ◌∷◌, ◌++◌, if◌then◌else◌}
use dnsweaver.Provider.Record as provider
use dnsweaver.Provider.Record.{RecordType}
use dnsweaver.Provider.Failure.{Error, unclassified, Result, ok, err}
use dnsweaver.Provider.Ownership.{ownership_record_name, parse_ownership_value}
use dnsweaver.DnsUpdate.Record.{RrType, Record, same_type}
use dnsweaver.DnsUpdate.Client.{Outcome, Message, Response, query}
use dnsweaver.DnsUpdate.Catalog.{Catalog}
use dnsweaver.DnsUpdate.Catalog.Changing as Changing
use package.dnsweaver.Providers.Rfc2136.{ensure_fqdn, from_rfc2136_record}

-- the errors of the operations, none of which wraps a sentinel of pkg/provider
pub failed : String → Error
failed message = record { kind = unclassified; message = message }

module _ {W : Type 0} (exchange : Message → W → Outcome Response × W) (zone : String)
    (decimal : ℕ → String) where
  -- the first ownership record among those that were found
  owned_record : String → List Record → List provider.Record
  owned_record hostname [] = []
  owned_record hostname (r ∷ rs) =
      let later = owned_record hostname rs in
      if same_type r.type RrType.txt && (parse_ownership_value r.rdata).is_owned
      then record {
        hostname = ownership_record_name hostname;
        type = RecordType.txt;
        target = r.rdata;
        ttl = r.ttl;
        provider_id =
            append (ensure_fqdn zone (ownership_record_name hostname)) (append ":TXT:" r.rdata);
        srv = none;
        https = none;
        metadata = [];
      }
        ∷ []
      else later

  -- what cannot be converted is skipped
  converted : List Record → List provider.Record
  unfolding from_rfc2136_record
  converted [] = []
  converted (r ∷ rs) =
      let rest = converted rs in elim (from_rfc2136_record r) [ none ↦ rest | some x ↦ x ∷ rest ]

  -- a query that failed is skipped
  abbrev or_none :
      (List Record → List provider.Record) → Outcome (List Record) → List provider.Record
  or_none f (Outcome.ok rs) = f rs
  or_none f (Outcome.err e) = []

  -- the records of a hostname of these types
  records_of_types : String → List RrType → W → List provider.Record × W
  unfolding converted
  records_of_types hostname [] w = ([], w)
  records_of_types hostname (t ∷ ts) w =
      let (answer, w') = query exchange decimal (ensure_fqdn zone hostname) t w in
      let (rest, w'') = records_of_types hostname ts w' in (or_none converted answer ++ rest, w'')

  abbrev queried_types : List RrType
  queried_types = RrType.a ∷ RrType.aaaa ∷ RrType.cname ∷ RrType.srv ∷ []

  -- the loop of `List`
  records_of_each : List String → W → List provider.Record × W
  unfolding owned_record records_of_types
  records_of_each [] w = ([], w)
  records_of_each (hostname ∷ hostnames) w =
      let (answer, w1) =
        query exchange decimal (ensure_fqdn zone (ownership_record_name hostname)) RrType.txt w in
      let (found, w2) = records_of_types hostname queried_types w1 in
      let (rest, w3) = records_of_each hostnames w2 in
      (or_none (owned_record hostname) answer ++ found ++ rest, w3)

  listed : Outcome (List String) × Catalog × W → Result (List provider.Record) × (Catalog × W)
  unfolding records_of_each failed
  listed (Outcome.err e, c, w) = (err (failed "loading catalog"), (c, w))
  listed (Outcome.ok hostnames, c, w) =
      let (records, w') = records_of_each hostnames w in (ok records, (c, w'))

  -- `List`
  pub list : (ℕ → String) → ℕ → Catalog × W → Option (Result (List provider.Record) × (Catalog × W))
  unfolding listed
  list chunk_record_name fuel (c, w) =
      elim (Changing.hostnames (query exchange decimal) chunk_record_name fuel c w) [
        | none ↦ none
        | some answer ↦ some (listed answer)
      ]
