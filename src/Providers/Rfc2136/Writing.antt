-- ===== src/Providers/Rfc2136/Writing.antt =====
-- `Create`, `Delete` and `Update` of providers/rfc2136/provider.go. `W` is the state of the server; an
-- operation gives back `none` if the load of the catalog has not ended.
use Prim.Native.String.{◌++◌ as append}
use dnsweaver.Base.{ℕ, String, Option, none, some, if◌then◌else◌, is_some}
use dnsweaver.Provider.Record as provider
use dnsweaver.Provider.Failure.{Error}
use dnsweaver.Provider.Ownership.{extract_hostname}
use dnsweaver.DnsUpdate.Client.{ClientError, Outcome, Message, Response, query}
use dnsweaver.DnsUpdate.Client as Client
use dnsweaver.DnsUpdate.Catalog.{Catalog}
use dnsweaver.DnsUpdate.Catalog.Stored.{Done}
use dnsweaver.DnsUpdate.Catalog.Changing as Changing
use package.dnsweaver.Providers.Rfc2136.{to_rfc2136_record}
use package.dnsweaver.Providers.Rfc2136.Listing.{failed}

-- the error, and the catalog with the server
abbrev pub Written : Type 0 → Type 0
Written W = Option Error × (Catalog × W)

module _ {W : Type 0} where
  -- an error of the catalog is only logged
  logged : Done W → Written W
  logged (_, c, w) = (none, (c, w))

  -- a load that has not ended
  ended : Option (Done W) → Option (Written W)
  unfolding logged
  ended none = none
  ended (some done) = some (logged done)

  abbrev stopped : String → Catalog × W → Option (Written W)
  stopped message state = some (some (failed message), state)

module _ {W : Type 0} (exchange : Message → W → Outcome Response × W) (zone : String) (ttl : ℕ)
    (parse_ipv4 parse_ipv6 : String → Option String)
    (caa_parts : String → Option (ℕ × String × String)) (decimal chunk_record_name : ℕ → String)
    (fuel : ℕ) where
  created : String → Catalog → Option ClientError × W → Option (Written W)
  unfolding ended
  created hostname c (some e, w) = stopped (append "creating record " hostname) (c, w)
  created hostname c (none, w) =
      if is_some (extract_hostname hostname)
      then some (none, (c, w))
      else ended
          (Changing.add (query exchange decimal) exchange zone chunk_record_name fuel hostname c w)

  -- `Create`
  pub create : provider.Record → Catalog × W → Option (Written W)
  unfolding created
  create r (c, w) = elim (to_rfc2136_record zone ttl r) [
    | none ↦ stopped "converting record" (c, w)
    | some x ↦
        created r.hostname c (Client.create exchange zone parse_ipv4 parse_ipv6 caa_parts x w)
  ]

  deleted : String → Catalog → Option ClientError × W → Option (Written W)
  unfolding ended
  deleted hostname c (some e, w) = stopped (append "deleting record " hostname) (c, w)
  deleted hostname c (none, w) =
      if is_some (extract_hostname hostname)
      then some (none, (c, w))
      else ended
          (Changing.remove (query exchange decimal) exchange zone chunk_record_name fuel hostname w)

  -- `Delete`
  pub delete : provider.Record → Catalog × W → Option (Written W)
  unfolding deleted
  delete r (c, w) = elim (to_rfc2136_record zone ttl r) [
    | none ↦ stopped "converting record" (c, w)
    | some x ↦
        deleted r.hostname c (Client.delete exchange zone parse_ipv4 parse_ipv6 caa_parts x w)
  ]

  updated : String → Catalog → Option ClientError × W → Option (Written W)
  updated hostname c (some e, w) = stopped (append "updating record " hostname) (c, w)
  updated hostname c (none, w) = some (none, (c, w))

  -- `Update`: the catalog is not touched
  pub update : provider.Record → provider.Record → Catalog × W → Option (Written W)
  unfolding updated
  update existing desired (c, w) = elim (to_rfc2136_record zone ttl existing) [
    | none ↦ stopped "converting existing record" (c, w)
    | some old ↦ elim (to_rfc2136_record zone ttl desired) [
      | none ↦ stopped "converting desired record" (c, w)
      | some new ↦
          updated existing.hostname c
            (Client.update_record exchange zone parse_ipv4 parse_ipv6 caa_parts old new w)
    ]
  ]
