-- ===== src/Lib.antt =====
-- dnsweaver keeps DNS records in step with running workloads: it lists the workloads of its
-- platforms, takes hostnames out of their labels, and creates, updates and deletes records at DNS
-- providers so that they match. This library models the part that decides what to do.
--
-- The parts, and the files that model them:
--   Hostname      pkg/source/hostname.go: hostnames, their hints, their canonical form and, in
--                 Validation, which of them are accepted.
--   Matcher       internal/matcher/matcher.go: the patterns by which a provider claims hostnames.
--   Provider      pkg/provider: Record (records and capabilities), Failure (the sentinel errors),
--                 Mode, Ownership (the TXT markers by which dnsweaver knows its own records),
--                 Interface (the interface Provider, and the state), Instance (a provider with its
--                 patterns and target), Config (its configuration), Registry (all of them) and
--                 Manager (manager.go: the start of providers, with retries).
--   DnsUpdate     pkg/dnsupdate: Record (record.go), Client (client.go) and Catalog (catalog.go: the
--                 hostnames that are kept in the zone, its loads in Stored, its operations in
--                 Changing), which the provider for RFC 2136 lists its hostnames with.
--   Providers     providers: Rfc2136 (rfc2136/provider.go: the conversions of records, List in Listing,
--                 Create, Update and Delete in Writing), over DnsUpdate.
--   Source        pkg/source/source.go and registry.go, pkg/workload: the workloads, the sources and
--                 their registry. `Reconciler.Cycle.Traced` puts it before the cycle.
--   Labels        sources/dnsweaver: Parser (parser.go) over Keys, Numbers and Named, and the source
--                 in Native (dnsweaver.go).
--   Target        internal/target: Parse (target.go), and the refresher in Refresh (refresh.go).
--   Config        internal/config: the validation (validate.go) in Validation.
--   Reconciler    internal/reconciler: Cache (cache.go), Ensure and Route (actions.go), Orphan
--                 (orphan.go), Result (result.go), Cycle and Startup (reconciler.go), Comparison
--                 (comparison.go).
--   Base          shared helpers: lists by Boolean tests, Go's maps, Go's string functions.
--   Tests         the theorems at concrete inputs, with a provider that keeps a list of records.
-- The files below a part prove what its operations do.
--
-- How they interact: `reconcile` (Reconcile) extracts the hostnames, builds a cache with one listing
-- of each provider, ensures the records of each hostname at the instances that claim it, cleans up
-- the hostnames that are gone, and remembers what it found. Everything that it does to a provider
-- goes through the instance's operations, and these through the interface.
--
-- How state is modelled: an operation is a function on `System`, which holds the fields of
-- `Reconciler` that change (knownHostnames, hostnameProviders, recoveredMetadata), what the
-- providers store, as an abstract type, and the list of all calls made to providers, the last one
-- first. A provider's operations are fields of a record and may answer anything; no law is assumed
-- of them. A Go map is a list of pairs, iterated in the order of insertion, where Go leaves the
-- order open. A nil pointer, a nil cache and a nil error are `none`. The loops are over lists and
-- texts. Fuel is used to print a number of an SRV record, a uint16, with five digits, and for the
-- loop that loads the catalog, which asks for one chunk after the other until one is not there; more
-- rounds than there are chunks are enough. The runs of the manager and of the refresher of a target are step relations. The catalog's
-- operations are functions on its cached state and on the state of the DNS server.
--
-- Parameters: regexp.Compile (Matcher, Config), net.ParseIP (Provider.Config, Config), the factories and the
-- providers, the hostnames that the sources extract from the workloads during a cycle, the clock,
-- the pings and the product of a retry interval with its multiplier (Provider.Manager), and the
-- exchange of a message with the DNS server (DnsUpdate.Client).
--
-- Not modelled: locks and contexts (each operation runs alone), logging and metrics, the HTTP and
-- TLS settings of a factory, the other sources, the reading of the configuration, and the clients of
-- the other DNS providers and of the platforms, which are network I/O. Lower case is that of ASCII
-- letters, and a blank is one of ASCII. A TTL is a natural number.
pub mod Base
pub mod Hostname
pub mod Source
pub mod Labels
pub mod Matcher
pub mod Provider
pub mod DnsUpdate
pub mod Providers
pub mod Target
pub mod Config
pub mod Reconciler
pub mod Tests
