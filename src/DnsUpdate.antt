-- ===== src/DnsUpdate.antt =====
-- pkg/dnsupdate: the client for RFC 2136 updates, and the catalog of hostnames that it keeps in the
-- zone.
pub mod Record
pub mod Client
pub mod Catalog
