-- ===== src/Providers.antt =====
-- The DNS providers of the repository.
pub mod Rfc2136
