-- ===== src/Provider.antt =====
-- pkg/provider: the data of DNS records, the interface that a provider implements, the ownership
-- records, and the provider instances with their registry.
pub mod Record
pub mod Failure
pub mod Mode
pub mod Ownership
pub mod Interface
pub mod Instance
pub mod Config
pub mod Registry
pub mod Manager
