-- ===== src/Tests.antt =====
-- The theorems at concrete inputs.
pub mod Backend
mod Reconciling
mod Cleaning
mod Owning
mod Registering
mod Managing
mod Comparing
mod Cataloguing
mod Converting
mod Extracting
mod Labelling
mod Configuring
