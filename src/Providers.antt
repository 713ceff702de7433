-- ===== src/Providers.antt =====
-- The modules of providers/: the seam between the harvester and a provider, and the adapters.
pub mod Interface
pub mod Candidates
pub mod Common
pub mod Kolada
pub mod PxWebV1
pub mod PxWebV2
