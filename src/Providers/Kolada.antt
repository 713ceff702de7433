-- ===== src/Providers/Kolada.antt =====
-- The Kolada adapter (providers/adapters/kolada).
pub mod Batches
pub mod Metadata
pub mod Parsing
pub mod Catalogue
pub mod Presence
pub mod Dimensions
mod Numbered
pub mod Built
pub mod Client
pub mod Pages
pub mod Indicators
pub mod Probe
pub mod Adapter
pub mod Selected
pub mod Listed
pub mod Resolve
pub mod Resolved
mod Tests
