-- ===== src/Providers/PxWebV1.antt =====
-- The PxWeb v1 adapter (providers/adapters/pxweb_v1).
pub mod Names
pub mod Html
pub mod Crawl
pub mod Web
pub mod Listing
pub mod Languages
pub mod Listed
mod Tests
pub mod Walked
pub mod Known
pub mod Crawled
pub mod Sample
pub mod Sampled
pub mod Discovery
pub mod Grouped
pub mod Discovered
pub mod Variables
pub mod Read
pub mod Declared
