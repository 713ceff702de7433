-- ===== src/Providers/PxWebV2.antt =====
-- The PxWeb v2 adapter (providers/adapters/pxweb_v2).
pub mod Paths
pub mod Contacts
pub mod Roles
pub mod Categories
pub mod Dimensions
pub mod Built
pub mod Declared
pub mod Tables
pub mod Payload
pub mod Discovery
pub mod Expected
pub mod Pages
pub mod Resolve
pub mod Resolved
mod Tests
