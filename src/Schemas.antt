-- ===== src/Schemas.antt =====
-- schemas/: the documents that the harvester accepts and stores.
pub mod Contracts
pub mod Dimensions
pub mod Ordinals
pub mod Datasets
pub mod Roles
pub mod Documents
pub mod Valid
