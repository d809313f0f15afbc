-- ===== src/Errors.antt =====
-- The errors package: kinds, the registry, errors and their transfer.
pub mod Kind
pub mod Primitive
pub mod Store
pub mod ErrorT
pub mod Failure
pub mod Caller
pub mod Chain
pub mod Dto
pub mod Status
pub mod Registry
pub mod Catalog
pub mod Set
mod Tests
