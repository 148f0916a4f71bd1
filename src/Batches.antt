-- ===== src/Batches.antt =====
-- The batches of products that a company ships: src/modules/assessments/batchesService.js.
pub mod Tables
pub mod Items
pub mod Legs
pub mod Publish
pub mod Products
pub mod Swept
pub mod Steps
pub mod History
pub mod Frozen
pub mod Published
pub mod Weights
pub mod Listing
pub mod Tallied
mod Tests
