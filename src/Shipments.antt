-- ===== src/Shipments.antt =====
-- The simulated course of a shipment (src/services/shipmentSimulationService.js): the business
-- calendar, the arrival that is computed on it, and the status that follows from the time.
pub mod Calendar
pub mod Grid
pub mod Normalize
pub mod Allocate
pub mod Status
pub mod Course
pub mod Rebuild
mod Tests
