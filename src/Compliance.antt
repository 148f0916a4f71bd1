-- ===== src/Compliance.antt =====
-- The documents that a product needs before it is published on the domestic market:
-- src/services/domesticComplianceService.js, with src/utils/companyMarkets.js and
-- src/constants/targetMarkets.js.
pub mod Markets
pub mod Documents
pub mod Links
pub mod Required
pub mod Placeholders
pub mod Publish
pub mod Tests
