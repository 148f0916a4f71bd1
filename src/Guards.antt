-- ===== src/Guards.antt =====
-- What a request passes before a handler runs: src/middleware/auth.js, tenantAccess.js and
-- subscriptionAccess.js.
pub mod Request
pub mod Access
pub mod Passage
pub mod Membership
pub mod Routes
pub mod Agreed
mod Tests
