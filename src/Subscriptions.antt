-- ===== src/Subscriptions.antt =====
-- The plan of a company and its payments: src/services/subscriptionService.js and the files of
-- src/services/subscriptionService.
pub mod Plans
pub mod Settled
pub mod Payments
pub mod Upgrade
pub mod Moves
pub mod Charges
pub mod Resolved
pub mod Paid
pub mod Offered
mod Tests
mod PaymentTests
