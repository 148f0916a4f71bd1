-- ===== src/Mfa.antt =====
-- The second factor of sign-in: src/modules/auth/mfaService.js.
pub mod Factors
pub mod History
pub mod Active
pub mod Challenges
pub mod Operations
pub mod Confirmation
pub mod Recovery
pub mod Base32
pub mod RoundTrip
mod Tests
mod TextTests
