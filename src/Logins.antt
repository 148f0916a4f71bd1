-- ===== src/Logins.antt =====
-- Signing in, refreshing, signing out, verified addresses and invitations:
-- src/modules/auth/authSessionService.js, sessionContextService.js, verificationService.js and
-- verificationRepository.js.
pub mod Context
pub mod Flow
pub mod Access
pub mod Granted
pub mod Renewed
pub mod SignOut
pub mod Verification
pub mod Invited
pub mod Confirmed
mod VerificationTests
mod Tests
