-- ===== src/Sessions.antt =====
-- Refresh tokens and the sessions that they keep alive: src/modules/auth/refreshTokenRepository.js,
-- src/modules/auth/refreshSessionService.js and src/modules/auth/authSessionService.js.
pub mod Tokens
pub mod Invariant
pub mod Revocation
pub mod Rotation
mod Tests
