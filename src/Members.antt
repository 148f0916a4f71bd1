-- ===== src/Members.antt =====
-- The members of a company: src/modules/organizations/companyMembersRepository.js and
-- companyMembersService.js.
pub mod Team
pub mod Changes
pub mod Invariant
pub mod Admins
pub mod Access
pub mod Tenants
mod Tests
