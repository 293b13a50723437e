-- ===== src/Tenancy.antt =====
-- modules/tenancy: the invitations that make an authenticated user a member of a tenant.
pub mod Invitation
pub mod Spent
pub mod Redeemed
mod Tests
