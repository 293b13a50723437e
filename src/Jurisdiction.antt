-- ===== src/Jurisdiction.antt =====
-- modules/jurisdiction/domain: which legal regime governs a user or a tenant.
pub mod Assignment
