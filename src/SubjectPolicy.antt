-- ===== src/SubjectPolicy.antt =====
-- modules/subject-policy/domain: which profile option a subject elected, and when it governs.
pub mod Selection
