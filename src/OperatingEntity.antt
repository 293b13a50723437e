-- ===== src/OperatingEntity.antt =====
-- modules/operating-entity: the migration of a binding from one operating entity to another.
pub mod Migration
pub mod Workflow
pub mod History
pub mod Requests
pub mod Completed
mod Tests
