-- ===== src/Policy.antt =====
-- packages/jurisdiction-policy: typed policy packs, their validation and life cycle, and the one
-- resolution that use cases consult.
pub mod Decision
pub mod Strategies
pub mod Pack
pub mod Lifecycle
pub mod Validation
pub mod Query
pub mod Effective
mod Tests
