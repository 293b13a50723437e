-- ===== src/Identity.antt =====
-- modules/identity: sessions, refresh tokens and their families.
pub mod Session
pub mod Store
pub mod Refresh
pub mod Steps
pub mod WellFormed
pub mod Hashes
pub mod Once
pub mod Exchange
pub mod Binding
pub mod Lifecycle
pub mod Replaced
pub mod Switched
mod Tests
