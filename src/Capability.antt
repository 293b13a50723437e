-- ===== src/Capability.antt =====
-- modules/capability/domain: which capabilities a subject may use, and what a client is told.
pub mod AvailabilityState
pub mod DenialReason
pub mod Entitlement
pub mod Facts
pub mod Gates
pub mod Resolution
pub mod ClientView
