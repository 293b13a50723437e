-- ===== src/Capability/Entitlement.antt =====
-- modules/capability/domain/entitlement.ts: a tenant's entitlement to a capability.
use karar_flutter_version.Prelude.{ℕ, String, Bool, true, false, ◌&&◌, Option, window_covers}

pub data EntitlementStatus : Type 0 where
  active revoked expired : EntitlementStatus

pub record TenantCapabilityEntitlement : Type 0 where
  pub id : String
  pub tenant_id : String
  pub capability_id : String
  pub status : EntitlementStatus
  pub source_ref : String
  pub reason : String
  pub actor_ref : String
  pub effective_from : ℕ
  pub effective_to : Option ℕ
  pub version : ℕ

pub is_active : EntitlementStatus → Bool
is_active active = true
is_active _ = false

-- The three fields are those that the source picks from an entitlement.
unfoldable pub entitlement_satisfies_at : EntitlementStatus → ℕ → Option ℕ → ℕ → Bool
unfolding is_active
entitlement_satisfies_at status effective_from effective_to at =
    is_active status && window_covers effective_from effective_to at
