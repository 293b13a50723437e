-- ===== src/Capability/Facts.antt =====
-- modules/capability/domain/resolution.ts, the snapshot that the gates read.
use karar_flutter_version.Prelude.{ℕ, String, Bool, List, Option}
use karar_flutter_version.Capability.AvailabilityState.{AvailabilityState}
use karar_flutter_version.Capability.Entitlement.{EntitlementStatus}

pub record DescriptorFacts : Type 0 where
  pub implemented : Bool
  pub deployed_in_environment : Bool
  pub declared_scope_refs : List String

pub data ProcessingBasisFacts : Type 0 where
  consent : String → ProcessingBasisFacts
  declared_basis : String → ProcessingBasisFacts
  unresolved : ProcessingBasisFacts

pub record ClearedCapabilityFacts : Type 0 where
  pub capability_id : String
  pub resolution_strategy_ref : String
  pub requires_verified_assignment : Bool
  pub processing_basis : ProcessingBasisFacts
  pub required_licence_type_refs : List String
  pub required_provider_kinds : List String

pub record ResolvedCeiling : Type 0 where
  pub scope_ref : String
  pub assignment_verified : Bool
  pub pack_version_ref : String
  pub cleared : List ClearedCapabilityFacts

pub data CeilingFacts : Type 0 where
  no_assignment : CeilingFacts
  unverified_assignment : (scope_ref : String) → CeilingFacts
  pack_not_approved : (scope_ref : String) (pack_version_ref : Option String) → CeilingFacts
  resolved : ResolvedCeiling → CeilingFacts

pub record AvailabilityRow : Type 0 where
  pub row_id : String
  pub state : AvailabilityState
  pub version : ℕ

pub data AvailabilityFacts : Type 0 where
  no_row : (exists_for_other_environment : Bool) → AvailabilityFacts
  row : AvailabilityRow → AvailabilityFacts

pub record EntitlementRow : Type 0 where
  pub row_id : String
  pub status : EntitlementStatus
  pub effective_from : ℕ
  pub effective_to : Option ℕ
  pub version : ℕ

pub data EntitlementFacts : Type 0 where
  no_entitlement : EntitlementFacts
  row : EntitlementRow → EntitlementFacts

pub data ConsentState : Type 0 where
  active withdrawn reconsent_required no_grant : ConsentState

pub data ConsentFacts : Type 0 where
  not_evaluated : ConsentFacts
  status : (state : ConsentState) (document_available : Bool) → ConsentFacts

pub data LicenceStatus : Type 0 where
  claimed_unverified evidenced expired revoked : LicenceStatus

pub record LicenceFacts : Type 0 where
  pub licence_type_ref : String
  pub status : LicenceStatus
  pub effective_date : Option ℕ
  pub expiry_date : Option ℕ

pub record EntityFacts : Type 0 where
  pub entity_ref : String
  pub permitted_in_scope : Bool
  pub licences : List LicenceFacts

pub data LicensingFacts : Type 0 where
  not_evaluated no_effective_entity : LicensingFacts
  entity : EntityFacts → LicensingFacts

pub data ProviderStatus : Type 0 where
  connected not_configured unavailable : ProviderStatus

pub record ProviderEntry : Type 0 where
  pub provider_kind : String
  pub status : ProviderStatus

pub data ProviderFacts : Type 0 where
  not_evaluated : ProviderFacts
  statuses : List ProviderEntry → ProviderFacts

pub record GateInputs : Type 0 where
  pub capability_id : String
  pub environment : String
  pub descriptor : DescriptorFacts
  pub ceiling : CeilingFacts
  pub availability : AvailabilityFacts
  pub entitlement : EntitlementFacts
  pub consent : ConsentFacts
  pub licensing : LicensingFacts
  pub providers : ProviderFacts
