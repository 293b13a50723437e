-- ===== src/Capability/Resolution/Tests.antt =====
-- Concrete resolutions, and the theorems at inputs that meet their hypotheses.
use karar_flutter_version.Prelude.{◌≡◌, refl, ◌⊎◌, ◌↔◌, true, false, none, some, [], ◌∷◌}
use karar_flutter_version.Capability.AvailabilityState.{AvailabilityState, is_allowing_state}
use karar_flutter_version.Capability.DenialReason.{DenialReason}
use karar_flutter_version.Capability.Entitlement.{EntitlementStatus, entitlement_satisfies_at}
use karar_flutter_version.Capability.Facts.{
  ClearedCapabilityFacts, ProcessingBasisFacts, ConsentState, CeilingFacts, AvailabilityFacts,
  AvailabilityRow, EntitlementFacts, EntitlementRow, ConsentFacts, LicenceStatus, LicensingFacts,
  ProviderStatus, ProviderFacts, GateInputs, ResolvedCeiling,
}
use karar_flutter_version.Capability.Gates.{consent_gate, licence_gate, provider_gate}
use karar_flutter_version.Capability.Resolution.{
  allowed, denied, availability, descriptor_gate, environment_gate, jurisdiction_gate,
  availability_gate, entitlement_gate, ceiling_gates, grant_gates, all_gates,
  resolve_capability_gates,
}
use karar_flutter_version.Capability.Resolution.Ceiling.{
  IsCeilingGate, with_grants, ceiling_denial_stable, denied_gate_sound,
}
use karar_flutter_version.Capability.Resolution.Cleared.{resolve_allowed_iff}
use karar_flutter_version.Capability.Resolution.Pins.{allowed_pins}
use karar_flutter_version.Capability.Resolution.Spec.{WithinCeiling, Granted}

abbrev cleared_entry : ClearedCapabilityFacts
cleared_entry = record {
  capability_id = "TEST_SYNTH";
  resolution_strategy_ref = "AT_CREATION";
  requires_verified_assignment = true;
  processing_basis = ProcessingBasisFacts.consent "purpose:synthetic";
  required_licence_type_refs = "licence:synthetic" ∷ [];
  required_provider_kinds = "bank-feed" ∷ [];
}

abbrev open_row : AvailabilityRow
open_row = record { row_id = "row-1"; state = AvailabilityState.beta; version = 3 }

abbrev open_ceiling : ResolvedCeiling
open_ceiling = record {
  scope_ref = "jurisdiction:zz";
  assignment_verified = true;
  pack_version_ref = "zz-test/v1";
  cleared = cleared_entry ∷ [];
}

abbrev held : EntitlementRow
held = record {
  row_id = "ent-1";
  status = EntitlementStatus.active;
  effective_from = 100;
  effective_to = some 900;
  version = 2;
}

-- Everything that the eight gates ask for is in place at instants from 100 to 899.
abbrev open_inputs : GateInputs
open_inputs = record {
  capability_id = "TEST_SYNTH";
  environment = "local";
  descriptor = record {
    implemented = true;
    deployed_in_environment = true;
    declared_scope_refs = "jurisdiction:zz" ∷ [];
  };
  ceiling = CeilingFacts.resolved open_ceiling;
  availability = AvailabilityFacts.row open_row;
  entitlement = EntitlementFacts.row held;
  consent = ConsentFacts.status ConsentState.active true;
  licensing = LicensingFacts.entity (record {
    entity_ref = "entity-1";
    permitted_in_scope = true;
    licences =
        record {
          licence_type_ref = "licence:synthetic";
          status = LicenceStatus.evidenced;
          effective_date = some 50;
          expiry_date = none;
        }
        ∷ [];
  });
  providers =
      ProviderFacts.statuses
        (record { provider_kind = "bank-feed"; status = ProviderStatus.connected } ∷ []);
}

-- The same with no availability row.
abbrev no_row_inputs : GateInputs
no_row_inputs = record open_inputs { availability = AvailabilityFacts.no_row false }

resolver : Unit {0}
unfolding resolve_capability_gates all_gates ceiling_gates grant_gates descriptor_gate
    environment_gate jurisdiction_gate availability_gate entitlement_gate is_allowing_state
    entitlement_satisfies_at consent_gate licence_gate provider_gate
resolver = tt

open_allowed : (resolve_capability_gates open_inputs 200).outcome ≡ allowed AvailabilityState.beta
unfolding resolver
open_allowed = refl

no_row_denied :
    (resolve_capability_gates no_row_inputs 200).outcome ≡ denied availability DenialReason.disabled
unfolding resolver
no_row_denied = refl

resolve_allowed_iff_example :
    ((resolve_capability_gates open_inputs 200).outcome ≡ allowed AvailabilityState.beta) ↔ (
      (cleared : ClearedCapabilityFacts) × WithinCeiling open_inputs cleared AvailabilityState.beta
      × Granted open_inputs cleared 200)
resolve_allowed_iff_example = resolve_allowed_iff open_inputs 200 AvailabilityState.beta

ceiling_denial_stable_example :
    (resolve_capability_gates
      (with_grants no_row_inputs
        (EntitlementFacts.row held)
        ConsentFacts.not_evaluated
        LicensingFacts.no_effective_entity
        ProviderFacts.not_evaluated)
      300).outcome
    ≡ denied availability DenialReason.disabled
ceiling_denial_stable_example =
    ceiling_denial_stable no_row_inputs (EntitlementFacts.row held) ConsentFacts.not_evaluated
      LicensingFacts.no_effective_entity ProviderFacts.not_evaluated 200 300 availability
      DenialReason.disabled tt no_row_denied

denied_gate_sound_example :
    (IsCeilingGate availability
      × ((c : ClearedCapabilityFacts) (s : AvailabilityState) → ¬ WithinCeiling no_row_inputs c s))
    ⊎ ((¬ IsCeilingGate availability)
        × ((c : ClearedCapabilityFacts) × (s : AvailabilityState) × WithinCeiling no_row_inputs c s
            × (¬ Granted no_row_inputs c 200)))
denied_gate_sound_example =
    denied_gate_sound no_row_inputs 200 availability DenialReason.disabled no_row_denied

allowed_pins_example :
    let p = (resolve_capability_gates open_inputs 200).provenance in
    (c : ResolvedCeiling) × (r : AvailabilityRow) × (e : EntitlementRow) × (open_inputs.ceiling
      ≡ CeilingFacts.resolved c)
    × (open_inputs.availability ≡ AvailabilityFacts.row r)
    × (open_inputs.entitlement ≡ EntitlementFacts.row e)
    × (r.state ≡ AvailabilityState.beta)
    × (p.pack_version_ref ≡ some c.pack_version_ref)
    × (p.jurisdiction_ref ≡ some c.scope_ref)
    × (p.availability_row_id ≡ some r.row_id)
    × (p.availability_row_version ≡ some r.version)
    × (p.entitlement_id ≡ some e.row_id)
    × (p.entitlement_version ≡ some e.version)
    × (p.resolved_at ≡ 200)
allowed_pins_example = allowed_pins open_inputs 200 AvailabilityState.beta open_allowed
