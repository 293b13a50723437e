-- ===== src/Capability/Resolution/Spec.antt =====
-- When a capability is available: the conjunction that the eight gates stand for, over the facts.
use karar_flutter_version.Prelude.{
  ℕ, String, ◌≡◌, true, false, ◌⊎◌, some, Any, Covers, find, same_text,
}
use karar_flutter_version.Capability.AvailabilityState.{AvailabilityState}
use karar_flutter_version.Capability.Entitlement.{EntitlementStatus}
use karar_flutter_version.Capability.Facts.{
  DescriptorFacts, ClearedCapabilityFacts, CeilingFacts, AvailabilityFacts, EntitlementFacts,
  GateInputs,
}
use karar_flutter_version.Capability.Gates.Spec.{Consented, Licensed, Provided}

-- The ceiling resolved to a pack whose first entry for the capability is `cleared`, the descriptor
-- declares the ceiling's scope, and the assignment is verified where the entry asks for it.
abbrev pub Clears : String → DescriptorFacts → CeilingFacts → ClearedCapabilityFacts → Type 0
Clears capability_id facts CeilingFacts.no_assignment cleared = ⊥
Clears capability_id facts (CeilingFacts.unverified_assignment scope_ref) cleared = ⊥
Clears capability_id facts (CeilingFacts.pack_not_approved scope_ref version) cleared = ⊥
Clears capability_id facts (CeilingFacts.resolved c) cleared =
    (find (λ entry. same_text entry.capability_id capability_id) c.cleared ≡ some cleared)
    × Any (λ ref. ref ≡ c.scope_ref) facts.declared_scope_refs
    × ((cleared.requires_verified_assignment ≡ false) ⊎ (c.assignment_verified ≡ true))

abbrev pub RowAllows : AvailabilityFacts → AvailabilityState → Type 0
RowAllows (AvailabilityFacts.no_row other) state = ⊥
RowAllows (AvailabilityFacts.row r) state =
    (r.state ≡ state) × ((state ≡ AvailabilityState.available) ⊎ (state ≡ AvailabilityState.beta))

abbrev pub Entitled : EntitlementFacts → ℕ → Type 0
Entitled EntitlementFacts.no_entitlement at = ⊥
Entitled (EntitlementFacts.row r) at =
    (r.status ≡ EntitlementStatus.active) × Covers r.effective_from r.effective_to at

-- What the code, the policy and the configuration permit (gates 1 to 4).
pub record WithinCeiling (inputs : GateInputs) (cleared : ClearedCapabilityFacts)
    (state : AvailabilityState) : Type 0 where
  pub implemented : inputs.descriptor.implemented ≡ true
  pub deployed : inputs.descriptor.deployed_in_environment ≡ true
  pub clears : Clears inputs.capability_id inputs.descriptor inputs.ceiling cleared
  pub allows : RowAllows inputs.availability state

-- What was granted on top (gates 5 to 8).
pub record Granted (inputs : GateInputs) (cleared : ClearedCapabilityFacts) (at : ℕ) : Type 0 where
  pub entitled : Entitled inputs.entitlement at
  pub consented : Consented cleared.processing_basis inputs.consent
  pub licensed : Licensed cleared.required_licence_type_refs inputs.licensing at
  pub provided : Provided cleared.required_provider_kinds inputs.providers
