-- ===== src/Capability/Resolution.antt =====
-- modules/capability/domain/resolution.ts: the eight gates in order, each of which can only deny.
mod Bind
mod Spec
pub mod Cleared
pub mod Ceiling
pub mod Pins
mod Tests
use karar_flutter_version.Prelude.{
  ℕ, String, Bool, true, false, not, List, [], ◌∷◌, Option, none, some, any, find, if◌then◌else◌,
  ◌&&◌, ◌||◌,
}
use karar_flutter_version.Capability.AvailabilityState.{AvailabilityState, is_allowing_state}
use karar_flutter_version.Capability.DenialReason.{DenialReason}
use karar_flutter_version.Capability.Entitlement.{EntitlementStatus, entitlement_satisfies_at}
use karar_flutter_version.Capability.Facts.{
  DescriptorFacts, ClearedCapabilityFacts, ResolvedCeiling, CeilingFacts, AvailabilityRow,
  AvailabilityFacts, EntitlementRow, EntitlementFacts, GateInputs,
}
use karar_flutter_version.Capability.Gates.{same_ref, consent_gate, licence_gate, provider_gate}

pub data GateName : Type 0 where
  descriptor environment jurisdiction availability entitlement consent licence provider : GateName

-- The pins and what else a resolution records about its snapshot.
pub record ResolutionProvenance : Type 0 where
  pub pack_version_ref : Option String
  pub availability_row_id : Option String
  pub availability_row_version : Option ℕ
  pub entitlement_id : Option String
  pub entitlement_version : Option ℕ
  pub environment : String
  pub jurisdiction_ref : Option String
  pub resolved_at : ℕ

pub data Outcome : Type 0 where
  allowed : (state : AvailabilityState) → Outcome
  denied : (gate : GateName) (reason : DenialReason) → Outcome

pub record CapabilityResolution : Type 0 where
  pub capability_id : String
  pub outcome : Outcome
  pub provenance : ResolutionProvenance

pack_version_of : CeilingFacts → Option String
pack_version_of (CeilingFacts.resolved c) = some c.pack_version_ref
pack_version_of (CeilingFacts.pack_not_approved scope_ref pack_version_ref) = pack_version_ref
pack_version_of _ = none

scope_ref_of : CeilingFacts → Option String
scope_ref_of CeilingFacts.no_assignment = none
scope_ref_of (CeilingFacts.unverified_assignment scope_ref) = some scope_ref
scope_ref_of (CeilingFacts.pack_not_approved scope_ref pack_version_ref) = some scope_ref
scope_ref_of (CeilingFacts.resolved c) = some c.scope_ref

availability_row : AvailabilityFacts → Option AvailabilityRow
availability_row (AvailabilityFacts.no_row other) = none
availability_row (AvailabilityFacts.row r) = some r

entitlement_row : EntitlementFacts → Option EntitlementRow
entitlement_row EntitlementFacts.no_entitlement = none
entitlement_row (EntitlementFacts.row r) = some r

abbrev each : {A B : Type 0} → Option A → (A → B) → Option B
each none f = none
each (some a) f = some (f a)

pub provenance_of : GateInputs → ℕ → ResolutionProvenance
unfolding pack_version_of scope_ref_of availability_row entitlement_row
provenance_of inputs at = record {
  pack_version_ref = pack_version_of inputs.ceiling;
  availability_row_id = each (availability_row inputs.availability) (λ r. r.row_id);
  availability_row_version = each (availability_row inputs.availability) (λ r. r.version);
  entitlement_id = each (entitlement_row inputs.entitlement) (λ r. r.row_id);
  entitlement_version = each (entitlement_row inputs.entitlement) (λ r. r.version);
  environment = inputs.environment;
  jurisdiction_ref = scope_ref_of inputs.ceiling;
  resolved_at = at;
}

-- What a gate answers: a value for the later gates, or a denial, at which the source returns.
pub data Verdict (A : Type 0) : Type 0 where
  pass : A → Verdict A
  deny : GateName → DenialReason → Verdict A

infixl 5 ◌>>=◌ ◌>>◌
abbrev ◌>>=◌ : {A B : Type 0} → Verdict A → (A → Verdict B) → Verdict B
pass a >>= f = f a
deny gate reason >>= f = deny gate reason

abbrev ◌>>◌ : {B : Type 0} → Verdict (Unit {0}) → Verdict B → Verdict B
m >> k = m >>= λ _. k

abbrev deny_if : Bool → GateName → DenialReason → Verdict (Unit {0})
deny_if true gate reason = deny gate reason
deny_if false gate reason = pass tt

abbrev deny_with : GateName → Option DenialReason → Verdict (Unit {0})
deny_with gate none = pass tt
deny_with gate (some reason) = deny gate reason

descriptor_gate : DescriptorFacts → Verdict (Unit {0})
descriptor_gate facts = do
  deny_if (not facts.implemented) descriptor DenialReason.not_implemented
  deny_if (not facts.deployed_in_environment) descriptor DenialReason.not_deployed

environment_gate : AvailabilityFacts → Verdict (Unit {0})
environment_gate (AvailabilityFacts.no_row exists_for_other_environment) =
    deny_if exists_for_other_environment environment DenialReason.wrong_environment
environment_gate (AvailabilityFacts.row r) = pass tt

cleared_for : String → List ClearedCapabilityFacts → Option ClearedCapabilityFacts
cleared_for capability_id cleared = find (λ c. same_ref c.capability_id capability_id) cleared

-- The entry is the one that the pack clears, if there is one.
clearance :
    Option ClearedCapabilityFacts → (declared verified : Bool) → Verdict ClearedCapabilityFacts
clearance none declared verified = deny jurisdiction DenialReason.jurisdiction_not_cleared
clearance (some cleared) declared verified = do
  deny_if (not declared) jurisdiction DenialReason.jurisdiction_not_cleared
  deny_if (cleared.requires_verified_assignment && not verified) jurisdiction
      DenialReason.jurisdiction_unverified
  pass cleared

jurisdiction_gate : String → DescriptorFacts → CeilingFacts → Verdict ClearedCapabilityFacts
unfolding cleared_for clearance
jurisdiction_gate capability_id facts CeilingFacts.no_assignment =
    deny jurisdiction DenialReason.jurisdiction_absent
jurisdiction_gate capability_id facts (CeilingFacts.unverified_assignment scope_ref) =
    deny jurisdiction DenialReason.jurisdiction_unverified
jurisdiction_gate capability_id facts (CeilingFacts.pack_not_approved scope_ref version) =
    deny jurisdiction DenialReason.policy_pack_not_approved
jurisdiction_gate capability_id facts (CeilingFacts.resolved c) =
    clearance (cleared_for capability_id c.cleared)
      (any (λ ref. same_ref ref c.scope_ref) facts.declared_scope_refs) c.assignment_verified

-- A state that does not allow is its own reason.
reason_of_state : AvailabilityState → Option DenialReason
reason_of_state AvailabilityState.available = none
reason_of_state AvailabilityState.beta = none
reason_of_state AvailabilityState.internal_only = some DenialReason.internal_only
reason_of_state AvailabilityState.partner_only = some DenialReason.partner_only
reason_of_state AvailabilityState.disabled = some DenialReason.disabled
reason_of_state AvailabilityState.pending_provider = some DenialReason.pending_provider
reason_of_state AvailabilityState.pending_legal_review = some DenialReason.pending_legal_review
reason_of_state AvailabilityState.pending_regulatory_review =
    some DenialReason.pending_regulatory_review

availability_gate : AvailabilityFacts → Verdict AvailabilityState
unfolding reason_of_state
availability_gate (AvailabilityFacts.no_row other) = deny availability DenialReason.disabled
availability_gate (AvailabilityFacts.row r) =
    if not (is_allowing_state r.state)
    then (deny_with availability (reason_of_state r.state) >> pass r.state)
    else pass r.state

lapse_reason : EntitlementStatus → DenialReason
lapse_reason EntitlementStatus.revoked = DenialReason.entitlement_missing
lapse_reason _ = DenialReason.entitlement_expired

entitlement_gate : EntitlementFacts → ℕ → Verdict (Unit {0})
unfolding lapse_reason
entitlement_gate EntitlementFacts.no_entitlement at =
    deny entitlement DenialReason.entitlement_missing
entitlement_gate (EntitlementFacts.row r) at =
    deny_if (not (entitlement_satisfies_at r.status r.effective_from r.effective_to at)) entitlement
      (lapse_reason r.status)

-- Gates 1 to 4, which read the code, the policy ceiling and the availability row.
pub ceiling_gates : GateInputs → Verdict (ClearedCapabilityFacts × AvailabilityState)
ceiling_gates inputs = do
  descriptor_gate inputs.descriptor
  environment_gate inputs.availability
  cleared ← jurisdiction_gate inputs.capability_id inputs.descriptor inputs.ceiling
  state ← availability_gate inputs.availability
  pass (cleared, state)

-- Gates 5 to 8, which read what was granted.
pub grant_gates : GateInputs → ClearedCapabilityFacts → ℕ → Verdict (Unit {0})
grant_gates inputs cleared at = do
  entitlement_gate inputs.entitlement at
  deny_with consent (consent_gate cleared.processing_basis inputs.consent)
  deny_with licence (licence_gate cleared.required_licence_type_refs inputs.licensing at)
  deny_with provider (provider_gate cleared.required_provider_kinds inputs.providers)

pub all_gates : GateInputs → ℕ → Verdict AvailabilityState
all_gates inputs at = do
  (cleared, state) ← ceiling_gates inputs
  grant_gates inputs cleared at
  pass state

pub outcome_of : Verdict AvailabilityState → Outcome
outcome_of (pass state) = allowed state
outcome_of (deny gate reason) = denied gate reason

pub resolve_capability_gates : GateInputs → ℕ → CapabilityResolution
unfolding outcome_of all_gates provenance_of
resolve_capability_gates inputs at = record {
  capability_id = inputs.capability_id;
  outcome = outcome_of (all_gates inputs at);
  provenance = provenance_of inputs at;
}
