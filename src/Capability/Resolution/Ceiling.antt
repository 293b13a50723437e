-- ===== src/Capability/Resolution/Ceiling.antt =====
-- Restrict-only: what was granted decides nothing that the ceiling has already denied.
use karar_flutter_version.Prelude.{
  ℕ, String, Bool, ◌≡◌, refl, ◌∙◌, ◌⊎◌, inl, inr, ◌↔◌, Option, none, some, arith,
}
use karar_flutter_version.Capability.AvailabilityState.{AvailabilityState}
use karar_flutter_version.Capability.DenialReason.{DenialReason}
use karar_flutter_version.Capability.Facts.{
  DescriptorFacts, CeilingFacts, AvailabilityFacts, ClearedCapabilityFacts, EntitlementFacts,
  ConsentFacts, LicensingFacts, ProviderFacts, GateInputs,
}
use karar_flutter_version.Capability.Gates.{consent_gate, licence_gate, provider_gate}
use karar_flutter_version.Capability.Resolution.{
  GateName, descriptor, environment, jurisdiction, availability, Verdict, pass, deny, deny_with,
  descriptor_gate, environment_gate, clearance, jurisdiction_gate, availability_gate,
  entitlement_gate, ceiling_gates, grant_gates, all_gates, outcome_of, denied,
  resolve_capability_gates,
}
use karar_flutter_version.Capability.Resolution.Bind.{>>=-eq-deny, chain-eq-deny}
use karar_flutter_version.Capability.Resolution.Cleared.{ceiling_gates_iff, grant_gates_iff}
use karar_flutter_version.Capability.Resolution.Spec.{WithinCeiling, Granted}

-- The gates that read the code, the policy and the configuration.
abbrev pub IsCeilingGate : GateName → Type 0
IsCeilingGate descriptor = Unit
IsCeilingGate environment = Unit
IsCeilingGate jurisdiction = Unit
IsCeilingGate availability = Unit
IsCeilingGate _ = ⊥

-- The same subject and capability with other grants.
abbrev pub with_grants :
    GateInputs → EntitlementFacts → ConsentFacts → LicensingFacts → ProviderFacts → GateInputs
with_grants i e c l p = record i { entitlement = e; consent = c; licensing = l; providers = p }

deny_with-gate :
    (gate : GateName) (o : Option DenialReason) (g : GateName) (r : DenialReason)
    → deny_with gate o ≡ deny g r
    → g ≡ gate
deny_with-gate gate none g r h = ground arith
deny_with-gate gate (some x) g r h = ground arith

entitlement_gate-gate :
    (facts : EntitlementFacts) (at : ℕ) (g : GateName) (r : DenialReason)
    → entitlement_gate facts at ≡ deny g r
    → g ≡ GateName.entitlement
unfolding entitlement_gate
entitlement_gate-gate EntitlementFacts.no_entitlement at g r h = ground arith
entitlement_gate-gate (EntitlementFacts.row row) at g r h = ground arith

grant_gates-not-IsCeilingGate :
    (i : GateInputs) (c : ClearedCapabilityFacts) (at : ℕ) (g : GateName) (r : DenialReason)
    → grant_gates i c at ≡ deny g r
    → ¬ IsCeilingGate g
unfolding grant_gates
grant_gates-not-IsCeilingGate i c at g r h at_ceiling =
    elim (>>=-eq-deny (entitlement_gate i.entitlement at) _ g r h) [
      | inl e ↦ rw (entitlement_gate-gate i.entitlement at g r e) at at_ceiling
      | inr (_, _, h₁) ↦ elim (>>=-eq-deny (deny_with GateName.consent consents) _ g r h₁) [
        | inl e ↦ rw (deny_with-gate GateName.consent consents g r e) at at_ceiling
        | inr (_, _, h₂) ↦ elim (>>=-eq-deny (deny_with GateName.licence licences) _ g r h₂) [
          | inl e ↦ rw (deny_with-gate GateName.licence licences g r e) at at_ceiling
          | inr (_, _, e) ↦ rw (deny_with-gate GateName.provider providers g r e) at at_ceiling
        ]
      ]
    ]
  where
    consents : Option DenialReason
    consents = consent_gate c.processing_basis i.consent

    licences : Option DenialReason
    licences = licence_gate c.required_licence_type_refs i.licensing at

    providers : Option DenialReason
    providers = provider_gate c.required_provider_kinds i.providers

descriptor_gate-gate :
    (d : DescriptorFacts) (g : GateName) (r : DenialReason)
    → descriptor_gate d ≡ deny g r
    → g ≡ descriptor
unfolding descriptor_gate
descriptor_gate-gate d g r h = ground arith

environment_gate-gate :
    (facts : AvailabilityFacts) (g : GateName) (r : DenialReason)
    → environment_gate facts ≡ deny g r
    → g ≡ environment
unfolding environment_gate
environment_gate-gate (AvailabilityFacts.no_row other) g r h = ground arith
environment_gate-gate (AvailabilityFacts.row row) g r h = ground arith

clearance-gate :
    (o : Option ClearedCapabilityFacts) (declared verified : Bool) (g : GateName) (r : DenialReason)
    → clearance o declared verified ≡ deny g r
    → g ≡ jurisdiction
unfolding clearance
clearance-gate none declared verified g r h = ground arith
clearance-gate (some c) declared verified g r h = ground arith

jurisdiction_gate-gate :
    (id : String) (d : DescriptorFacts) (c : CeilingFacts) (g : GateName) (r : DenialReason)
    → jurisdiction_gate id d c ≡ deny g r
    → g ≡ jurisdiction
unfolding jurisdiction_gate
jurisdiction_gate-gate id d (CeilingFacts.resolved c) g r h = clearance-gate _ _ _ g r h
jurisdiction_gate-gate id d _ g r h = ground arith

availability_gate-gate :
    (facts : AvailabilityFacts) (g : GateName) (r : DenialReason)
    → availability_gate facts ≡ deny g r
    → g ≡ availability
unfolding availability_gate
availability_gate-gate (AvailabilityFacts.no_row other) g r h = ground arith
availability_gate-gate (AvailabilityFacts.row row) g r h = ground arith

IsCeilingGate-one :
    (g : GateName)
    → (g ≡ descriptor) ⊎ (g ≡ environment) ⊎ (g ≡ jurisdiction) ⊎ (g ≡ availability)
    → IsCeilingGate g
IsCeilingGate-one descriptor h = tt
IsCeilingGate-one environment h = tt
IsCeilingGate-one jurisdiction h = tt
IsCeilingGate-one availability h = tt
IsCeilingGate-one _ h = ground arith

ceiling_gates-IsCeilingGate :
    (i : GateInputs) (g : GateName) (r : DenialReason)
    → ceiling_gates i ≡ deny g r
    → IsCeilingGate g
unfolding ceiling_gates
ceiling_gates-IsCeilingGate i g r h = IsCeilingGate-one g (
    ground (
      arith,
      chain-eq-deny (descriptor_gate i.descriptor) (environment_gate i.availability)
          (jurisdiction_gate i.capability_id i.descriptor i.ceiling)
          (availability_gate i.availability) g r h,
      descriptor_gate-gate i.descriptor g r,
      environment_gate-gate i.availability g r,
      jurisdiction_gate-gate i.capability_id i.descriptor i.ceiling g r,
      availability_gate-gate i.availability g r,
    ))

outcome_of-denied :
    (v : Verdict AvailabilityState) (g : GateName) (r : DenialReason)
    → (outcome_of v ≡ denied g r) ↔ (v ≡ deny g r)
unfolding outcome_of
outcome_of-denied (pass s) g r = ground arith
outcome_of-denied (deny g' r') g r = ground arith

-- A denial comes from the ceiling, or the ceiling passed and a grant is missing.
all_gates-eq-deny :
    (i : GateInputs) (at : ℕ) (g : GateName) (r : DenialReason)
    → all_gates i at ≡ deny g r
    → (ceiling_gates i ≡ deny g r)
      ⊎ ((cleared : ClearedCapabilityFacts) × (state : AvailabilityState) × (ceiling_gates i
            ≡ pass (cleared, state))
          × (grant_gates i cleared at ≡ deny g r))
unfolding all_gates
all_gates-eq-deny i at g r h = elim (>>=-eq-deny (ceiling_gates i) _ g r h) [
  | inl e ↦ inl e
  | inr ((cleared, state), passed, h') ↦
      elim (>>=-eq-deny (grant_gates i cleared at) (λ _. pass state) g r h') [
        | inl e ↦ inr (cleared, state, passed, e)
        | inr (_, _, e) ↦ ground (arith, e)
      ]
]

all_gates-ceiling :
    (i : GateInputs) (at : ℕ) (g : GateName) (r : DenialReason)
    → ceiling_gates i ≡ deny g r
    → all_gates i at ≡ deny g r
unfolding all_gates
all_gates-ceiling i at g r h = rw h

-- The first four gates read none of the grants.
ceiling_gates-with_grants :
    (i : GateInputs) (e : EntitlementFacts) (c : ConsentFacts) (l : LicensingFacts)
    (p : ProviderFacts)
    → ceiling_gates (with_grants i e c l p) ≡ ceiling_gates i
unfolding ceiling_gates
ceiling_gates-with_grants i e c l p = refl

-- If a capability is denied at one of the first four gates, then whatever entitlement, consent,
-- licence and provider facts are put in place of those at hand, and at whatever instant, it is
-- denied at the same gate for the same reason.
pub ceiling_denial_stable :
    (i : GateInputs) (e : EntitlementFacts) (c : ConsentFacts) (l : LicensingFacts)
    (p : ProviderFacts) (at later : ℕ) (g : GateName) (r : DenialReason)
    → IsCeilingGate g
    → (resolve_capability_gates i at).outcome ≡ denied g r
    → (resolve_capability_gates (with_grants i e c l p) later).outcome ≡ denied g r
unfolding resolve_capability_gates
ceiling_denial_stable i e c l p at later g r at_ceiling h =
    elim (all_gates-eq-deny i at g r ((outcome_of-denied (all_gates i at) g r).0 h)) [
      | inl below ↦ (outcome_of-denied (all_gates (with_grants i e c l p) later) g r).1 (
          all_gates-ceiling (with_grants i e c l p) later g r
            (ceiling_gates-with_grants i e c l p ∙ below))
      | inr (cleared, _, _, grant) ↦
          absurd (grant_gates-not-IsCeilingGate i cleared at g r grant at_ceiling)
    ]

-- A denial at one of the last four gates says that the ceiling was met and that what its cleared
-- entry asks for was not all granted; a denial at one of the first four, that no entry and state
-- meet the ceiling.
pub denied_gate_sound :
    (i : GateInputs) (at : ℕ) (g : GateName) (r : DenialReason)
    → (resolve_capability_gates i at).outcome ≡ denied g r
    → (IsCeilingGate g
        × ((c : ClearedCapabilityFacts) (s : AvailabilityState) → ¬ WithinCeiling i c s))
      ⊎ ((¬ IsCeilingGate g)
          × ((c : ClearedCapabilityFacts) × (s : AvailabilityState) × WithinCeiling i c s
              × (¬ Granted i c at)))
unfolding resolve_capability_gates
denied_gate_sound i at g r h =
    elim (all_gates-eq-deny i at g r ((outcome_of-denied (all_gates i at) g r).0 h)) [
      | inl below ↦ inl (
        ceiling_gates-IsCeilingGate i g r below,
        λ c s w. ground (arith, below, (ceiling_gates_iff i c s).1 w),
      )
      | inr (c, s, passed, grant) ↦ inr (
        grant_gates-not-IsCeilingGate i c at g r grant,
        (
          c,
          s,
          (ceiling_gates_iff i c s).0 passed,
          λ granted. ground (arith, grant, (grant_gates_iff i c at).1 granted),
        ),
      )
    ]
