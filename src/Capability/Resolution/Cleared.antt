-- ===== src/Capability/Resolution/Cleared.antt =====
-- A capability resolves as allowed exactly when all eight demands are met.
use karar_flutter_version.Prelude.{
  ℕ, String, ◌≡◌, refl, ap, true, ◌⊎◌, ◌↔◌, List, [], ◌∷◌, Any, any, window_covers_iff, arith,
  eq_iff, same_text,
}
use karar_flutter_version.Capability.AvailabilityState.{AvailabilityState, is_allowing_state}
use karar_flutter_version.Capability.Entitlement.{entitlement_satisfies_at}
use karar_flutter_version.Capability.Facts.{
  DescriptorFacts, ClearedCapabilityFacts, CeilingFacts, AvailabilityFacts, EntitlementFacts,
  GateInputs,
}
use karar_flutter_version.Capability.Gates.Granted.{
  consent_gate_iff, licence_gate_iff, provider_gate_iff,
}
use karar_flutter_version.Capability.Resolution.{
  Verdict, pass, deny, descriptor_gate, environment_gate, jurisdiction_gate, availability_gate,
  ◌>>=◌, ◌>>◌, entitlement_gate, ceiling_gates, grant_gates, all_gates, outcome_of, allowed,
  resolve_capability_gates,
}
use karar_flutter_version.Capability.Resolution.Bind.{chain-eq-pass}
use karar_flutter_version.Capability.Resolution.Spec.{
  Clears, RowAllows, Entitled, WithinCeiling, Granted,
}

any-ref :
    (scope : String) (refs : List String)
    → (any (λ ref. same_text ref scope) refs ≡ true) ↔ Any (λ ref. ref ≡ scope) refs
any-ref scope [] = ground arith
any-ref scope (r ∷ refs) = ground (arith, eq_iff r scope, any-ref scope refs)

jurisdiction_gate_iff :
    (id : String) (d : DescriptorFacts) (c : CeilingFacts) (cleared : ClearedCapabilityFacts)
    → (jurisdiction_gate id d c ≡ pass cleared) ↔ Clears id d c cleared
unfolding jurisdiction_gate
jurisdiction_gate_iff id d CeilingFacts.no_assignment cleared = ground arith
jurisdiction_gate_iff id d (CeilingFacts.unverified_assignment s) cleared = ground arith
jurisdiction_gate_iff id d (CeilingFacts.pack_not_approved s v) cleared = ground arith
jurisdiction_gate_iff id d (CeilingFacts.resolved c) cleared =
    ground (arith, any-ref c.scope_ref d.declared_scope_refs)

is_allowing_state_iff :
    (s : AvailabilityState)
    → (is_allowing_state s ≡ true)
      ↔ ((s ≡ AvailabilityState.available) ⊎ (s ≡ AvailabilityState.beta))
unfolding is_allowing_state
is_allowing_state_iff AvailabilityState.available = ground arith
is_allowing_state_iff _ = ground arith

availability_gate_iff :
    (facts : AvailabilityFacts) (state : AvailabilityState)
    → (availability_gate facts ≡ pass state) ↔ RowAllows facts state
unfolding availability_gate
availability_gate_iff (AvailabilityFacts.no_row other) state = ground arith
availability_gate_iff (AvailabilityFacts.row r) state =
    ground (arith, is_allowing_state_iff r.state)

entitlement_gate_iff :
    (facts : EntitlementFacts) (at : ℕ) → (entitlement_gate facts at ≡ pass tt) ↔ Entitled facts at
unfolding entitlement_gate entitlement_satisfies_at
entitlement_gate_iff EntitlementFacts.no_entitlement at = ground arith
entitlement_gate_iff (EntitlementFacts.row r) at =
    ground (arith, window_covers_iff r.effective_from r.effective_to at)

descriptor_gate_iff :
    (d : DescriptorFacts)
    → (descriptor_gate d ≡ pass tt) ↔ ((d.implemented ≡ true) × (d.deployed_in_environment ≡ true))
unfolding descriptor_gate
descriptor_gate_iff d = ground arith

-- A row in this environment is enough for gate 2.
environment_gate-pass :
    (facts : AvailabilityFacts) (state : AvailabilityState)
    → RowAllows facts state
    → environment_gate facts ≡ pass tt
unfolding environment_gate
environment_gate-pass (AvailabilityFacts.no_row other) state h = elim h [ ]
environment_gate-pass (AvailabilityFacts.row r) state h = refl

-- Gates 1 to 4 together.
pub ceiling_gates_iff :
    (i : GateInputs) (cleared : ClearedCapabilityFacts) (state : AvailabilityState)
    → (ceiling_gates i ≡ pass (cleared, state)) ↔ WithinCeiling i cleared state
unfolding ceiling_gates
ceiling_gates_iff i cleared state =
    let chain =
      chain-eq-pass (descriptor_gate i.descriptor) (environment_gate i.availability)
        (jurisdiction_gate i.capability_id i.descriptor i.ceiling)
        (availability_gate i.availability) cleared state in
    let code = descriptor_gate_iff i.descriptor in
    let law = jurisdiction_gate_iff i.capability_id i.descriptor i.ceiling cleared in
    let row = availability_gate_iff i.availability state in
    (
      λ h.
          let (d, e, j, v) = chain.0 h in
          record {
            implemented = (code.0 d).0;
            deployed = (code.0 d).1;
            clears = law.0 j;
            allows = row.0 v;
          },
      λ w. chain.1 (
        code.1 (w.implemented, w.deployed),
        environment_gate-pass i.availability state w.allows,
        law.1 w.clears,
        row.1 w.allows,
      ),
    )

pub grant_gates_iff :
    (i : GateInputs) (cleared : ClearedCapabilityFacts) (at : ℕ)
    → (grant_gates i cleared at ≡ pass tt) ↔ Granted i cleared at
unfolding grant_gates
grant_gates_iff i cleared at = ground (
  arith,
  entitlement_gate_iff i.entitlement at,
  consent_gate_iff cleared.processing_basis i.consent,
  licence_gate_iff cleared.required_licence_type_refs i.licensing at,
  provider_gate_iff cleared.required_provider_kinds i.providers,
)

outcome_of-allowed :
    (v : Verdict AvailabilityState) (state : AvailabilityState)
    → (outcome_of v ≡ allowed state) ↔ (v ≡ pass state)
unfolding outcome_of
outcome_of-allowed (pass s) state = ground arith
outcome_of-allowed (deny g r) state = ground arith

seq-eq-pass :
    {A : Type 0} (m : Verdict (Unit {0})) (a b : A)
    → ((m >> pass a) ≡ pass b) ↔ ((m ≡ pass tt) × (a ≡ b))
seq-eq-pass (pass _) a b = ground arith
seq-eq-pass (deny g r) a b = ground arith

both-eq-pass :
    (m : Verdict (ClearedCapabilityFacts × AvailabilityState))
    (k : ClearedCapabilityFacts → Verdict (Unit {0})) (state : AvailabilityState)
    → ((m >>= λ p. k p.0 >> pass p.1) ≡ pass state)
      ↔ ((cleared : ClearedCapabilityFacts) × (m ≡ pass (cleared, state)) × (k cleared ≡ pass tt))
both-eq-pass (deny g r) k state = (λ h. ground arith, λ (c, e, f). ground arith)
both-eq-pass (pass (c, s)) k state = (
  λ h. let (f, e) = (seq-eq-pass (k c) s state).0 h in (c, ap (λ x. pass (c, x)) e, f),
  λ (c', e, f). (seq-eq-pass (k c) s state).1 (ground (arith, e, f), ground (arith, e)),
)

-- The capability is allowed in a state exactly when its ceiling permits the state and everything
-- that the cleared entry asks for was granted.
pub resolve_allowed_iff :
    (i : GateInputs) (at : ℕ) (state : AvailabilityState)
    → ((resolve_capability_gates i at).outcome ≡ allowed state)
      ↔ ((cleared : ClearedCapabilityFacts) × WithinCeiling i cleared state × Granted i cleared at)
unfolding resolve_capability_gates all_gates
resolve_allowed_iff i at state =
    let both = both-eq-pass (ceiling_gates i) (λ c. grant_gates i c at) state in
    let shown = outcome_of-allowed (all_gates i at) state in
    (
      λ h.
          let (cleared, ceiling, grants) = both.0 (shown.0 h) in
          (
            cleared,
            (ceiling_gates_iff i cleared state).0 ceiling,
            (grant_gates_iff i cleared at).0 grants,
          ),
      λ (cleared, within, granted). shown.1 (
          both.1 (
            cleared,
            (ceiling_gates_iff i cleared state).1 within,
            (grant_gates_iff i cleared at).1 granted,
          )),
    )
