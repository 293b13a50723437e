-- ===== src/Capability/Resolution/Pins.antt =====
-- The versions that an allowed resolution pins are those of the rows it rests on.
use karar_flutter_version.Prelude.{ℕ, ◌≡◌, refl, some}
use karar_flutter_version.Capability.AvailabilityState.{AvailabilityState}
use karar_flutter_version.Capability.Facts.{
  ClearedCapabilityFacts, ResolvedCeiling, CeilingFacts, AvailabilityRow, AvailabilityFacts,
  EntitlementRow, EntitlementFacts, GateInputs,
}
use karar_flutter_version.Capability.Resolution.{allowed, provenance_of, resolve_capability_gates}
use karar_flutter_version.Capability.Resolution.Cleared.{resolve_allowed_iff}
use karar_flutter_version.Capability.Resolution.Spec.{Clears, RowAllows, Entitled}

Clears-resolved :
    (id : _) (d : _) (c : CeilingFacts) (cleared : ClearedCapabilityFacts)
    → Clears id d c cleared
    → (r : ResolvedCeiling) × (c ≡ CeilingFacts.resolved r)
Clears-resolved id d (CeilingFacts.resolved c) cleared h = (c, refl)
Clears-resolved id d _ cleared h = elim h [ ]

RowAllows-row :
    (facts : AvailabilityFacts) (s : AvailabilityState)
    → RowAllows facts s
    → (r : AvailabilityRow) × (facts ≡ AvailabilityFacts.row r) × (r.state ≡ s)
RowAllows-row (AvailabilityFacts.row r) s h = (r, refl, h.0)
RowAllows-row (AvailabilityFacts.no_row other) s h = elim h [ ]

Entitled-row :
    (facts : EntitlementFacts) (at : ℕ)
    → Entitled facts at
    → (r : EntitlementRow) × (facts ≡ EntitlementFacts.row r)
Entitled-row (EntitlementFacts.row r) at h = (r, refl)
Entitled-row EntitlementFacts.no_entitlement at h = elim h [ ]

-- An allowed capability rests on a resolved ceiling, an availability row in the state that it is
-- allowed in and an entitlement row, and its provenance names exactly their references and
-- versions, the ceiling's scope and the instant.
pub allowed_pins :
    (i : GateInputs) (at : ℕ) (state : AvailabilityState)
    → (resolve_capability_gates i at).outcome ≡ allowed state
    → let p = (resolve_capability_gates i at).provenance in
      (c : ResolvedCeiling) × (r : AvailabilityRow) × (e : EntitlementRow) × (i.ceiling
        ≡ CeilingFacts.resolved c)
      × (i.availability ≡ AvailabilityFacts.row r)
      × (i.entitlement ≡ EntitlementFacts.row e)
      × (r.state ≡ state)
      × (p.pack_version_ref ≡ some c.pack_version_ref)
      × (p.jurisdiction_ref ≡ some c.scope_ref)
      × (p.availability_row_id ≡ some r.row_id)
      × (p.availability_row_version ≡ some r.version)
      × (p.entitlement_id ≡ some e.row_id)
      × (p.entitlement_version ≡ some e.version)
      × (p.resolved_at ≡ at)
unfolding resolve_capability_gates provenance_of
allowed_pins i at state h =
    let (cleared, within, granted) = (resolve_allowed_iff i at state).0 h in
    let (c, ec) = Clears-resolved i.capability_id i.descriptor i.ceiling cleared within.clears in
    let (r, er, es) = RowAllows-row i.availability state within.allows in
    let (e, ee) = Entitled-row i.entitlement at granted.entitled in
    (
      c,
      r,
      e,
      ec,
      er,
      ee,
      es,
      rw ec refl,
      rw ec refl,
      rw er refl,
      rw er refl,
      rw ee refl,
      rw ee refl,
      refl,
    )
