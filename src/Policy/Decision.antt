-- ===== src/Policy/Decision.antt =====
-- packages/jurisdiction-policy/src/decision.ts: a decision slot of a pack.
use karar_flutter_version.Prelude.{String, Bool, true, false}

pub data PolicyDecision {ℓ} (T : Type ℓ) : Type ℓ where
  decided : (value : T) (basis : String) → PolicyDecision T
  pending_legal_review : (reason : String) → PolicyDecision T
  unresolved : (reason : String) → PolicyDecision T

abbrev pub is_decided {ℓ} : {T : Type ℓ} → PolicyDecision T → Bool
is_decided (decided value basis) = true
is_decided _ = false

-- The state of a slot and its basis or reason, without the value.
abbrev pub outline {ℓ} : {T : Type ℓ} → PolicyDecision T → PolicyDecision (Unit {0})
outline (decided value basis) = decided tt basis
outline (pending_legal_review reason) = pending_legal_review reason
outline (unresolved reason) = unresolved reason
