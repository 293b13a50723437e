-- ===== src/Capability/AvailabilityState.antt =====
-- modules/capability/domain/availability-state.ts: the closed vocabulary of an availability row.
use karar_flutter_version.Prelude.{Bool, List, [], ◌∷◌, includes}

pub data AvailabilityState : Type 0 where
  available beta internal_only partner_only disabled pending_provider : AvailabilityState
  pending_legal_review pending_regulatory_review : AvailabilityState

pub AvailabilityState-discrete : Discrete AvailabilityState
AvailabilityState-discrete = hlevel

pub allowing_states : List AvailabilityState
allowing_states = available ∷ beta ∷ []

unfoldable pub is_allowing_state : AvailabilityState → Bool
unfolding allowing_states AvailabilityState-discrete
is_allowing_state state = includes AvailabilityState-discrete allowing_states state
