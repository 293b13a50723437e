-- ===== src/Capability/ClientView.antt =====
-- modules/capability/domain/client-view.ts: the projection of resolutions that a client receives.
mod Tests
pub mod Leaks
use karar_flutter_version.Prelude.{
  Bool, true, false, String, Option, none, some, List, [], ◌∷◌, if◌then◌else◌,
}
use karar_flutter_version.Capability.AvailabilityState.{AvailabilityState}
use karar_flutter_version.Capability.DenialReason.{DenialReason, client_reason_for}
use karar_flutter_version.Capability.Resolution.{CapabilityResolution, Outcome}

pub data Exposed : Type 0 where
  available : AvailabilityState → Exposed
  unavailable : DenialReason → Exposed

pub record ClientCapabilityEntry : Type 0 where
  pub capability_id : String
  pub exposed : Exposed

pub record ClientExposureFacts : Type 0 where
  pub hidden : Bool
  pub provider_pending_explainable : Bool

-- What is shown of an outcome to which the descriptor does not object.
shown : Outcome → Bool → Option Exposed
shown (Outcome.allowed state) explainable = some (available state)
shown (Outcome.denied gate reason) explainable = elim (client_reason_for reason explainable) [
  | none ↦ none
  | some client_reason ↦ some (unavailable client_reason)
]

-- A hidden capability is left out in every state.
expose : (hidden : Bool) → String → Option Exposed → Option ClientCapabilityEntry
expose true capability_id e = none
expose false capability_id none = none
expose false capability_id (some e) = some (record { capability_id = capability_id; exposed = e })

entry_for : (String → ClientExposureFacts) → CapabilityResolution → Option ClientCapabilityEntry
unfolding shown expose
entry_for exposure_for r =
    let exposure = exposure_for r.capability_id in
    expose exposure.hidden r.capability_id (shown r.outcome exposure.provider_pending_explainable)

abbrev push : Option ClientCapabilityEntry → List ClientCapabilityEntry → List ClientCapabilityEntry
push none entries = entries
push (some e) entries = e ∷ entries

-- The loop, one resolution at a time.
pub to_client_view :
    List CapabilityResolution → (String → ClientExposureFacts) → List ClientCapabilityEntry
unfolding entry_for
to_client_view [] exposure_for = []
to_client_view (r ∷ rest) exposure_for =
    push (entry_for exposure_for r) (to_client_view rest exposure_for)
