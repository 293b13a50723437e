-- ===== src/Capability/ClientView/Tests.antt =====
-- The projection of concrete resolutions, and the theorems at inputs that meet their hypotheses.
use karar_flutter_version.Prelude.{◌≡◌, refl, ◌↔◌, Any, String, false, List, [], ◌∷◌, none}
use karar_flutter_version.Capability.AvailabilityState.{AvailabilityState}
use karar_flutter_version.Capability.DenialReason.{DenialReason, client_reason_for}
use karar_flutter_version.Capability.Resolution.{
  CapabilityResolution, Outcome, GateName, ResolutionProvenance,
}
use karar_flutter_version.Capability.ClientView.{
  available, ClientCapabilityEntry, ClientExposureFacts, to_client_view,
}
use karar_flutter_version.Capability.ClientView.Leaks.{IsShown, to_client_view_iff}

abbrev provenance : ResolutionProvenance
provenance = record {
  pack_version_ref = none;
  availability_row_id = none;
  availability_row_version = none;
  entitlement_id = none;
  entitlement_version = none;
  environment = "local";
  jurisdiction_ref = none;
  resolved_at = 7;
}

abbrev resolved : Outcome → CapabilityResolution
resolved o = record { capability_id = "BUDGETS"; outcome = o; provenance = provenance }

abbrev plain : String → ClientExposureFacts
plain id = record { hidden = false; provider_pending_explainable = false }

abbrev budgets_available : ClientCapabilityEntry
budgets_available = record {
  capability_id = "BUDGETS";
  exposed = available AvailabilityState.available;
}

abbrev two : List CapabilityResolution
two =
    resolved (Outcome.denied GateName.availability DenialReason.pending_legal_review)
    ∷ resolved (Outcome.allowed AvailabilityState.available)
    ∷ []

legal_review_omitted : to_client_view two plain ≡ budgets_available ∷ []
unfolding to_client_view client_reason_for
legal_review_omitted = refl

to_client_view_iff_example :
    Any (λ x. x ≡ budgets_available) (to_client_view two plain)
    ↔ Any (IsShown plain budgets_available) two
to_client_view_iff_example = to_client_view_iff plain two budgets_available
