-- ===== src/Capability/DenialReason.antt =====
-- modules/capability/domain/denial-reason.ts: why a capability is denied, and which of the reasons
-- a client may be told.
use karar_flutter_version.Prelude.{
  Bool, List, [], ◌∷◌, includes, same, Option, none, some, ◌&&◌, if◌then◌else◌,
}

pub data DenialReason : Type 0 where
  not_implemented not_deployed wrong_environment : DenialReason
  jurisdiction_absent jurisdiction_unverified jurisdiction_not_cleared : DenialReason
  policy_pack_not_approved : DenialReason
  disabled internal_only partner_only pending_provider pending_legal_review : DenialReason
  pending_regulatory_review : DenialReason
  entitlement_missing entitlement_expired : DenialReason
  consent_required reconsent_required processing_basis_unresolved : DenialReason
  licence_missing licence_expired provider_unavailable : DenialReason

pub DenialReason-discrete : Discrete DenialReason
DenialReason-discrete = hlevel

unfoldable pub hidden_denial_reasons : List DenialReason
hidden_denial_reasons =
    not_implemented ∷ not_deployed ∷ pending_legal_review ∷ pending_regulatory_review
    ∷ jurisdiction_not_cleared ∷ []

unfoldable pub client_surfaceable_reasons : List DenialReason
client_surfaceable_reasons =
    consent_required ∷ reconsent_required ∷ entitlement_missing ∷ entitlement_expired ∷ []

-- `none` where the capability is left out of the client's output.
unfoldable pub client_reason_for : DenialReason → Bool → Option DenialReason
unfolding client_surfaceable_reasons DenialReason-discrete
client_reason_for reason provider_pending_explainable =
    if includes DenialReason-discrete client_surfaceable_reasons reason
    then some reason
    else (if same DenialReason-discrete reason pending_provider && provider_pending_explainable
        then some pending_provider
        else none)
