-- ===== src/Capability/Gates.antt =====
-- modules/capability/domain/resolution.ts, the gates on consent, licences and providers; each
-- returns the reason for a denial, or `none`.
pub mod Spec
pub mod Granted
use karar_flutter_version.Prelude.{
  ℕ, String, Bool, true, false, ◌&&◌, ◌||◌, not, List, [], ◌∷◌, Option, none, some, any, find,
  filter, same_text, leb, ends_after, if◌then◌else◌,
}
use karar_flutter_version.Capability.DenialReason.{DenialReason}
use karar_flutter_version.Capability.Facts.{
  ProcessingBasisFacts, ConsentState, ConsentFacts, LicenceStatus, LicenceFacts, LicensingFacts,
  ProviderStatus, ProviderEntry, ProviderFacts,
}

abbrev pub same_ref : String → String → Bool
same_ref a b = same_text a b

consent_state_gate : ConsentState → Option DenialReason
consent_state_gate ConsentState.active = none
consent_state_gate ConsentState.reconsent_required = some DenialReason.reconsent_required
consent_state_gate ConsentState.withdrawn = some DenialReason.consent_required
consent_state_gate ConsentState.no_grant = some DenialReason.consent_required

unfoldable pub consent_gate : ProcessingBasisFacts → ConsentFacts → Option DenialReason
unfolding consent_state_gate
consent_gate (ProcessingBasisFacts.declared_basis basis_ref) facts = none
consent_gate ProcessingBasisFacts.unresolved facts = some DenialReason.processing_basis_unresolved
consent_gate (ProcessingBasisFacts.consent purpose_ref) ConsentFacts.not_evaluated =
    some DenialReason.consent_required
consent_gate (ProcessingBasisFacts.consent purpose_ref) (ConsentFacts.status state available) =
    if not available then some DenialReason.consent_required else consent_state_gate state

is_evidenced : LicenceStatus → Bool
is_evidenced LicenceStatus.evidenced = true
is_evidenced _ = false

is_expired : LicenceStatus → Bool
is_expired LicenceStatus.expired = true
is_expired _ = false

-- `date !== null && date.getTime() <= at.getTime()`
reached : Option ℕ → ℕ → Bool
reached none at = false
reached (some date) at = leb date at

unfoldable pub licence_in_force : ℕ → LicenceFacts → Bool
unfolding is_evidenced reached
licence_in_force at l =
    is_evidenced l.status && reached l.effective_date at && ends_after l.expiry_date at

unfoldable pub licence_lapsed : ℕ → LicenceFacts → Bool
unfolding is_expired reached
licence_lapsed at l = is_expired l.status || reached l.expiry_date at

licences_of_type : String → List LicenceFacts → List LicenceFacts
licences_of_type type_ref licences = filter (λ l. same_ref l.licence_type_ref type_ref) licences

-- The loop over the required types; it ends at the first type with no licence in force.
required_licences : List String → List LicenceFacts → ℕ → Option DenialReason
unfolding licences_of_type
required_licences [] licences at = none
required_licences (type_ref ∷ rest) licences at =
    let later = required_licences rest licences at in
    let candidates = licences_of_type type_ref licences in
    if any (licence_in_force at) candidates
    then later
    else (if any (licence_lapsed at) candidates
        then some DenialReason.licence_expired
        else some DenialReason.licence_missing)

unfoldable pub licence_gate : List String → LicensingFacts → ℕ → Option DenialReason
unfolding required_licences licence_in_force licence_lapsed
licence_gate [] licensing at = none
licence_gate (type_ref ∷ rest) LicensingFacts.not_evaluated at = some DenialReason.licence_missing
licence_gate (type_ref ∷ rest) LicensingFacts.no_effective_entity at =
    some DenialReason.licence_missing
licence_gate (type_ref ∷ rest) (LicensingFacts.entity e) at =
    if not e.permitted_in_scope
    then some DenialReason.licence_missing
    else required_licences (type_ref ∷ rest) e.licences at

provider_denial : Option ProviderEntry → Option DenialReason
provider_denial none = some DenialReason.pending_provider
provider_denial (some entry) = elim entry.status [
  | ProviderStatus.connected ↦ none
  | ProviderStatus.not_configured ↦ some DenialReason.pending_provider
  | ProviderStatus.unavailable ↦ some DenialReason.provider_unavailable
]

entry_for : String → List ProviderEntry → Option ProviderEntry
entry_for kind entries = find (λ s. same_ref s.provider_kind kind) entries

-- The loop over the required kinds; it ends at the first kind that is not connected.
required_providers : List String → List ProviderEntry → Option DenialReason
unfolding provider_denial entry_for
required_providers [] entries = none
required_providers (kind ∷ rest) entries =
    let later = required_providers rest entries in
    elim (provider_denial (entry_for kind entries)) [ none ↦ later | some reason ↦ some reason ]

unfoldable pub provider_gate : List String → ProviderFacts → Option DenialReason
unfolding required_providers
provider_gate [] providers = none
provider_gate (kind ∷ rest) ProviderFacts.not_evaluated = some DenialReason.pending_provider
provider_gate (kind ∷ rest) (ProviderFacts.statuses entries) =
    required_providers (kind ∷ rest) entries
