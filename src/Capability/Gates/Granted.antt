-- ===== src/Capability/Gates/Granted.antt =====
-- Gates 6 to 8 pass exactly when their demands are met.
use karar_flutter_version.Prelude.{
  ℕ, String, ◌≡◌, refl, true, inl, inr, ◌↔◌, List, [], ◌∷◌, none, All, Any, any, arith, eq_iff,
  Option-cases,
}
use karar_flutter_version.Capability.Facts.{
  ProcessingBasisFacts, ConsentFacts, LicenceFacts, LicensingFacts, ProviderEntry, ProviderFacts,
}
use karar_flutter_version.Capability.Gates.{
  consent_gate, licence_gate, required_licences, licence_in_force, licences_of_type, provider_gate,
  required_providers, provider_denial, entry_for,
}
use karar_flutter_version.Capability.Gates.Spec.{
  Consented, InForce, Licensed, IsConnected, Provided,
}

pub consent_gate_iff :
    (basis : ProcessingBasisFacts) (facts : ConsentFacts)
    → (consent_gate basis facts ≡ none) ↔ Consented basis facts
unfolding consent_gate
consent_gate_iff (ProcessingBasisFacts.declared_basis b) facts = (λ h. tt, λ h. refl)
consent_gate_iff ProcessingBasisFacts.unresolved facts = ground arith
consent_gate_iff (ProcessingBasisFacts.consent p) ConsentFacts.not_evaluated = ground arith
consent_gate_iff (ProcessingBasisFacts.consent p) (ConsentFacts.status state available) =
    ground arith

-- One licence, and a search among those of the type.
licence_in_force_iff :
    (at : ℕ) (type_ref : String) (l : LicenceFacts)
    → l.licence_type_ref ≡ type_ref
    → (licence_in_force at l ≡ true) ↔ InForce at type_ref l
unfolding licence_in_force
licence_in_force_iff at type_ref l e = ground arith

any-licences_of_type :
    (at : ℕ) (type_ref : String) (ls : List LicenceFacts)
    → (any (licence_in_force at) (licences_of_type type_ref ls) ≡ true)
      ↔ Any (InForce at type_ref) ls
unfolding licences_of_type
any-licences_of_type at type_ref [] = ground arith
any-licences_of_type at type_ref (l ∷ ls) = ground (
  arith,
  eq_iff l.licence_type_ref type_ref,
  licence_in_force_iff at type_ref l,
  any-licences_of_type at type_ref ls,
)

required_licences_iff :
    (required : List String) (ls : List LicenceFacts) (at : ℕ)
    → (required_licences required ls at ≡ none) ↔ All (λ r. Any (InForce at r) ls) required
unfolding required_licences
required_licences_iff [] ls at = (λ h. tt, λ h. refl)
required_licences_iff (r ∷ rest) ls at =
    ground (arith, any-licences_of_type at r ls, required_licences_iff rest ls at)

pub licence_gate_iff :
    (required : List String) (licensing : LicensingFacts) (at : ℕ)
    → (licence_gate required licensing at ≡ none) ↔ Licensed required licensing at
unfolding licence_gate
licence_gate_iff [] licensing at = (λ h. tt, λ h. refl)
licence_gate_iff (r ∷ rest) LicensingFacts.not_evaluated at = ground arith
licence_gate_iff (r ∷ rest) LicensingFacts.no_effective_entity at = ground arith
licence_gate_iff (r ∷ rest) (LicensingFacts.entity e) at =
    ground (arith, required_licences_iff (r ∷ rest) e.licences at)

provider_denial_iff :
    (entries : List ProviderEntry) (kind : String)
    → (provider_denial (entry_for kind entries) ≡ none) ↔ IsConnected entries kind
unfolding provider_denial entry_for
provider_denial_iff entries kind = elim (Option-cases (entry_for kind entries)) [
  | inl e ↦ ground (arith, e)
  | inr (entry, e) ↦ (λ h. (entry, e, ground (arith, e, h)), λ (x, f, c). ground (arith, e, f, c))
]

required_providers_iff :
    (required : List String) (entries : List ProviderEntry)
    → (required_providers required entries ≡ none) ↔ All (IsConnected entries) required
unfolding required_providers
required_providers_iff [] entries = (λ h. tt, λ h. refl)
required_providers_iff (kind ∷ rest) entries =
    ground (arith, provider_denial_iff entries kind, required_providers_iff rest entries)

pub provider_gate_iff :
    (required : List String) (providers : ProviderFacts)
    → (provider_gate required providers ≡ none) ↔ Provided required providers
unfolding provider_gate
provider_gate_iff [] providers = (λ h. tt, λ h. refl)
provider_gate_iff (kind ∷ rest) ProviderFacts.not_evaluated = ground arith
provider_gate_iff (kind ∷ rest) (ProviderFacts.statuses entries) =
    required_providers_iff (kind ∷ rest) entries
