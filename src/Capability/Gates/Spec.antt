-- ===== src/Capability/Gates/Spec.antt =====
-- What gates 6 to 8 ask for, stated over the facts with no loop and no Boolean test.
use karar_flutter_version.Prelude.{
  ℕ, String, ◌≡◌, true, List, [], ◌∷◌, Option, none, some, All, Any, ◌≤◌, EndsAfter, find,
  same_text,
}
use karar_flutter_version.Capability.Facts.{
  ProcessingBasisFacts, ConsentState, ConsentFacts, LicenceStatus, LicenceFacts, LicensingFacts,
  ProviderStatus, ProviderEntry, ProviderFacts,
}

-- The pack declares another basis than consent, or an active consent to a published document.
abbrev pub Consented : ProcessingBasisFacts → ConsentFacts → Type 0
Consented (ProcessingBasisFacts.declared_basis basis_ref) facts = Unit
Consented ProcessingBasisFacts.unresolved facts = ⊥
Consented (ProcessingBasisFacts.consent purpose_ref) facts =
    facts ≡ ConsentFacts.status ConsentState.active true

abbrev pub HasBegun : Option ℕ → ℕ → Type 0
HasBegun none at = ⊥
HasBegun (some date) at = date ≤ at

-- An evidenced licence of the type whose dated window holds the instant.
abbrev pub InForce : ℕ → String → LicenceFacts → Type 0
InForce at type_ref l =
    (l.licence_type_ref ≡ type_ref)
    × (l.status ≡ LicenceStatus.evidenced)
    × HasBegun l.effective_date at
    × EndsAfter l.expiry_date at

-- No licence is required, or an entity that may operate in the scope holds one of each type.
abbrev pub Licensed : List String → LicensingFacts → ℕ → Type 0
Licensed [] licensing at = Unit
Licensed (type_ref ∷ rest) LicensingFacts.not_evaluated at = ⊥
Licensed (type_ref ∷ rest) LicensingFacts.no_effective_entity at = ⊥
Licensed (type_ref ∷ rest) (LicensingFacts.entity e) at =
    (e.permitted_in_scope ≡ true)
    × All (λ required. Any (InForce at required) e.licences) (type_ref ∷ rest)

-- The first entry of the kind is connected.
abbrev pub IsConnected : List ProviderEntry → String → Type 0
IsConnected entries kind =
    (entry : ProviderEntry) × (find (λ s. same_text s.provider_kind kind) entries ≡ some entry)
    × (entry.status ≡ ProviderStatus.connected)

abbrev pub Provided : List String → ProviderFacts → Type 0
Provided [] providers = Unit
Provided (kind ∷ rest) ProviderFacts.not_evaluated = ⊥
Provided (kind ∷ rest) (ProviderFacts.statuses entries) = All (IsConnected entries) (kind ∷ rest)
