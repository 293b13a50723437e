-- ===== src/Policy/Strategies/Registry.antt =====
-- A registry answers by id with the definition that was registered under it, and nothing else.
use karar_flutter_version.Prelude.{
  String, ◌≡◌, refl, sym, ap, ◌∙◌, false, ◌⊎◌, inl, inr, ◌↔◌, ◌≢◌, Option, none, some, List, [],
  ◌∷◌, ◌++◌, All, Any, any, find, same_text, eq_iff, Bool-cases, Result, ok, err, arith,
}
use mathlib.Core.List.{append_assoc, append-nil}
use karar_flutter_version.Policy.Strategies.{
  GoverningVersionContext, ResolutionStrategyDefinition, ResolutionStrategyRegistry, has_id, get,
  register, seal, create_resolution_strategy_registry, version_list, at_creation, at_evaluation,
  most_restrictive, most_restrictive_versions,
}

abbrev pub HasFreshId : List ResolutionStrategyDefinition → ResolutionStrategyDefinition → Type 0
HasFreshId others d = All (λ o. o.id ≢ d.id) others

any-has_id :
    (d : ResolutionStrategyDefinition) (ds : List ResolutionStrategyDefinition)
    → (any (has_id d.id) ds ≡ false) ↔ HasFreshId ds d
any-has_id d [] = (λ h. tt, λ h. refl)
any-has_id d (o ∷ ds) = ground (arith, eq_iff o.id d.id, any-has_id d ds)

-- No definition has the id of an earlier one, those in `before` included.
abbrev AreFresh : List ResolutionStrategyDefinition → List ResolutionStrategyDefinition → Type 0
AreFresh before [] = Unit
AreFresh before (d ∷ ds) = HasFreshId before d × AreFresh (before ++ d ∷ []) ds

register-AreFresh :
    (before ds res : List ResolutionStrategyDefinition)
    → register before ds ≡ ok res
    → (res ≡ before ++ ds) × AreFresh before ds
unfolding register
register-AreFresh before [] res h = (ground (arith, append-nil before), tt)
register-AreFresh before (d ∷ ds) res h = elim (Bool-cases (any (has_id d.id) before)) [
  | inl twice ↦ ground (arith, twice)
  | inr fresh ↦
      let (e, rest) = register-AreFresh (before ++ d ∷ []) ds res (ground (arith, fresh)) in
      (e ∙ append_assoc before (d ∷ []) ds, ((any-has_id d before).0 fresh, rest))
]

abbrev pub Distinct : List ResolutionStrategyDefinition → Type 0
Distinct [] = Unit
Distinct (d ∷ ds) = All (λ o. d.id ≢ o.id) ds × Distinct ds

HasFreshId-append :
    (before : List ResolutionStrategyDefinition) (d x : ResolutionStrategyDefinition)
    → HasFreshId (before ++ d ∷ []) x
    → HasFreshId before x × (d.id ≢ x.id)
HasFreshId-append [] d x h = (tt, h.0)
HasFreshId-append (b ∷ before) d x h =
    let (later, ne) = HasFreshId-append before d x h.1 in ((h.0, later), ne)

All-split :
    (before ds : List ResolutionStrategyDefinition) (d : ResolutionStrategyDefinition)
    → All (HasFreshId (before ++ d ∷ [])) ds
    → All (HasFreshId before) ds × All (λ o. d.id ≢ o.id) ds
All-split before [] d h = (tt, tt)
All-split before (x ∷ ds) d h =
    let (fresh, ne) = HasFreshId-append before d x h.0 in
    let (more, nes) = All-split before ds d h.1 in ((fresh, more), (ne, nes))

AreFresh-Distinct :
    (before ds : List ResolutionStrategyDefinition)
    → AreFresh before ds
    → All (HasFreshId before) ds × Distinct ds
AreFresh-Distinct before [] h = (tt, tt)
AreFresh-Distinct before (d ∷ ds) h =
    let (fresh, distinct) = AreFresh-Distinct (before ++ d ∷ []) ds h.1 in
    let (old, ne) = All-split before ds d fresh in ((h.0, old), (ne, distinct))

not-Any_of_id :
    (ds : List ResolutionStrategyDefinition) (d x : ResolutionStrategyDefinition)
    → All (λ o. d.id ≢ o.id) ds
    → Any (λ o. o ≡ x) ds
    → d.id ≢ x.id
not-Any_of_id [] d x h m same = elim m [ ]
not-Any_of_id (o ∷ ds) d x h m same = elim m [
  | inl e ↦ h.0 (same ∙ sym (ap (λ y. y.id) e))
  | inr later ↦ not-Any_of_id ds d x h.1 later same
]

find-Distinct :
    (ds : List ResolutionStrategyDefinition) (id : String) (x : ResolutionStrategyDefinition)
    → Distinct ds
    → (find (has_id id) ds ≡ some x) ↔ (Any (λ o. o ≡ x) ds × (x.id ≡ id))
find-Distinct [] id x h = (λ e. ground arith, λ e. elim e.0 [ ])
find-Distinct (d ∷ ds) id x h = elim (Bool-cases (same_text d.id id)) [
  | inl hit ↦
      let here = (eq_iff d.id id).0 hit in
      (
        λ e.
            let same : d ≡ x = ground (arith, e, hit) in
            (inl same, ap (λ y. y.id) (sym same) ∙ here),
        λ (m, e). elim m [
          | inl same ↦ ground (arith, hit, same)
          | inr later ↦ absurd (not-Any_of_id ds d x h.0 later (here ∙ sym e))
        ],
      )
  | inr miss ↦
      let ih = find-Distinct ds id x h.1 in
      (
        λ e. let (m, same) = ih.0 (ground (arith, e, miss)) in (inr m, same),
        λ (m, e). elim m [
          | inl same ↦ ground (arith, miss, (eq_iff d.id id).1 (ap (λ y. y.id) same ∙ e))
          | inr later ↦ ground (arith, miss, ih.1 (later, e))
        ],
      )
]

sealed :
    (m : Result (List ResolutionStrategyDefinition) String) (r : ResolutionStrategyRegistry)
    → seal m ≡ ok r
    → m ≡ ok r.by_id
unfolding seal
sealed (ok by_id) r h = ground (arith, h)
sealed (err id) r h = ground (arith, h)

-- A registry that was created answers to an id with a definition exactly when that definition is
-- one of those registered and the id is its own.
pub get_iff :
    (definitions : List ResolutionStrategyDefinition) (r : ResolutionStrategyRegistry) (id : String)
    (d : ResolutionStrategyDefinition)
    → create_resolution_strategy_registry definitions ≡ ok r
    → (get r id ≡ some d) ↔ (Any (λ o. o ≡ d) definitions × (d.id ≡ id))
unfolding get create_resolution_strategy_registry
get_iff definitions r id d h =
    let (same, fresh) =
      register-AreFresh [] definitions r.by_id (sealed (register [] definitions) r h) in
    rw same (find-Distinct definitions id d (AreFresh-Distinct [] definitions fresh).1)

versions_iff :
    (creation evaluation : Option String) (v : String)
    → Any (λ w. w ≡ v) (most_restrictive_versions creation evaluation)
      ↔ (Any (λ w. w ≡ v) (version_list creation) ⊎ Any (λ w. w ≡ v) (version_list evaluation))
unfolding most_restrictive_versions
versions_iff none evaluation v = (inr, λ h. elim h [ inl x ↦ elim x [ ] | inr y ↦ y ])
versions_iff (some c) none v = ground arith
versions_iff (some c) (some e) v = ground (arith, eq_iff e c)

-- MOST_RESTRICTIVE is governed by exactly the versions that AT_CREATION or AT_EVALUATION name.
pub most_restrictive_iff :
    (c : GoverningVersionContext) (v : String)
    → Any (λ w. w ≡ v) (most_restrictive.governing_versions c) ↔ (
        Any (λ w. w ≡ v) (at_creation.governing_versions c)
        ⊎ Any (λ w. w ≡ v) (at_evaluation.governing_versions c))
unfolding most_restrictive at_creation at_evaluation most_restrictive_versions
most_restrictive_iff c v = versions_iff c.version_at_creation c.version_at_evaluation v
