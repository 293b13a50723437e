-- ===== src/Policy/Effective/Governing.antt =====
-- Which pack governs: the selection fails closed, and what it selects is what it says.
use mathlib.Core.Path.{subst}
use karar_flutter_version.Prelude.{
  ℕ, String, Bool, ◌≡◌, refl, sym, ap, ◌∙◌, true, ◌⊎◌, inl, inr, ◌↔◌, Option, none, some, List, [],
  ◌∷◌, Any, filter, find-holds, find-Any, filter-Any, Covers, window_covers, window_covers_iff,
  same_text, eq_iff, Result, ok, err, ◌>>=◌, arith,
}
use karar_flutter_version.Policy.Pack.{PolicyEnvironment, PolicyPack}
use karar_flutter_version.Policy.Lifecycle.{
  ActivationDenialReason, ActivationDecision, allowed, denied, can_activate,
  can_resolve_explicit_version,
}
use karar_flutter_version.Policy.Validation.{PackValidationFinding, validate_pack}
use karar_flutter_version.Policy.Validation.Sound.{IsWellFormed, validate_pack_iff}
use karar_flutter_version.Policy.Effective.{
  PackSelection, ResolveEffectivePolicyInput, EffectivePolicy, ResolvePolicyError, is_allowed,
  pack_in_force, admit_version, the_eligible, eligible_packs, for_jurisdiction, choose, select_from,
  select_pack, policy_of, registry_of, disclosure_ids, refuse_findings, resolve_effective_policy,
}

is_allowed_iff : (d : ActivationDecision) → (is_allowed d ≡ true) ↔ (d ≡ allowed)
is_allowed_iff allowed = ground arith
is_allowed_iff (denied reasons) = ground arith

-- In force at the instant, and permitted to govern the environment.
abbrev pub IsEligible : PolicyEnvironment → ℕ → PolicyPack → Type 0
IsEligible environment at p =
    Covers p.effective_from p.effective_to at × (can_activate p environment ≡ allowed)

-- What the selection asks of the pack that governs, among the jurisdiction's packs.
abbrev pub Governs : PackSelection → PolicyEnvironment → ℕ → List PolicyPack → PolicyPack → Type 0
Governs (PackSelection.explicit_version version) environment at packs pack =
    (pack.version ≡ version) × (can_resolve_explicit_version pack environment ≡ allowed)
Governs PackSelection.in_force environment at packs pack =
    IsEligible environment at pack
    × ((q : PolicyPack) → Any (λ p. p ≡ q) packs → IsEligible environment at q → q ≡ pack)

pub decision_cases :
    (d : ActivationDecision)
    → (d ≡ allowed) ⊎ ((reasons : List ActivationDenialReason) × (d ≡ denied reasons))
decision_cases allowed = inl refl
decision_cases (denied reasons) = inr (reasons, refl)

admit_version_ok :
    (env : PolicyEnvironment) (v : String) (o : Option PolicyPack) (pack : PolicyPack)
    → admit_version env v o ≡ ok pack
    → (o ≡ some pack) × (can_resolve_explicit_version pack env ≡ allowed)
unfolding admit_version
admit_version_ok env v none pack h = ground (arith, h)
admit_version_ok env v (some found) pack h =
    elim (decision_cases (can_resolve_explicit_version found env)) [
      | inl yes_may ↦ ground (arith, yes_may)
      | inr (reasons, refused) ↦ ground (arith, refused)
    ]

pub admit_version_of :
    (env : PolicyEnvironment) (v : String) (pack : PolicyPack)
    → can_resolve_explicit_version pack env ≡ allowed
    → admit_version env v (some pack) ≡ ok pack
unfolding admit_version
admit_version_of env v pack h = ground (arith, h)

the_eligible_ok :
    (env : PolicyEnvironment) (at : ℕ) (covering eligible : List PolicyPack) (pack : PolicyPack)
    → the_eligible env at covering eligible ≡ ok pack
    → eligible ≡ pack ∷ []
unfolding the_eligible
the_eligible_ok env at covering [] pack h = ground (arith, h)
the_eligible_ok env at covering (p ∷ []) pack h = ground (arith, h)
the_eligible_ok env at covering (p ∷ q ∷ rest) pack h = ground (arith, h)

IsEligible-iff :
    (env : PolicyEnvironment) (at : ℕ) (packs : List PolicyPack) (q : PolicyPack)
    → Any (λ p. p ≡ q) (eligible_packs env (pack_in_force packs at))
      ↔ (Any (λ p. p ≡ q) packs × IsEligible env at q)
unfolding eligible_packs pack_in_force
IsEligible-iff env at packs q =
    let covering : PolicyPack → Bool = λ p. window_covers p.effective_from p.effective_to at in
    let outer = filter-Any (λ p. is_allowed (can_activate p env)) (filter covering packs) q in
    let inner = filter-Any covering packs q in
    let covers = window_covers_iff q.effective_from q.effective_to at in
    let active = is_allowed_iff (can_activate q env) in
    (
      λ h. let (m, a) = outer.0 h in let (n, c) = inner.0 m in (n, (covers.0 c, active.0 a)),
      λ (n, (c, a)). outer.1 (inner.1 (n, covers.1 c), active.1 a),
    )

choose_ok :
    (s : PackSelection) (env : PolicyEnvironment) (at : ℕ) (packs : List PolicyPack)
    (pack : PolicyPack)
    → choose s env at packs ≡ ok pack
    → Any (λ p. p ≡ pack) packs × Governs s env at packs pack
unfolding choose
choose_ok (PackSelection.explicit_version v) env at packs pack h =
    let (found, may) = admit_version_ok env v _ pack h in
    (
      find-Any (λ p. same_text p.version v) packs pack found,
      ((eq_iff pack.version v).0 (find-holds (λ p. same_text p.version v) packs pack found), may),
    )
choose_ok PackSelection.in_force env at packs pack h =
    let covering = pack_in_force packs at in
    let one = the_eligible_ok env at covering (eligible_packs env covering) pack h in
    let (m, e) = (IsEligible-iff env at packs pack).0 (rw one (inl refl)) in
    (
      m,
      (
        e,
        λ q n k.
            let there : Any (λ p. p ≡ q) (pack ∷ []) =
              subst (λ xs. Any (λ p. p ≡ q) xs) one ((IsEligible-iff env at packs q).1 (n, k)) in
            elim there [ inl same ↦ sym same | inr none_left ↦ elim none_left [ ] ],
      ),
    )

select_pack_ok :
    (input : ResolveEffectivePolicyInput) (pack : PolicyPack)
    → select_pack input ≡ ok pack
    → choose input.selection input.environment input.requested_at
        (for_jurisdiction input.jurisdiction input.packs)
      ≡ ok pack
unfolding select_pack select_from
select_pack_ok input pack h = from (for_jurisdiction input.jurisdiction input.packs) h
  where
    from :
        (packs : List PolicyPack)
        → select_from input packs ≡ ok pack
        → choose input.selection input.environment input.requested_at packs ≡ ok pack
    from [] h = ground (arith, h)
    from (p ∷ rest) h = h

pub resolve_ok :
    (input : ResolveEffectivePolicyInput) (policy : EffectivePolicy)
    → resolve_effective_policy input ≡ ok policy
    → (pack : PolicyPack) × (select_pack input ≡ ok pack)
      × (validate_pack (registry_of input) (disclosure_ids input) pack ≡ [])
      × (policy ≡ policy_of input pack)
unfolding resolve_effective_policy refuse_findings
resolve_ok input policy h = from (select_pack input) h
  where
    validated :
        (pack : PolicyPack) (findings : List PackValidationFinding)
        → (refuse_findings pack findings >>= λ valid. ok (policy_of input valid)) ≡ ok policy
        → (findings ≡ []) × (policy ≡ policy_of input pack)
    validated pack [] k = ground (arith, k)
    validated pack (f ∷ findings) k = ground (arith, k)

    from :
        (selected : Result PolicyPack ResolvePolicyError)
        → (selected >>= λ pack.
            refuse_findings pack (validate_pack (registry_of input) (disclosure_ids input) pack)
            >>= λ valid. ok (policy_of input valid))
          ≡ ok policy
        → (pack : PolicyPack) × (selected ≡ ok pack)
          × (validate_pack (registry_of input) (disclosure_ids input) pack ≡ [])
          × (policy ≡ policy_of input pack)
    from (err e) k = ground (arith, k)
    from (ok pack) k =
        let (clean, same) =
          validated pack (validate_pack (registry_of input) (disclosure_ids input) pack) k in
        (pack, refl, clean, same)

-- A resolved policy comes from one of the packs given: one of the jurisdiction asked about, that is
-- well formed, and that the selection makes govern (it carries the explicit version and may still
-- be resolved, or it is the only pack of the jurisdiction that is in force at the instant and may be
-- active in the environment); its version and jurisdiction are the policy's and its provenance's.
pub resolve_effective_policy_ok :
    (input : ResolveEffectivePolicyInput) (policy : EffectivePolicy)
    → resolve_effective_policy input ≡ ok policy
    → (pack : PolicyPack) × Any (λ p. p ≡ pack) input.packs
      × (pack.jurisdiction ≡ input.jurisdiction)
      × IsWellFormed (registry_of input) (disclosure_ids input) pack
      × Governs input.selection input.environment input.requested_at
          (for_jurisdiction input.jurisdiction input.packs)
          pack
      × (policy.pack_version ≡ pack.version)
      × (policy.provenance.pack_version ≡ pack.version)
      × (policy.jurisdiction ≡ input.jurisdiction)
      × (policy.provenance.jurisdiction ≡ input.jurisdiction)
unfolding for_jurisdiction policy_of
resolve_effective_policy_ok input policy h =
    let (pack, selected, clean, same) = resolve_ok input policy h in
    let (member, governs) =
      choose_ok input.selection input.environment input.requested_at
        (for_jurisdiction input.jurisdiction input.packs) pack
        (select_pack_ok input pack selected) in
    let (given, matched) =
      (filter-Any (λ p. same_text p.jurisdiction input.jurisdiction) input.packs pack).0 member in
    let here = (eq_iff pack.jurisdiction input.jurisdiction).0 matched in
    (
      pack,
      given,
      here,
      (validate_pack_iff (registry_of input) (disclosure_ids input) pack).0 clean,
      governs,
      ap (λ p. p.pack_version) same,
      ap (λ p. p.provenance.pack_version) same,
      ap (λ p. p.jurisdiction) same ∙ here,
      ap (λ p. p.provenance.jurisdiction) same ∙ here,
    )
