-- ===== src/Policy/Effective/History.antt =====
-- Resolution over time: later packs leave an explicit version's answer as it is, and a set of packs
-- with no findings never makes the selection ambiguous.
use karar_flutter_version.Prelude.{
  ℕ, ◌≤◌, String, ◌≡◌, refl, sym, ap, ◌∙◌, not, inl, inr, ◌≢◌, Option, none, some, List, [], ◌∷◌,
  ◌++◌, find, filter, length, filter-length, filter-filter, filter-append, window_covers, same_text,
  Bool-cases, Result, ok, err, ◌>>=◌, arith,
}
use karar_flutter_version.Policy.Strategies.{ResolutionStrategyRegistry}
use karar_flutter_version.Policy.Pack.{PolicyEnvironment, PolicyPack}
use karar_flutter_version.Policy.Lifecycle.{can_activate, can_resolve_explicit_version}
use karar_flutter_version.Policy.Validation.{
  PackValidationFinding, validate_pack, validate_pack_set,
}
use karar_flutter_version.Policy.Validation.Sets.{validate_pack_set-one_in_force}
use karar_flutter_version.Policy.Effective.Governing.{decision_cases}
use karar_flutter_version.Policy.Effective.{
  PackSelection, ResolveEffectivePolicyInput, EffectivePolicy, ResolvePolicyError, is_allowed,
  pack_in_force, blocked_error, admit_version, the_eligible, eligible_packs, for_jurisdiction,
  choose, select_from, select_pack, policy_of, registry_of, disclosure_ids, refuse_findings,
  resolve_effective_policy,
}

-- The input with other packs known to the build.
abbrev pub with_packs : ResolveEffectivePolicyInput → List PolicyPack → ResolveEffectivePolicyInput
with_packs input packs = record input { packs = packs }

admit_version_more :
    (env : PolicyEnvironment) (v : String) (packs more : List PolicyPack) (pack : PolicyPack)
    → admit_version env v (find (λ p. same_text p.version v) packs) ≡ ok pack
    → admit_version env v (find (λ p. same_text p.version v) (packs ++ more)) ≡ ok pack
unfolding admit_version
admit_version_more env v [] more pack h = ground (arith, h)
admit_version_more env v (p ∷ packs) more pack h = elim (Bool-cases (same_text p.version v)) [
  | inl hit ↦ ground (arith, hit, h)
  | inr miss ↦ ground (arith, miss, h, admit_version_more env v packs more pack)
]

select_from_more :
    (input : ResolveEffectivePolicyInput) (v : String) (packs more : List PolicyPack)
    (pack : PolicyPack)
    → input.selection ≡ PackSelection.explicit_version v
    → select_from input packs ≡ ok pack
    → select_from input (packs ++ more) ≡ ok pack
unfolding select_from choose
select_from_more input v [] more pack s h = ground (arith, h)
select_from_more input v (p ∷ packs) more pack s h = rw s (
    admit_version_more input.environment v (p ∷ packs) more pack
      (ap (λ x. choose x input.environment input.requested_at (p ∷ packs)) (sym s) ∙ h))

select_pack_more :
    (input : ResolveEffectivePolicyInput) (v : String) (more : List PolicyPack) (pack : PolicyPack)
    → input.selection ≡ PackSelection.explicit_version v
    → select_pack input ≡ ok pack
    → select_pack (with_packs input (input.packs ++ more)) ≡ ok pack
unfolding select_pack for_jurisdiction
select_pack_more input v more pack s h =
    rw (filter-append (λ p. same_text p.jurisdiction input.jurisdiction) input.packs more) (
      select_from_more (with_packs input (input.packs ++ more)) v
        (for_jurisdiction input.jurisdiction input.packs) (for_jurisdiction input.jurisdiction more)
        pack s h)

-- Packs added to the build later never change what an explicit version resolves to.
pub explicit_version_stable :
    (input : ResolveEffectivePolicyInput) (version : String) (more : List PolicyPack)
    (policy : EffectivePolicy)
    → input.selection ≡ PackSelection.explicit_version version
    → resolve_effective_policy input ≡ ok policy
    → resolve_effective_policy (with_packs input (input.packs ++ more)) ≡ ok policy
unfolding resolve_effective_policy policy_of registry_of disclosure_ids
explicit_version_stable input version more policy s h = from (select_pack input) refl
  where
    after : Result PolicyPack ResolvePolicyError → Result EffectivePolicy ResolvePolicyError
    after selected = selected >>= λ pack.
        refuse_findings pack (validate_pack (registry_of input) (disclosure_ids input) pack)
        >>= λ valid. ok (policy_of input valid)

    from :
        (selected : Result PolicyPack ResolvePolicyError)
        → select_pack input ≡ selected
        → resolve_effective_policy (with_packs input (input.packs ++ more)) ≡ ok policy
    from (err e) k = ground (arith, k, h)
    from (ok pack) k = rw (select_pack_more input version more pack s k) (ap after (sym k) ∙ h)

overlap_free :
    (strategies : ResolutionStrategyRegistry) (disclosing : List String)
    (input : ResolveEffectivePolicyInput)
    → validate_pack_set strategies disclosing input.packs ≡ []
    → length (
        eligible_packs input.environment
          (pack_in_force (for_jurisdiction input.jurisdiction input.packs) input.requested_at))
      ≤ 1
unfolding eligible_packs pack_in_force for_jurisdiction
overlap_free strategies disclosing input h =
    let j = input.jurisdiction in
    let at = input.requested_at in
    let one = validate_pack_set-one_in_force strategies disclosing input.packs j at h in
    let same =
      filter-filter (λ p. same_text p.jurisdiction j)
        (λ p. window_covers p.effective_from p.effective_to at) input.packs in
    let fewer =
      filter-length (λ p. is_allowed (can_activate p input.environment))
        (filter (λ p. window_covers p.effective_from p.effective_to at)
          (filter (λ p. same_text p.jurisdiction j) input.packs)) in
    omega (arith, one, fewer, ap length same)

the_eligible-overlap :
    (env : PolicyEnvironment) (at t : ℕ) (vs : List String) (covering eligible : List PolicyPack)
    → length eligible ≤ 1
    → the_eligible env at covering eligible
      ≢ err (ResolvePolicyError.overlapping_packs_in_force vs t)
unfolding the_eligible blocked_error
the_eligible-overlap env at t vs covering [] few h =
    blocked (find (λ p. not (is_allowed (can_activate p env))) covering) (ground (arith, h))
  where
    blocked :
        (o : Option PolicyPack)
        → blocked_error env at o ≢ ResolvePolicyError.overlapping_packs_in_force vs t
    blocked none h = ground (arith, h)
    blocked (some p) h = ground (arith, h)
the_eligible-overlap env at t vs covering (p ∷ []) few h = ground (arith, h)
the_eligible-overlap env at t vs covering (p ∷ q ∷ rest) few h = omega (arith, few)

choose-overlap :
    (s : PackSelection) (env : PolicyEnvironment) (at t : ℕ) (vs : List String)
    (packs : List PolicyPack)
    → length (eligible_packs env (pack_in_force packs at)) ≤ 1
    → choose s env at packs ≢ err (ResolvePolicyError.overlapping_packs_in_force vs t)
unfolding choose admit_version
choose-overlap PackSelection.in_force env at t vs packs few h =
    let covering = pack_in_force packs at in
    the_eligible-overlap env at t vs covering (eligible_packs env covering) few h
choose-overlap (PackSelection.explicit_version v) env at t vs packs few h =
    found (find (λ p. same_text p.version v) packs) h
  where
    found :
        (o : Option PolicyPack)
        → admit_version env v o ≢ err (ResolvePolicyError.overlapping_packs_in_force vs t)
    found none h = ground (arith, h)
    found (some p) h = elim (decision_cases (can_resolve_explicit_version p env)) [
      | inl may ↦ ground (arith, may, h)
      | inr (reasons, refused) ↦ ground (arith, refused, h)
    ]

-- If the packs known to the build have no findings as a set, the resolution never fails because
-- several packs are in force at the instant.
pub resolve_effective_policy-overlap :
    (strategies : ResolutionStrategyRegistry) (disclosing : List String)
    (input : ResolveEffectivePolicyInput) (versions : List String) (at : ℕ)
    → validate_pack_set strategies disclosing input.packs ≡ []
    → resolve_effective_policy input
      ≢ err (ResolvePolicyError.overlapping_packs_in_force versions at)
unfolding resolve_effective_policy select_pack select_from refuse_findings
resolve_effective_policy-overlap strategies disclosing input versions at h bad =
    let packs = for_jurisdiction input.jurisdiction input.packs in
    from packs (overlap_free strategies disclosing input h) (select_from input packs) refl bad
  where
    after : Result PolicyPack ResolvePolicyError → Result EffectivePolicy ResolvePolicyError
    after selected = selected >>= λ pack.
        refuse_findings pack (validate_pack (registry_of input) (disclosure_ids input) pack)
        >>= λ valid. ok (policy_of input valid)

    validated :
        (pack : PolicyPack) (fs : List PackValidationFinding)
        → (refuse_findings pack fs >>= λ valid. ok (policy_of input valid))
          ≢ err (ResolvePolicyError.overlapping_packs_in_force versions at)
    validated pack [] k = ground (arith, k)
    validated pack (f ∷ fs) k = ground (arith, k)

    from :
        (packs : List PolicyPack)
        → length (eligible_packs input.environment (pack_in_force packs input.requested_at)) ≤ 1
        → (selected : Result PolicyPack ResolvePolicyError) → select_from input packs ≡ selected
        → after selected ≢ err (ResolvePolicyError.overlapping_packs_in_force versions at)
    from packs few (ok pack) e k =
        validated pack (validate_pack (registry_of input) (disclosure_ids input) pack) k
    from [] few (err bad) e k = ground (arith, e, k)
    from (p ∷ rest) few (err bad) e k =
        choose-overlap input.selection input.environment input.requested_at at versions (p ∷ rest)
          few (e ∙ ap err (ground (arith, k)))
