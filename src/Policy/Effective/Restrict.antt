-- ===== src/Policy/Effective/Restrict.antt =====
-- Runtime settings only restrict: what they leave of a policy was there without them.
use mathlib.Core.Path.{subst}
use karar_flutter_version.Prelude.{
  String, Bool, ◌≡◌, refl, sym, ap, ◌∙◌, true, false, ◌⊎◌, inl, inr, ◌↔◌, Option, none, List, [],
  ◌∷◌, Any, any, Bool-cases, same_text, ok, arith,
}
use karar_flutter_version.Policy.Decision.{PolicyDecision}
use karar_flutter_version.Policy.Pack.{AiProcessingPolicy, PolicyPack, lookup}
use karar_flutter_version.Policy.Validation.{validate_pack}
use karar_flutter_version.Policy.Effective.{
  JurisdictionRuntimeSettings, ResolveEffectivePolicyInput, EffectiveDecision,
  CapabilityCeilingEntry, EffectivePolicy, select_pack, disabled_ids, ai_suspended, ceiling_entries,
  narrow_ai, policy_of, registry_of, disclosure_ids, refuse_findings, resolve_effective_policy,
}
use karar_flutter_version.Policy.Effective.Governing.{resolve_ok}

-- The input with other settings.
abbrev pub with_settings :
    ResolveEffectivePolicyInput → Option JurisdictionRuntimeSettings → ResolveEffectivePolicyInput
with_settings input settings = record input { settings = settings }

-- The entry is in the ceiling.
abbrev pub Permits : EffectivePolicy → CapabilityCeilingEntry → Type 0
Permits policy entry = Any (λ e. e ≡ entry) policy.capability_ceiling

-- The loop keeps the cleared capabilities that are not disabled, each under its strategy.
ceiling_entries_iff :
    (pack : PolicyPack) (disabled cleared : List String) (entry : CapabilityCeilingEntry)
    → Any (λ e. e ≡ entry) (ceiling_entries pack disabled cleared) ↔ (
        Any (λ c. c ≡ entry.capability_id) cleared
        × (any (λ d. same_text d entry.capability_id) disabled ≡ false)
        × (entry.strategy_id ≡ lookup entry.capability_id pack.resolution_strategies))
unfolding ceiling_entries
ceiling_entries_iff pack disabled [] entry = ((λ h. elim h [ ]), (λ h. elim h.0 [ ]))
ceiling_entries_iff pack disabled (c ∷ cleared) entry =
    let ih = ceiling_entries_iff pack disabled cleared entry in
    let tested : String → Bool = λ id. any (λ d. same_text d id) disabled in
    let strategy : String → Option String = λ id. lookup id pack.resolution_strategies in
    elim (Bool-cases (tested c)) [
      | inl off ↦ (
        λ h. let (m, x, y) = ih.0 (ground (arith, h, off)) in (inr m, x, y),
        λ h. elim h.0 [
          | inl e ↦ ground (arith, off, ap tested e, h.1)
          | inr later ↦ ground (arith, off, ih.1 (later, h.1, h.2))
        ],
      )
      | inr on ↦ (
        λ h. elim (kept on h) [
          | inl e ↦
              let named : c ≡ entry.capability_id = ap (λ x. x.capability_id) e in
              (
                inl named,
                sym (ap tested named) ∙ on,
                sym (ap (λ x. x.strategy_id) e) ∙ ap strategy named,
              )
          | inr later ↦ let (m, x, y) = ih.0 later in (inr m, x, y)
        ],
        λ h. elim h.0 [
          | inl e ↦
              let same : here ≡ entry = ground (arith, e, ap strategy e, h.2) in
              ground (arith, on, same)
          | inr later ↦ ground (arith, on, ih.1 (later, h.1, h.2))
        ],
      )
    ]
  where
    here : CapabilityCeilingEntry
    here = record { capability_id = c; strategy_id = lookup c pack.resolution_strategies }

    kept :
        any (λ d. same_text d c) disabled ≡ false
        → Any (λ e. e ≡ entry) (ceiling_entries pack disabled (c ∷ cleared))
        → (here ≡ entry) ⊎ Any (λ e. e ≡ entry) (ceiling_entries pack disabled cleared)
    kept on h = ground (arith, on, h)

-- The capability ceiling of a resolved policy is the selected pack's cleared capabilities that the
-- settings do not disable, each with the strategy that the pack names for it.
pub capability_ceiling_iff :
    (input : ResolveEffectivePolicyInput) (policy : EffectivePolicy) (pack : PolicyPack)
    (entry : CapabilityCeilingEntry)
    → resolve_effective_policy input ≡ ok policy
    → select_pack input ≡ ok pack
    → Permits policy entry ↔ (
        Any (λ c. c ≡ entry.capability_id) pack.cleared_capabilities
        × (any (λ d. same_text d entry.capability_id) (disabled_ids input.settings) ≡ false)
        × (entry.strategy_id ≡ lookup entry.capability_id pack.resolution_strategies))
unfolding policy_of
capability_ceiling_iff input policy pack entry h s =
    let (other, selected, clean, same) = resolve_ok input policy h in
    let one : other ≡ pack = ground (arith, s, selected) in
    rw (same, one)
      (ceiling_entries_iff pack (disabled_ids input.settings) pack.cleared_capabilities entry)

narrow_ai_cases :
    (b : Bool) (d : PolicyDecision AiProcessingPolicy)
    → (narrow_ai b d ≡ EffectiveDecision.as_declared d)
      ⊎ (narrow_ai b d ≡ EffectiveDecision.restricted_by_settings)
unfolding narrow_ai
narrow_ai_cases true (PolicyDecision.decided value basis) = inr refl
narrow_ai_cases true (PolicyDecision.pending_legal_review reason) = inl refl
narrow_ai_cases true (PolicyDecision.unresolved reason) = inl refl
narrow_ai_cases false d = ground arith

pub resolve_of :
    (input : ResolveEffectivePolicyInput) (pack : PolicyPack)
    → select_pack input ≡ ok pack
    → validate_pack (registry_of input) (disclosure_ids input) pack ≡ []
    → resolve_effective_policy input ≡ ok (policy_of input pack)
unfolding resolve_effective_policy refuse_findings
resolve_of input pack selected clean = rw (selected, clean) refl

-- Whatever settings are given, a policy that resolves under them also resolves without them, from
-- the same pack version, to one that permits every capability the settings leave, under the same
-- strategy, and whose AI decision is the same unless the settings restrict it.
pub settings_restrict :
    (input : ResolveEffectivePolicyInput) (settings : Option JurisdictionRuntimeSettings)
    (policy : EffectivePolicy)
    → resolve_effective_policy (with_settings input settings) ≡ ok policy
    → (free : EffectivePolicy) × (resolve_effective_policy (with_settings input none) ≡ ok free)
      × (policy.pack_version ≡ free.pack_version)
      × ((entry : CapabilityCeilingEntry) → Permits policy entry → Permits free entry)
      × ((policy.ai_processing ≡ free.ai_processing)
          ⊎ (policy.ai_processing ≡ EffectiveDecision.restricted_by_settings))
unfolding select_pack policy_of registry_of disclosure_ids narrow_ai disabled_ids ai_suspended
settings_restrict input settings policy h =
    let (pack, selected, clean, same) = resolve_ok (with_settings input settings) policy h in
    let bare = with_settings input none in
    (
      policy_of bare pack,
      resolve_of bare pack selected clean,
      ap (λ p. p.pack_version) same,
      λ entry permitted.
          let (cleared, on, named) =
            (ceiling_entries_iff pack (disabled_ids settings) pack.cleared_capabilities entry).0
              (subst (λ p. Permits p entry) same permitted) in
          (ceiling_entries_iff pack [] pack.cleared_capabilities entry).1 (cleared, refl, named),
      elim (narrow_ai_cases (ai_suspended settings) pack.ai_processing_policy) [
        | inl kept ↦ inl (ap (λ p. p.ai_processing) same ∙ kept)
        | inr cut ↦ inr (ap (λ p. p.ai_processing) same ∙ cut)
      ],
    )
