-- ===== src/Policy/Effective/Tests.antt =====
-- The resolution of a sample pack, and the theorems at it.
use karar_flutter_version.Prelude.{
  is_blank, ◌≡◌, refl, ◌≢◌, ◌↔◌, ◌⊎◌, inl, true, false, none, some, [], ◌∷◌, Any, any, same_text,
  ok, err,
}
use karar_flutter_version.Policy.Strategies.{default_resolution_strategies}
use karar_flutter_version.Policy.Pack.{PolicyEnvironment, PolicyPack, lookup}
use karar_flutter_version.Policy.Lifecycle.{allowed, can_activate, can_resolve_explicit_version}
use karar_flutter_version.Policy.Lifecycle.Evidence.{
  can_activate_iff, can_resolve_explicit_version_iff,
}
use karar_flutter_version.Policy.Validation.Samples.{
  sample_pack, disclosing_ids, sample_pack_valid, sample_set_valid,
}
use karar_flutter_version.Policy.Validation.Sound.{IsWellFormed}
use karar_flutter_version.Policy.Effective.{
  JurisdictionRuntimeSettings, PackSelection, ResolveEffectivePolicyInput, EffectivePolicy,
  EffectiveDecision, CapabilityCeilingEntry, ResolvePolicyError, pack_in_force, the_eligible,
  eligible_packs, for_jurisdiction, choose, select_from, select_pack, policy_of, disabled_ids,
  registry_of, disclosure_ids, resolve_effective_policy,
}
use karar_flutter_version.Policy.Effective.Governing.{
  Governs, admit_version_of, resolve_effective_policy_ok,
}
use karar_flutter_version.Policy.Effective.History.{
  with_packs, explicit_version_stable, resolve_effective_policy-overlap,
}
use karar_flutter_version.Policy.Effective.Restrict.{
  with_settings, Permits, capability_ceiling_iff, settings_restrict, resolve_of,
}

abbrev suspended : JurisdictionRuntimeSettings
suspended = record {
  disabled_capability_ids = some ("TEST_OTHER" ∷ []);
  ai_processing_suspended = some true;
  settings_version = some 4;
}

abbrev sample_input : ResolveEffectivePolicyInput
sample_input = record {
  jurisdiction = "zz";
  requested_at = 200;
  packs = sample_pack ∷ [];
  selection = PackSelection.in_force;
  settings = some suspended;
  environment = PolicyEnvironment.production;
  strategies = none;
  disclosure_bearing_capability_ids = some disclosing_ids;
}

abbrev versioned_input : ResolveEffectivePolicyInput
versioned_input = record sample_input { selection = PackSelection.explicit_version "v1" }

sample_active : can_activate sample_pack PolicyEnvironment.production ≡ allowed
unfolding is_blank
sample_active =
    (can_activate_iff sample_pack PolicyEnvironment.production).1
      (inl (refl, ("approval-7", refl, refl)))

sample_resolvable : can_resolve_explicit_version sample_pack PolicyEnvironment.production ≡ allowed
sample_resolvable =
    (can_resolve_explicit_version_iff sample_pack PolicyEnvironment.production).1
      (inl sample_active)

sample_selected : select_pack sample_input ≡ ok sample_pack
unfolding select_pack for_jurisdiction select_from choose the_eligible eligible_packs pack_in_force
sample_selected = rw sample_active refl

versioned_selected : select_pack versioned_input ≡ ok sample_pack
unfolding select_pack for_jurisdiction select_from choose
versioned_selected =
    admit_version_of PolicyEnvironment.production "v1" sample_pack sample_resolvable

sample_resolved : resolve_effective_policy sample_input ≡ ok (policy_of sample_input sample_pack)
unfolding registry_of disclosure_ids
sample_resolved = resolve_of sample_input sample_pack sample_selected sample_pack_valid

versioned_resolved :
    resolve_effective_policy versioned_input ≡ ok (policy_of versioned_input sample_pack)
unfolding registry_of disclosure_ids
versioned_resolved = resolve_of versioned_input sample_pack versioned_selected sample_pack_valid

resolve_effective_policy_ok_example :
    (pack : PolicyPack) × Any (λ p. p ≡ pack) sample_input.packs
    × (pack.jurisdiction ≡ "zz")
    × IsWellFormed (registry_of sample_input) (disclosure_ids sample_input) pack
    × Governs PackSelection.in_force PolicyEnvironment.production 200
        (for_jurisdiction "zz" sample_input.packs)
        pack
    × ((policy_of sample_input sample_pack).pack_version ≡ pack.version)
    × ((policy_of sample_input sample_pack).provenance.pack_version ≡ pack.version)
    × ((policy_of sample_input sample_pack).jurisdiction ≡ "zz")
    × ((policy_of sample_input sample_pack).provenance.jurisdiction ≡ "zz")
resolve_effective_policy_ok_example =
    resolve_effective_policy_ok sample_input (policy_of sample_input sample_pack) sample_resolved

explicit_version_stable_example :
    resolve_effective_policy (
      with_packs versioned_input
        (sample_pack ∷ record sample_pack { version = "v2"; effective_from = 300 } ∷ []))
    ≡ ok (policy_of versioned_input sample_pack)
explicit_version_stable_example =
    explicit_version_stable versioned_input "v1"
      (record sample_pack { version = "v2"; effective_from = 300 } ∷ [])
      (policy_of versioned_input sample_pack) refl versioned_resolved

resolve_effective_policy-overlap_example :
    resolve_effective_policy sample_input
    ≢ err (ResolvePolicyError.overlapping_packs_in_force ("v1" ∷ "v2" ∷ []) 200)
resolve_effective_policy-overlap_example =
    resolve_effective_policy-overlap default_resolution_strategies disclosing_ids sample_input
      ("v1" ∷ "v2" ∷ []) 200 sample_set_valid

capability_ceiling_iff_example :
    Permits
      (policy_of sample_input sample_pack)
      (record { capability_id = "TEST_SYNTH"; strategy_id = some "AT_CREATION" })
    ↔ (Any (λ c. c ≡ "TEST_SYNTH") sample_pack.cleared_capabilities
        × (any (λ d. same_text d "TEST_SYNTH") (disabled_ids sample_input.settings) ≡ false)
        × (some "AT_CREATION" ≡ lookup "TEST_SYNTH" sample_pack.resolution_strategies))
capability_ceiling_iff_example =
    capability_ceiling_iff sample_input (policy_of sample_input sample_pack) sample_pack
      (record { capability_id = "TEST_SYNTH"; strategy_id = some "AT_CREATION" }) sample_resolved
      sample_selected

settings_restrict_example :
    (free : EffectivePolicy) × (resolve_effective_policy (with_settings sample_input none)
      ≡ ok free)
    × ((policy_of sample_input sample_pack).pack_version ≡ free.pack_version)
    × ((entry : CapabilityCeilingEntry)
        → Permits (policy_of sample_input sample_pack) entry
        → Permits free entry)
    × (((policy_of sample_input sample_pack).ai_processing ≡ free.ai_processing)
        ⊎ ((policy_of sample_input sample_pack).ai_processing
            ≡ EffectiveDecision.restricted_by_settings))
settings_restrict_example =
    settings_restrict sample_input (some suspended) (policy_of sample_input sample_pack)
      sample_resolved
