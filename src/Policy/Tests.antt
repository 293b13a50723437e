-- ===== src/Policy/Tests.antt =====
-- The theorems on registries, life cycles and validation, at concrete packs.
use karar_flutter_version.Prelude.{◌≤◌, ◌≡◌, ◌↔◌, ◌⊎◌, some, [], ◌∷◌, filter, length}
use karar_flutter_version.Policy.Strategies.{default_resolution_strategies}
use karar_flutter_version.Policy.Pack.{PolicyEnvironment, PackLifecycle}
use karar_flutter_version.Policy.Lifecycle.{allowed, can_activate, can_resolve_explicit_version}
use karar_flutter_version.Policy.Lifecycle.Evidence.{
  HasEvidence, IsLocalDraft, can_activate_iff, can_resolve_explicit_version_iff,
}
use karar_flutter_version.Policy.Validation.{validate_pack}
use karar_flutter_version.Policy.Validation.Sound.{IsWellFormed, validate_pack_iff}
use karar_flutter_version.Policy.Validation.Sets.{in_force_for, validate_pack_set-one_in_force}
use karar_flutter_version.Policy.Validation.Samples.{sample_pack, disclosing_ids, sample_set_valid}

can_activate_iff_example : (can_activate sample_pack PolicyEnvironment.production ≡ allowed) ↔ (
    ((PackLifecycle.approved ≡ PackLifecycle.approved) × HasEvidence (some "approval-7"))
    ⊎ IsLocalDraft PackLifecycle.approved PolicyEnvironment.production)
can_activate_iff_example = can_activate_iff sample_pack PolicyEnvironment.production

can_resolve_explicit_version_iff_example :
    (can_resolve_explicit_version sample_pack PolicyEnvironment.staging ≡ allowed) ↔ (
      (can_activate sample_pack PolicyEnvironment.staging ≡ allowed)
      ⊎ ((PackLifecycle.approved ≡ PackLifecycle.retired)
          × ((PolicyEnvironment.staging ≡ PolicyEnvironment.local)
              ⊎ HasEvidence (some "approval-7"))))
can_resolve_explicit_version_iff_example =
    can_resolve_explicit_version_iff sample_pack PolicyEnvironment.staging

validate_pack_iff_example :
    (validate_pack default_resolution_strategies disclosing_ids sample_pack ≡ [])
    ↔ IsWellFormed default_resolution_strategies disclosing_ids sample_pack
validate_pack_iff_example =
    validate_pack_iff default_resolution_strategies disclosing_ids sample_pack

validate_pack_set-one_in_force_example :
    length (filter (in_force_for "zz" 200) (sample_pack ∷ [])) ≤ 1
validate_pack_set-one_in_force_example =
    validate_pack_set-one_in_force default_resolution_strategies disclosing_ids (sample_pack ∷ [])
      "zz" 200 sample_set_valid
