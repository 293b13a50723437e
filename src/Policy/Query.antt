-- ===== src/Policy/Query.antt =====
-- packages/jurisdiction-policy/src/resolution/effective-policy.ts: the question that a use case puts
-- to the policies of a build, and the answer.
use karar_flutter_version.Prelude.{ℕ, String, Bool, Option, List}
use karar_flutter_version.Policy.Decision.{PolicyDecision}
use karar_flutter_version.Policy.Strategies.{ResolutionStrategyRegistry}
use karar_flutter_version.Policy.Pack.{
  PolicyEnvironment, PackLifecycle, ReviewStatus, RulesetReference, ConsentRequirement,
  RetentionPeriod, IdentityRequirement, DisclosurePolicy, ApprovalPolicy, CurrencyPolicy,
  AiProcessingPolicy, SubjectPolicyOptionSet, Keyed, PolicyPack,
}
use karar_flutter_version.Policy.Lifecycle.{ActivationDenialReason}
use karar_flutter_version.Policy.Validation.{PackValidationFinding}

-- `none` is a field that the settings leave out.
pub record JurisdictionRuntimeSettings : Type 0 where
  pub disabled_capability_ids : Option (List String)
  pub ai_processing_suspended : Option Bool
  pub settings_version : Option ℕ

pub data PackSelection : Type 0 where
  in_force : PackSelection
  explicit_version : String → PackSelection

pub data PackSelectionKind : Type 0 where
  in_force explicit_version : PackSelectionKind

abbrev pub kind_of : PackSelection → PackSelectionKind
kind_of PackSelection.in_force = PackSelectionKind.in_force
kind_of (PackSelection.explicit_version version) = PackSelectionKind.explicit_version

pub record ResolveEffectivePolicyInput : Type 0 where
  pub jurisdiction : String
  pub requested_at : ℕ
  pub packs : List PolicyPack
  pub selection : PackSelection
  pub settings : Option JurisdictionRuntimeSettings
  pub environment : PolicyEnvironment
  pub strategies : Option ResolutionStrategyRegistry
  pub disclosure_bearing_capability_ids : Option (List String)

pub data EffectiveDecision {ℓ} (T : Type ℓ) : Type ℓ where
  as_declared : PolicyDecision T → EffectiveDecision T
  restricted_by_settings : EffectiveDecision T

-- `none` would be a cleared capability with no strategy, which validation refuses.
pub record CapabilityCeilingEntry : Type 0 where
  pub capability_id : String
  pub strategy_id : Option String

pub data UnresolvedState : Type 0 where
  pending_legal_review unresolved : UnresolvedState

-- `slot` is the source's `where`.
pub record UnresolvedPolicyReason : Type 0 where
  pub slot : String
  pub state : UnresolvedState
  pub reason : String

pub record EffectivePolicyProvenance : Type 0 where
  pub jurisdiction : String
  pub pack_version : String
  pub pack_lifecycle : PackLifecycle
  pub selection : PackSelectionKind
  pub environment : PolicyEnvironment
  pub requested_at : ℕ
  pub strategy_by_capability : Keyed (Option String)
  pub settings_version : Option ℕ

pub record EffectivePolicy : Type 0 where
  pub jurisdiction : String
  pub pack_version : String
  pub pack_lifecycle : PackLifecycle
  pub pack_review_status : ReviewStatus
  pub effective_from : ℕ
  pub effective_to : Option ℕ
  pub environment : PolicyEnvironment
  pub financial_rulesets : Keyed (PolicyDecision RulesetReference)
  pub consent_requirements : PolicyDecision (List ConsentRequirement)
  pub processing_bases : Keyed (PolicyDecision String)
  pub retention : Keyed (PolicyDecision RetentionPeriod)
  pub identity_requirements : PolicyDecision (List IdentityRequirement)
  pub disclosure_policy : PolicyDecision DisclosurePolicy
  pub approval_policies : Keyed (PolicyDecision ApprovalPolicy)
  pub currency_policy : PolicyDecision CurrencyPolicy
  pub ai_processing : EffectiveDecision AiProcessingPolicy
  pub capability_ceiling : List CapabilityCeilingEntry
  pub subject_policy_options : Keyed SubjectPolicyOptionSet
  pub subject_policy_selection_version : Option String
  pub unresolved : List UnresolvedPolicyReason
  pub provenance : EffectivePolicyProvenance

pub data ResolvePolicyError : Type 0 where
  no_pack_for_jurisdiction : (jurisdiction : String) → ResolvePolicyError
  pack_version_not_found : (version : String) → ResolvePolicyError
  no_pack_in_force : (requested_at : ℕ) → ResolvePolicyError
  overlapping_packs_in_force : (versions : List String) (requested_at : ℕ) → ResolvePolicyError
  pack_not_resolvable :
      (version : String) (environment : PolicyEnvironment) (reasons : List ActivationDenialReason)
      → ResolvePolicyError
  pack_invalid : (version : String) (findings : List PackValidationFinding) → ResolvePolicyError
