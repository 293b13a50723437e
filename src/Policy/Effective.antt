-- ===== src/Policy/Effective.antt =====
-- packages/jurisdiction-policy/src/resolution/effective-policy.ts: the one resolution that use
-- cases consult, with runtime settings merged in so that they can only restrict.
mod Tests
pub mod Governing
pub mod Restrict
pub mod History
use karar_flutter_version.Prelude.{
  ℕ, String, Bool, true, false, not, Option, none, some, List, [], ◌∷◌, ◌++◌, map, any, find,
  filter, same_text, window_covers, if◌then◌else◌, Result, ok, err, ◌>>=◌,
}
use karar_flutter_version.Policy.Decision.{PolicyDecision}
use karar_flutter_version.Policy.Strategies.{
  ResolutionStrategyRegistry, default_resolution_strategies,
}
use karar_flutter_version.Policy.Pack.{
  PolicyEnvironment, PackLifecycle, ReviewStatus, RulesetReference, ConsentRequirement,
  RetentionPeriod, IdentityRequirement, DisclosurePolicy, ApprovalPolicy, CurrencyPolicy,
  AiProcessingPolicy, SubjectPolicyOptionSet, Keyed, PolicyPack, lookup,
}
use karar_flutter_version.Policy.Lifecycle.{
  ActivationDenialReason, ActivationDecision, allowed, denied, can_activate,
  can_resolve_explicit_version,
}
use karar_flutter_version.Policy.Validation.{
  PackValidationFinding, Slots, decision_entries, validate_pack,
}
pub use karar_flutter_version.Policy.Query.{
  JurisdictionRuntimeSettings, PackSelection, PackSelectionKind, kind_of,
  ResolveEffectivePolicyInput, EffectiveDecision, as_declared, restricted_by_settings,
  CapabilityCeilingEntry, UnresolvedState, UnresolvedPolicyReason, EffectivePolicyProvenance,
  EffectivePolicy, ResolvePolicyError, no_pack_for_jurisdiction, pack_version_not_found,
  no_pack_in_force, overlapping_packs_in_force, pack_not_resolvable, pack_invalid,
}

-- The entries that are pending or unresolved, with their reasons.
pending_slots : Slots → List UnresolvedPolicyReason
pending_slots [] = []
pending_slots ((slot, PolicyDecision.decided _ basis) ∷ rest) = pending_slots rest
pending_slots ((slot, PolicyDecision.pending_legal_review reason) ∷ rest) =
    record { slot = slot; state = UnresolvedState.pending_legal_review; reason = reason }
    ∷ pending_slots rest
pending_slots ((slot, PolicyDecision.unresolved reason) ∷ rest) =
    record { slot = slot; state = UnresolvedState.unresolved; reason = reason } ∷ pending_slots rest

collect_unresolved : PolicyPack → List UnresolvedPolicyReason
unfolding pending_slots
collect_unresolved pack = pending_slots (decision_entries pack)

pub pack_in_force : List PolicyPack → ℕ → List PolicyPack
pack_in_force packs at = filter (λ p. window_covers p.effective_from p.effective_to at) packs

abbrev pub is_allowed : ActivationDecision → Bool
is_allowed allowed = true
is_allowed (denied reasons) = false

abbrev reasons_of : ActivationDecision → List ActivationDenialReason
reasons_of allowed = []
reasons_of (denied reasons) = reasons

-- The explicit selection of a version: the first pack that carries it, if it may be resolved.
pub admit_version :
    PolicyEnvironment → String → Option PolicyPack → Result PolicyPack ResolvePolicyError
admit_version environment version none = err (pack_version_not_found version)
admit_version environment version (some found) =
    elim (can_resolve_explicit_version found environment) [
      | allowed ↦ ok found
      | denied reasons ↦ err (pack_not_resolvable found.version environment reasons)
    ]

-- No pack is eligible: the first one that is blocked is the reason, if there is one.
blocked_error : PolicyEnvironment → ℕ → Option PolicyPack → ResolvePolicyError
blocked_error environment requested_at none = no_pack_in_force requested_at
blocked_error environment requested_at (some blocked) =
    pack_not_resolvable blocked.version environment (reasons_of (can_activate blocked environment))

-- Exactly one eligible pack governs; none and several are errors.
the_eligible :
    PolicyEnvironment
    → ℕ
    → (covering eligible : List PolicyPack) → Result PolicyPack ResolvePolicyError
unfolding blocked_error
the_eligible environment requested_at covering [] = err (
    blocked_error environment requested_at
      (find (λ p. not (is_allowed (can_activate p environment))) covering))
the_eligible environment requested_at covering (pack ∷ []) = ok pack
the_eligible environment requested_at covering (p ∷ q ∷ rest) =
    err (overlapping_packs_in_force (map (λ c. c.version) (p ∷ q ∷ rest)) requested_at)

eligible_packs : PolicyEnvironment → List PolicyPack → List PolicyPack
eligible_packs environment covering = filter (λ p. is_allowed (can_activate p environment)) covering

pub for_jurisdiction : String → List PolicyPack → List PolicyPack
for_jurisdiction jurisdiction packs = filter (λ p. same_text p.jurisdiction jurisdiction) packs

choose :
    PackSelection → PolicyEnvironment → ℕ → List PolicyPack → Result PolicyPack ResolvePolicyError
unfolding admit_version the_eligible
choose (PackSelection.explicit_version version) environment requested_at packs =
    admit_version environment version (find (λ p. same_text p.version version) packs)
choose PackSelection.in_force environment requested_at packs =
    let covering = pack_in_force packs requested_at in
    the_eligible environment requested_at covering (eligible_packs environment covering)

select_from : ResolveEffectivePolicyInput → List PolicyPack → Result PolicyPack ResolvePolicyError
select_from input [] = err (no_pack_for_jurisdiction input.jurisdiction)
select_from input (p ∷ rest) =
    choose input.selection input.environment input.requested_at (p ∷ rest)

pub select_pack : ResolveEffectivePolicyInput → Result PolicyPack ResolvePolicyError
unfolding select_from
select_pack input = select_from input (for_jurisdiction input.jurisdiction input.packs)

abbrev or_else {ℓ} : {A : Type ℓ} → Option A → A → A
or_else none a = a
or_else (some a) b = a

abbrev flatten_option {ℓ κ} : {A : Type ℓ} {B : Type κ} → Option A → (A → Option B) → Option B
flatten_option none f = none
flatten_option (some a) f = f a

pub disabled_ids : Option JurisdictionRuntimeSettings → List String
disabled_ids settings = or_else (flatten_option settings (λ s. s.disabled_capability_ids)) []

pub ai_suspended : Option JurisdictionRuntimeSettings → Bool
ai_suspended settings = or_else (flatten_option settings (λ s. s.ai_processing_suspended)) false

-- The loop over the cleared capabilities.
ceiling_entries : PolicyPack → List String → List String → List CapabilityCeilingEntry
ceiling_entries pack disabled [] = []
ceiling_entries pack disabled (id ∷ rest) =
    let later = ceiling_entries pack disabled rest in
    if any (λ d. same_text d id) disabled
    then later
    else (record { capability_id = id; strategy_id = lookup id pack.resolution_strategies } ∷ later)

-- `table[key] = value`
put {ℓ} : {A : Type ℓ} → String → A → List (String × A) → List (String × A)
put key value [] = (key, value) ∷ []
put key value ((k, a) ∷ rest) =
    let later = put key value rest in
    if same_text k key then ((k, value) ∷ rest) else ((k, a) ∷ later)

strategy_table : PolicyPack → Keyed (Option String) → List String → Keyed (Option String)
unfolding put
strategy_table pack table [] = table
strategy_table pack table (id ∷ rest) =
    strategy_table pack (put id (lookup id pack.resolution_strategies) table) rest

narrow_ai : Bool → PolicyDecision AiProcessingPolicy → EffectiveDecision AiProcessingPolicy
narrow_ai true (PolicyDecision.decided value basis) = restricted_by_settings
narrow_ai _ decision = as_declared decision

pub policy_of : ResolveEffectivePolicyInput → PolicyPack → EffectivePolicy
unfolding collect_unresolved ceiling_entries strategy_table narrow_ai ai_suspended
policy_of input pack = record {
  jurisdiction = pack.jurisdiction;
  pack_version = pack.version;
  pack_lifecycle = pack.lifecycle;
  pack_review_status = pack.review_status;
  effective_from = pack.effective_from;
  effective_to = pack.effective_to;
  environment = input.environment;
  financial_rulesets = pack.financial_rulesets;
  consent_requirements = pack.consent_requirements;
  processing_bases = pack.processing_bases;
  retention = pack.retention;
  identity_requirements = pack.identity_requirements;
  disclosure_policy = pack.disclosure_policy;
  approval_policies = pack.approval_policies;
  currency_policy = pack.currency_policy;
  ai_processing = narrow_ai (ai_suspended input.settings) pack.ai_processing_policy;
  capability_ceiling = ceiling_entries pack (disabled_ids input.settings) pack.cleared_capabilities;
  subject_policy_options = pack.subject_policy_options;
  subject_policy_selection_version = none;
  unresolved = collect_unresolved pack;
  provenance = record {
    jurisdiction = pack.jurisdiction;
    pack_version = pack.version;
    pack_lifecycle = pack.lifecycle;
    selection = kind_of input.selection;
    environment = input.environment;
    requested_at = input.requested_at;
    strategy_by_capability = strategy_table pack [] pack.cleared_capabilities;
    settings_version = flatten_option input.settings (λ s. s.settings_version);
  };
}

pub registry_of : ResolveEffectivePolicyInput → ResolutionStrategyRegistry
registry_of input = or_else input.strategies default_resolution_strategies

pub disclosure_ids : ResolveEffectivePolicyInput → List String
disclosure_ids input = or_else input.disclosure_bearing_capability_ids []

refuse_findings : PolicyPack → List PackValidationFinding → Result PolicyPack ResolvePolicyError
refuse_findings pack [] = ok pack
refuse_findings pack (f ∷ findings) = err (pack_invalid pack.version (f ∷ findings))

pub resolve_effective_policy :
    ResolveEffectivePolicyInput → Result EffectivePolicy ResolvePolicyError
unfolding refuse_findings
resolve_effective_policy input = do
  pack ← select_pack input
  valid ← refuse_findings pack (validate_pack (registry_of input) (disclosure_ids input) pack)
  ok (policy_of input valid)
