-- ===== src/Policy/Pack.antt =====
-- packages/jurisdiction-policy/src/policy-pack.ts and environment.ts: the data of a policy pack. A
-- record keyed by capability, purpose or category is an association list in insertion order with no
-- key twice; a missing key is the source's `undefined`.
use karar_flutter_version.Prelude.{
  ℕ, String, Bool, Option, none, some, List, [], ◌∷◌, same_text, if◌then◌else◌,
}
use karar_flutter_version.Policy.Decision.{PolicyDecision}

pub data PolicyEnvironment : Type 0 where
  local dev staging production : PolicyEnvironment

pub data PackLifecycle : Type 0 where
  draft pending_legal_review approved retired : PackLifecycle

pub data ReviewStatus : Type 0 where
  not_submitted pending_legal_review review_complete : ReviewStatus

pub record RulesetReference : Type 0 where
  pub ruleset_id : String
  pub ruleset_version : String

pub record ConsentRequirement : Type 0 where
  pub purpose_ref : String
  pub document_kind : String

pub record RetentionPeriod : Type 0 where
  pub duration : String

pub record IdentityRequirement : Type 0 where
  pub kind : String
  pub description : String

pub record DisclosurePolicy : Type 0 where
  pub required_document_kinds : List String

pub record ApprovalPolicy : Type 0 where
  pub workflow : String
  pub approver_role : String

pub record CurrencyPolicy : Type 0 where
  pub base_currency : String
  pub permitted_currencies : List String

pub record AiProcessingPolicy : Type 0 where
  pub permitted : Bool
  pub cross_border_transfer_permitted : Bool
  pub conditions : List String

pub record SubjectPolicyOptionSet : Type 0 where
  pub option_set_id : String
  pub version : String
  pub permitted_option_ids : List String

pub record PackProvenance : Type 0 where
  pub declared_by : String
  pub declared_at : ℕ
  pub source : String

abbrev pub Keyed : Type 0 → Type 0
Keyed A = List (String × A)

pub record PolicyPack : Type 0 where
  pub jurisdiction : String
  pub version : String
  pub lifecycle : PackLifecycle
  pub review_status : ReviewStatus
  pub effective_from : ℕ
  pub effective_to : Option ℕ
  pub financial_rulesets : Keyed (PolicyDecision RulesetReference)
  pub consent_requirements : PolicyDecision (List ConsentRequirement)
  pub declared_purposes : List String
  pub processing_bases : Keyed (PolicyDecision String)
  pub retention : Keyed (PolicyDecision RetentionPeriod)
  pub identity_requirements : PolicyDecision (List IdentityRequirement)
  pub disclosure_policy : PolicyDecision DisclosurePolicy
  pub approval_policies : Keyed (PolicyDecision ApprovalPolicy)
  pub currency_policy : PolicyDecision CurrencyPolicy
  pub ai_processing_policy : PolicyDecision AiProcessingPolicy
  pub cleared_capabilities : List String
  pub resolution_strategies : Keyed String
  pub subject_policy_options : Keyed SubjectPolicyOptionSet
  pub provenance : PackProvenance
  pub approval_reference : Option String

-- `table[key]`.
unfoldable pub lookup {ℓ} : {A : Type ℓ} → String → List (String × A) → Option A
lookup key [] = none
lookup key ((k, a) ∷ rest) = if same_text k key then some a else lookup key rest
