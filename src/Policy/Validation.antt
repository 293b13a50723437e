-- ===== src/Policy/Validation.antt =====
-- packages/jurisdiction-policy/src/validation.ts: the structural defects of a pack, and of a set of
-- packs. The texts of the messages are left out.
pub mod Grounded
pub mod Sound
pub mod Sets
pub mod Samples
use Prim.Native.String
use karar_flutter_version.Prelude.{
  ℕ, String, Bool, true, false, not, ◌&&◌, ◌||◌, Option, none, some, List, [], ◌∷◌, ◌++◌, map, any,
  is_blank, same_text, leb, ltb, ends_after, if◌then◌else◌,
}
use karar_flutter_version.Policy.Decision.{
  PolicyDecision, decided, pending_legal_review, unresolved, is_decided, outline,
}
use karar_flutter_version.Policy.Strategies.{ResolutionStrategyRegistry, has}
use karar_flutter_version.Policy.Pack.{PackLifecycle, Keyed, PolicyPack, lookup}
use karar_flutter_version.Policy.Lifecycle.{lacks_evidence}

pub data PackValidationFinding : Type 0 where
  missing_version missing_jurisdiction invalid_effective_period : PackValidationFinding
  missing_resolution_strategy : (capability_id : String) → PackValidationFinding
  unknown_resolution_strategy : (capability_id strategy_id : String) → PackValidationFinding
  missing_processing_basis : (purpose_ref : String) → PackValidationFinding
  missing_approval_policy : (capability_id : String) → PackValidationFinding
  approval_evidence_missing : PackValidationFinding
  decision_without_basis : (slot : String) → PackValidationFinding
  overlapping_effective_periods : (version_a version_b : String) → PackValidationFinding
  duplicate_version : (version : String) → PackValidationFinding

abbrev pub Slots : Type 0
Slots = List (String × PolicyDecision (Unit {0}))

-- The slots of a keyed table, each under `table['key']`.
slots : {A : Type 0} → String → Keyed (PolicyDecision A) → Slots
slots table [] = []
slots table ((key, decision) ∷ rest) =
    (String.◌++◌ table (String.◌++◌ "['" (String.◌++◌ key "']")), outline decision)
    ∷ slots table rest

unfoldable pub decision_entries : PolicyPack → Slots
unfolding slots
decision_entries pack =
    slots "financialRulesets" pack.financial_rulesets
    ++ (("consentRequirements", outline pack.consent_requirements)
        ∷ (slots "processingBases" pack.processing_bases
            ++ (slots "retention" pack.retention
                ++ (("identityRequirements", outline pack.identity_requirements)
                    ∷ ("disclosurePolicy", outline pack.disclosure_policy)
                    ∷ (slots "approvalPolicies" pack.approval_policies
                        ++ (("currencyPolicy", outline pack.currency_policy)
                            ∷ ("aiProcessingPolicy", outline pack.ai_processing_policy)
                            ∷ []))))))

abbrev pub finding_if : Bool → PackValidationFinding → List PackValidationFinding
finding_if true f = f ∷ []
finding_if false f = []

abbrev pub each_finding {ℓ} :
    {A : Type ℓ} → (A → List PackValidationFinding) → List A → List PackValidationFinding
each_finding f [] = []
each_finding f (a ∷ rest) = f a ++ each_finding f rest

-- `effectiveTo !== null && effectiveTo.getTime() <= effectiveFrom.getTime()`
ends_too_early : ℕ → Option ℕ → Bool
ends_too_early effective_from effective_to = not (ends_after effective_to effective_from)

claims_approval : PackLifecycle → Bool
claims_approval PackLifecycle.approved = true
claims_approval _ = false

strategy_findings : ResolutionStrategyRegistry → String → Option String → List PackValidationFinding
strategy_findings strategies capability_id none = missing_resolution_strategy capability_id ∷ []
strategy_findings strategies capability_id (some strategy_id) =
    if is_blank strategy_id
    then missing_resolution_strategy capability_id ∷ []
    else finding_if (not (has strategies strategy_id))
        (unknown_resolution_strategy capability_id strategy_id)

is_decided_entry {ℓ} : {A : Type ℓ} → Option (PolicyDecision A) → Bool
is_decided_entry none = false
is_decided_entry (some decision) = is_decided decision

capability_findings :
    ResolutionStrategyRegistry → List String → PolicyPack → String → List PackValidationFinding
unfolding strategy_findings is_decided_entry
capability_findings strategies disclosure_bearing pack capability_id =
    strategy_findings strategies capability_id (lookup capability_id pack.resolution_strategies)
    ++ finding_if
        (any (λ id. same_text id capability_id) disclosure_bearing
          && not (is_decided_entry (lookup capability_id pack.approval_policies)))
        (missing_approval_policy capability_id)

is_absent {ℓ} : {A : Type ℓ} → Option A → Bool
is_absent none = true
is_absent (some a) = false

purpose_findings : PolicyPack → String → List PackValidationFinding
unfolding is_absent
purpose_findings pack purpose_ref =
    finding_if (is_absent (lookup purpose_ref pack.processing_bases))
      (missing_processing_basis purpose_ref)

basis_findings : String × PolicyDecision (Unit {0}) → List PackValidationFinding
basis_findings (slot, decided _ basis) = finding_if (is_blank basis) (decision_without_basis slot)
basis_findings (slot, pending_legal_review reason) = []
basis_findings (slot, unresolved reason) = []

-- The registry and the disclosure-bearing ids are the validation context.
unfoldable pub validate_pack :
    ResolutionStrategyRegistry → List String → PolicyPack → List PackValidationFinding
unfolding ends_too_early claims_approval capability_findings purpose_findings basis_findings
validate_pack strategies disclosure_bearing pack =
    finding_if (is_blank pack.version) missing_version
    ++ (finding_if (is_blank pack.jurisdiction) missing_jurisdiction
        ++ (finding_if (ends_too_early pack.effective_from pack.effective_to)
              invalid_effective_period
            ++ (finding_if
                  (claims_approval pack.lifecycle && lacks_evidence pack.approval_reference)
                  approval_evidence_missing
                ++ (each_finding (capability_findings strategies disclosure_bearing pack)
                      pack.cleared_capabilities
                    ++ (each_finding (purpose_findings pack) pack.declared_purposes
                        ++ each_finding basis_findings (decision_entries pack))))))

pack_key : PolicyPack → String
pack_key pack = String.◌++◌ pack.jurisdiction (String.◌++◌ "#" pack.version)

-- The loop that collects the versions seen.
duplicate_findings : List String → List PolicyPack → List PackValidationFinding
unfolding pack_key
duplicate_findings seen [] = []
duplicate_findings seen (pack ∷ rest) =
    finding_if (any (λ key. same_text key (pack_key pack)) seen) (duplicate_version pack.version)
    ++ duplicate_findings (pack_key pack ∷ seen) rest

overlap_findings : PolicyPack → PolicyPack → List PackValidationFinding
overlap_findings a b =
    if not (same_text a.jurisdiction b.jurisdiction)
    then []
    else finding_if
        ((ends_after b.effective_to a.effective_from && ends_after a.effective_to b.effective_from)
          && not (same_text a.version b.version))
        (overlapping_effective_periods a.version b.version)

-- The loop over the pairs i < j.
pair_findings : List PolicyPack → List PackValidationFinding
unfolding overlap_findings
pair_findings [] = []
pair_findings (a ∷ rest) = each_finding (overlap_findings a) rest ++ pair_findings rest

pub validate_pack_set :
    ResolutionStrategyRegistry → List String → List PolicyPack → List PackValidationFinding
unfolding duplicate_findings pair_findings
validate_pack_set strategies disclosure_bearing packs =
    each_finding (validate_pack strategies disclosure_bearing) packs
    ++ (duplicate_findings [] packs ++ pair_findings packs)
