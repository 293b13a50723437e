-- ===== src/Policy/Validation/Samples.antt =====
-- A pack without findings, on which the theorems are tried.
use karar_flutter_version.Prelude.{is_blank, ◌≡◌, refl, String, true, false, some, List, [], ◌∷◌}
use karar_flutter_version.Policy.Decision.{decided, pending_legal_review, unresolved}
use karar_flutter_version.Policy.Strategies.{has, default_resolution_strategies}
use karar_flutter_version.Policy.Pack.{PackLifecycle, ReviewStatus, PolicyPack, lookup}
use karar_flutter_version.Policy.Lifecycle.{lacks_evidence}
use karar_flutter_version.Policy.Validation.{
  validate_pack, validate_pack_set, capability_findings, strategy_findings, is_decided_entry,
  purpose_findings, is_absent, basis_findings, ends_too_early, claims_approval, decision_entries,
  duplicate_findings, pair_findings,
}

abbrev pub sample_pack : PolicyPack
sample_pack = record {
  jurisdiction = "zz";
  version = "v1";
  lifecycle = PackLifecycle.approved;
  review_status = ReviewStatus.review_complete;
  effective_from = 100;
  effective_to = some 900;
  financial_rulesets = [];
  consent_requirements = pending_legal_review "counsel";
  declared_purposes = "purpose:synthetic" ∷ [];
  processing_bases = ("purpose:synthetic", decided "CONSENT" "memo 1") ∷ [];
  retention = [];
  identity_requirements = unresolved "open";
  disclosure_policy = unresolved "open";
  approval_policies =
      ("TEST_SYNTH", decided (record { workflow = "two-step"; approver_role = "officer" }) "memo 2")
      ∷ [];
  currency_policy =
      decided (record { base_currency = "QAR"; permitted_currencies = "QAR" ∷ [] }) "memo 3";
  ai_processing_policy =
      decided
        (record { permitted = true; cross_border_transfer_permitted = false; conditions = [] })
        "memo 4";
  cleared_capabilities = "TEST_SYNTH" ∷ "TEST_OTHER" ∷ [];
  resolution_strategies = ("TEST_SYNTH", "AT_CREATION") ∷ ("TEST_OTHER", "MOST_RESTRICTIVE") ∷ [];
  subject_policy_options = [];
  provenance = record { declared_by = "team"; declared_at = 10; source = "code" };
  approval_reference = some "approval-7";
}

abbrev pub disclosing_ids : List String
disclosing_ids = "TEST_SYNTH" ∷ []

pub sample_pack_valid : validate_pack default_resolution_strategies disclosing_ids sample_pack ≡ []
unfolding is_blank validate_pack capability_findings strategy_findings is_decided_entry
    purpose_findings is_absent basis_findings ends_too_early claims_approval decision_entries
    default_resolution_strategies lookup has lacks_evidence
sample_pack_valid = refl

pub sample_set_valid :
    validate_pack_set default_resolution_strategies disclosing_ids (sample_pack ∷ []) ≡ []
unfolding validate_pack_set duplicate_findings pair_findings
sample_set_valid = rw sample_pack_valid refl
