-- ===== src/Policy/Validation/Grounded.antt =====
-- The decision slots of a pack, each with a basis where it is decided.
use karar_flutter_version.Prelude.{String, ◌≡◌, ◌↔◌, [], ◌∷◌, ◌++◌, All, is_blank, false}
use karar_flutter_version.Policy.Decision.{
  PolicyDecision, decided, pending_legal_review, unresolved, outline,
}
use karar_flutter_version.Policy.Pack.{Keyed, PolicyPack}
use karar_flutter_version.Policy.Validation.{Slots, slots, decision_entries}

-- A decision that was made names a basis that is not blank.
abbrev pub HasBasis : {A : Type 0} → PolicyDecision A → Type 0
HasBasis (decided _ basis) = is_blank basis ≡ false
HasBasis (pending_legal_review reason) = Unit
HasBasis (unresolved reason) = Unit

abbrev pub HaveBases : {A : Type 0} → Keyed (PolicyDecision A) → Type 0
HaveBases table = All (λ e. HasBasis e.1) table

-- The nine slots of a pack.
pub record IsGrounded (pack : PolicyPack) : Type 0 where
  pub financial_rulesets : HaveBases pack.financial_rulesets
  pub consent_requirements : HasBasis pack.consent_requirements
  pub processing_bases : HaveBases pack.processing_bases
  pub retention : HaveBases pack.retention
  pub identity_requirements : HasBasis pack.identity_requirements
  pub disclosure_policy : HasBasis pack.disclosure_policy
  pub approval_policies : HaveBases pack.approval_policies
  pub currency_policy : HasBasis pack.currency_policy
  pub ai_processing_policy : HasBasis pack.ai_processing_policy

outline-HasBasis : {A : Type 0} (d : PolicyDecision A) → HasBasis (outline d) ↔ HasBasis d
outline-HasBasis (decided a basis) = ((λ h. h), (λ h. h))
outline-HasBasis (pending_legal_review reason) = ((λ h. h), (λ h. h))
outline-HasBasis (unresolved reason) = ((λ h. h), (λ h. h))

-- The slots of a table, before other slots.
slots-HaveBases :
    {A : Type 0} (table : String) (xs : Keyed (PolicyDecision A)) (rest : Slots)
    → All (λ e. HasBasis e.1) (slots table xs ++ rest)
      ↔ (HaveBases xs × All (λ e. HasBasis e.1) rest)
unfolding slots
slots-HaveBases table [] rest = ((λ h. (tt, h)), (λ h. h.1))
slots-HaveBases table ((key, d) ∷ xs) rest =
    let (to, from) = slots-HaveBases table xs rest in
    let (into, back) = outline-HasBasis d in
    ((λ h. let (a, b) = to h.1 in ((into h.0, a), b)), (λ (h, b). (back h.0, from (h.1, b))))

pub decision_entries-IsGrounded :
    (pack : PolicyPack) → All (λ e. HasBasis e.1) (decision_entries pack) ↔ IsGrounded pack
unfolding decision_entries
decision_entries-IsGrounded pack =
    let rulesets = slots-HaveBases "financialRulesets" pack.financial_rulesets _ in
    let consent = outline-HasBasis pack.consent_requirements in
    let bases = slots-HaveBases "processingBases" pack.processing_bases _ in
    let retained = slots-HaveBases "retention" pack.retention _ in
    let identity = outline-HasBasis pack.identity_requirements in
    let disclosure = outline-HasBasis pack.disclosure_policy in
    let approvals = slots-HaveBases "approvalPolicies" pack.approval_policies _ in
    let currency = outline-HasBasis pack.currency_policy in
    let ai = outline-HasBasis pack.ai_processing_policy in
    (
      (λ h.
          let (a, b) = rulesets.0 h in
          let (c, d) = bases.0 b.1 in
          let (e, f) = retained.0 d in
          let (g, i) = approvals.0 f.1.1 in
          record {
            financial_rulesets = a;
            consent_requirements = consent.0 b.0;
            processing_bases = c;
            retention = e;
            identity_requirements = identity.0 f.0;
            disclosure_policy = disclosure.0 f.1.0;
            approval_policies = g;
            currency_policy = currency.0 i.0;
            ai_processing_policy = ai.0 i.1.0;
          }),
      (λ w. rulesets.1 (
        w.financial_rulesets,
        (
          consent.1 w.consent_requirements,
          bases.1 (
            w.processing_bases,
            retained.1 (
              w.retention,
              (
                identity.1 w.identity_requirements,
                (
                  disclosure.1 w.disclosure_policy,
                  approvals.1 (
                    w.approval_policies,
                    (currency.1 w.currency_policy, (ai.1 w.ai_processing_policy, tt)),
                  ),
                ),
              ),
            ),
          ),
        ),
      )),
    )
