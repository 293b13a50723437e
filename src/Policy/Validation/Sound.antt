-- ===== src/Policy/Validation/Sound.antt =====
-- A pack has no findings exactly when it is well formed.
use karar_flutter_version.Prelude.{
  ℕ, ◌<◌, String, Bool, ◌≡◌, refl, true, false, ◌⊎◌, inl, inr, ◌↔◌, ◌≢◌, Option, none, some, List,
  [], ◌∷◌, ◌++◌, All, any, is_blank, same_text, append-eq-nil, arith, ◌&&◌, not,
}
use karar_flutter_version.Policy.Decision.{
  PolicyDecision, decided, pending_legal_review, unresolved,
}
use karar_flutter_version.Policy.Strategies.{ResolutionStrategyRegistry, has}
use karar_flutter_version.Policy.Pack.{PackLifecycle, PolicyPack, ApprovalPolicy, lookup}
use karar_flutter_version.Policy.Lifecycle.{lacks_evidence}
use karar_flutter_version.Policy.Lifecycle.Evidence.{HasEvidence}
use karar_flutter_version.Policy.Validation.{
  PackValidationFinding, finding_if, each_finding, ends_too_early, claims_approval,
  strategy_findings, is_decided_entry, capability_findings, is_absent, purpose_findings,
  basis_findings, decision_entries, validate_pack,
}
use karar_flutter_version.Policy.Validation.Grounded.{
  HasBasis, IsGrounded, decision_entries-IsGrounded,
}

abbrev pub EndsLater : ℕ → Option ℕ → Type 0
EndsLater effective_from none = Unit
EndsLater effective_from (some end) = effective_from < end

-- The strategy has a name that is not blank and that the registry knows.
abbrev pub IsRegistered : ResolutionStrategyRegistry → Option String → Type 0
IsRegistered strategies o =
    (id : String) × (o ≡ some id) × (is_blank id ≡ false) × (has strategies id ≡ true)

abbrev pub IsDecided : Option (PolicyDecision ApprovalPolicy) → Type 0
IsDecided o = (p : ApprovalPolicy) × (basis : String) × (o ≡ some (decided p basis))

-- The structure that the validator asks of a pack.
pub record IsWellFormed (strategies : ResolutionStrategyRegistry) (disclosing : List String)
    (pack : PolicyPack) : Type 0 where
  pub version : is_blank pack.version ≡ false
  pub jurisdiction : is_blank pack.jurisdiction ≡ false
  pub period : EndsLater pack.effective_from pack.effective_to
  pub evidence : (pack.lifecycle ≢ PackLifecycle.approved) ⊎ HasEvidence pack.approval_reference
  pub strategy :
      All
        (λ c. IsRegistered strategies (lookup c pack.resolution_strategies))
        pack.cleared_capabilities
  pub approval :
      All
        (λ c.
          (any (λ id. same_text id c) disclosing ≡ false)
          ⊎ IsDecided (lookup c pack.approval_policies))
        pack.cleared_capabilities
  pub basis :
      All
        (λ p. (d : PolicyDecision String) × (lookup p pack.processing_bases ≡ some d))
        pack.declared_purposes
  pub grounded : IsGrounded pack

finding_if-eq-nil : (b : Bool) (f : PackValidationFinding) → (finding_if b f ≡ []) ↔ (b ≡ false)
finding_if-eq-nil true f = ground arith
finding_if-eq-nil false f = ground arith

each_finding-eq-nil :
    {A : Type 0} (f : A → List PackValidationFinding) (xs : List A)
    → (each_finding f xs ≡ []) ↔ All (λ a. f a ≡ []) xs
each_finding-eq-nil f [] = (λ h. tt, λ h. refl)
each_finding-eq-nil f (x ∷ xs) =
    ground (arith, append-eq-nil (f x) (each_finding f xs), each_finding-eq-nil f xs)

-- A property of every entry may be replaced by an equivalent one.
All-iff :
    {A : Type 0} (P Q : A → Type 0) (law : (a : A) → P a ↔ Q a) (xs : List A) → All P xs ↔ All Q xs
All-iff P Q law [] = (λ h. h, λ h. h)
All-iff P Q law (x ∷ xs) =
    let (to, from) = All-iff P Q law xs in
    (λ h. ((law x).0 h.0, to h.1), λ h. ((law x).1 h.0, from h.1))

All-and :
    {A : Type 0} (P Q : A → Type 0) (xs : List A) → All (λ a. P a × Q a) xs ↔ (All P xs × All Q xs)
All-and P Q [] = (λ h. (tt, tt), λ h. tt)
All-and P Q (x ∷ xs) =
    let (to, from) = All-and P Q xs in
    (
      λ h. let (ps, qs) = to h.1 in ((h.0.0, ps), (h.0.1, qs)),
      λ h. ((h.0.0, h.1.0), from (h.0.1, h.1.1)),
    )

ends_too_early-false :
    (start : ℕ) (end : Option ℕ) → (ends_too_early start end ≡ false) ↔ EndsLater start end
unfolding ends_too_early
ends_too_early-false start none = ground arith
ends_too_early-false start (some end) = ground arith

lacks_evidence-false : (o : Option String) → (lacks_evidence o ≡ false) ↔ HasEvidence o
unfolding lacks_evidence
lacks_evidence-false none = (λ h. ground arith, λ (r, e, b). ground arith)
lacks_evidence-false (some r) = (λ h. (r, refl, h), λ (x, e, b). ground (arith, e, b))

evidence_iff :
    (l : PackLifecycle) (o : Option String)
    → ((claims_approval l && lacks_evidence o) ≡ false)
      ↔ ((l ≢ PackLifecycle.approved) ⊎ HasEvidence o)
unfolding claims_approval
evidence_iff PackLifecycle.approved o =
    let law = lacks_evidence-false o in
    (λ h. inr (law.0 h), λ h. elim h [ inl never ↦ absurd (never refl) | inr held ↦ law.1 held ])
evidence_iff PackLifecycle.draft o = (λ h. inl (λ e. ground (arith, e)), λ h. refl)
evidence_iff PackLifecycle.pending_legal_review o = (λ h. inl (λ e. ground (arith, e)), λ h. refl)
evidence_iff PackLifecycle.retired o = (λ h. inl (λ e. ground (arith, e)), λ h. refl)

strategy_findings_iff :
    (s : ResolutionStrategyRegistry) (c : String) (o : Option String)
    → (strategy_findings s c o ≡ []) ↔ IsRegistered s o
unfolding strategy_findings
strategy_findings_iff s c none = (λ h. ground arith, λ (i, e, b, k). ground arith)
strategy_findings_iff s c (some id) =
    (λ h. (id, refl, ground arith, ground arith), λ (i, e, b, k). ground (arith, e, b, k))

is_decided_entry_iff :
    (o : Option (PolicyDecision ApprovalPolicy)) → (is_decided_entry o ≡ true) ↔ IsDecided o
unfolding is_decided_entry
is_decided_entry_iff none = (λ h. ground arith, λ (p, b, e). ground arith)
is_decided_entry_iff (some (decided p basis)) = (λ h. (p, basis, refl), λ h. refl)
is_decided_entry_iff (some (pending_legal_review reason)) =
    (λ h. ground arith, λ (p, b, e). ground (arith, e))
is_decided_entry_iff (some (unresolved reason)) =
    (λ h. ground arith, λ (p, b, e). ground (arith, e))

approval_finding_iff :
    (disclosing : Bool) (o : Option (PolicyDecision ApprovalPolicy))
    → ((disclosing && not (is_decided_entry o)) ≡ false) ↔ ((disclosing ≡ false) ⊎ IsDecided o)
approval_finding_iff false o = (λ h. inl refl, λ h. refl)
approval_finding_iff true o =
    let law = is_decided_entry_iff o in
    (
      λ h. inr (law.0 (ground (arith, h))),
      λ h. elim h [ inl never ↦ ground (arith, never) | inr is ↦ ground (arith, law.1 is) ],
    )

capability_findings_iff :
    (s : ResolutionStrategyRegistry) (disclosing : List String) (pack : PolicyPack) (c : String)
    → (capability_findings s disclosing pack c ≡ []) ↔ (
        IsRegistered s (lookup c pack.resolution_strategies)
        × ((any (λ id. same_text id c) disclosing ≡ false)
            ⊎ IsDecided (lookup c pack.approval_policies)))
unfolding capability_findings
capability_findings_iff s disclosing pack c =
    let o = lookup c pack.approval_policies in
    let open_to = any (λ id. same_text id c) disclosing in
    let named = strategy_findings_iff s c (lookup c pack.resolution_strategies) in
    let approved = approval_finding_iff open_to o in
    let flag =
      finding_if-eq-nil (open_to && not (is_decided_entry o))
        (PackValidationFinding.missing_approval_policy c) in
    let both = append-eq-nil (strategy_findings s c (lookup c pack.resolution_strategies)) (
      finding_if (open_to && not (is_decided_entry o))
        (PackValidationFinding.missing_approval_policy c)) in
    (
      λ h. let (a, b) = both.0 h in (named.0 a, approved.0 (flag.0 b)),
      λ (a, b). both.1 (named.1 a, flag.1 (approved.1 b)),
    )

purpose_findings_iff :
    (pack : PolicyPack) (p : String)
    → (purpose_findings pack p ≡ [])
      ↔ ((d : PolicyDecision String) × (lookup p pack.processing_bases ≡ some d))
unfolding purpose_findings
purpose_findings_iff pack p = absent_iff (lookup p pack.processing_bases)
  where
    absent_iff :
        (o : Option (PolicyDecision String))
        → (finding_if (is_absent o) (PackValidationFinding.missing_processing_basis p) ≡ [])
          ↔ ((d : PolicyDecision String) × (o ≡ some d))
    absent_iff none = (λ h. ground arith, λ (d, e). ground (arith, e))
    absent_iff (some d) = (λ h. (d, refl), λ h. refl)

basis_findings_iff :
    (e : String × PolicyDecision (Unit {0})) → (basis_findings e ≡ []) ↔ HasBasis e.1
unfolding basis_findings
basis_findings_iff (slot, decided v basis) = finding_if-eq-nil _ _
basis_findings_iff (slot, pending_legal_review reason) = (λ h. tt, λ h. refl)
basis_findings_iff (slot, unresolved reason) = (λ h. tt, λ h. refl)

-- Four tests of the pack, and three loops.
findings-eq-nil :
    (v j p a : Bool) (c u b : List PackValidationFinding)
    → (finding_if v PackValidationFinding.missing_version
          ++ (finding_if j PackValidationFinding.missing_jurisdiction
              ++ (finding_if p PackValidationFinding.invalid_effective_period
                  ++ (finding_if a PackValidationFinding.approval_evidence_missing
                      ++ (c ++ (u ++ b)))))
        ≡ [])
      ↔ ((v ≡ false) × (j ≡ false) × (p ≡ false) × (a ≡ false) × (c ≡ []) × (u ≡ []) × (b ≡ []))
findings-eq-nil v j p a c u b = ground (arith, append-eq-nil c (u ++ b), append-eq-nil u b)

-- The validator reports nothing about a pack exactly when the pack is well formed: its version and
-- jurisdiction are not blank, its period ends after it starts, an approval has its evidence, every
-- cleared capability names a registered strategy and, if disclosure-bearing, has a decided approval
-- policy, every declared purpose has a basis entry, and every decision has a basis.
pub validate_pack_iff :
    (strategies : ResolutionStrategyRegistry) (disclosing : List String) (pack : PolicyPack)
    → (validate_pack strategies disclosing pack ≡ []) ↔ IsWellFormed strategies disclosing pack
unfolding validate_pack
validate_pack_iff strategies disclosing pack =
    let parts =
      findings-eq-nil (is_blank pack.version) (is_blank pack.jurisdiction)
        (ends_too_early pack.effective_from pack.effective_to)
        (claims_approval pack.lifecycle && lacks_evidence pack.approval_reference)
        (each_finding (capability_findings strategies disclosing pack) pack.cleared_capabilities)
        (each_finding (purpose_findings pack) pack.declared_purposes)
        (each_finding basis_findings (decision_entries pack)) in
    let cleared =
      each_finding-eq-nil (capability_findings strategies disclosing pack)
        pack.cleared_capabilities in
    let capable =
      All-iff _ _ (capability_findings_iff strategies disclosing pack) pack.cleared_capabilities in
    let halves =
      All-and (λ c. IsRegistered strategies (lookup c pack.resolution_strategies))
        (λ c.
          (any (λ id. same_text id c) disclosing ≡ false)
          ⊎ IsDecided (lookup c pack.approval_policies))
        pack.cleared_capabilities in
    let purposes = each_finding-eq-nil (purpose_findings pack) pack.declared_purposes in
    let based = All-iff _ _ (purpose_findings_iff pack) pack.declared_purposes in
    let decisions = each_finding-eq-nil basis_findings (decision_entries pack) in
    let sound = All-iff _ _ basis_findings_iff (decision_entries pack) in
    let nine = decision_entries-IsGrounded pack in
    (
      λ h.
          let (v, j, p, a, c, u, b) = parts.0 h in
          let (strategy, approval) = halves.0 (capable.0 (cleared.0 c)) in
          record {
            version = v;
            jurisdiction = j;
            period = (ends_too_early-false _ _).0 p;
            evidence = (evidence_iff _ _).0 a;
            strategy = strategy;
            approval = approval;
            basis = based.0 (purposes.0 u);
            grounded = nine.0 (sound.0 (decisions.0 b));
          },
      λ w. parts.1 (
        w.version,
        w.jurisdiction,
        (ends_too_early-false _ _).1 w.period,
        (evidence_iff _ _).1 w.evidence,
        cleared.1 (capable.1 (halves.1 (w.strategy, w.approval))),
        purposes.1 (based.1 w.basis),
        decisions.1 (sound.1 (nine.1 w.grounded)),
      ),
    )
