-- ===== src/Policy/Validation/Sets.antt =====
-- In a set of packs with no findings, one instant has at most one pack of a jurisdiction in force.
use karar_flutter_version.Prelude.{
  ℕ, ◌≤◌, String, ◌≡◌, refl, sym, ap, true, inl, inr, ◌≢◌, Option, none, some, List, [], ◌∷◌, ◌++◌,
  All, any, filter, length, same_text, eq_iff, append-eq-nil, window_covers, arith, Bool-cases,
  Bool, ends_after, ◌&&◌,
}
use karar_flutter_version.Policy.Strategies.{ResolutionStrategyRegistry}
use karar_flutter_version.Policy.Pack.{PolicyPack}
use karar_flutter_version.Policy.Validation.{
  finding_if, each_finding, pack_key, duplicate_findings, overlap_findings, pair_findings,
  validate_pack_set,
}

-- The pack is one of the jurisdiction's, in force at the instant.
abbrev pub in_force_for : String → ℕ → PolicyPack → Bool
in_force_for jurisdiction at p =
    same_text p.jurisdiction jurisdiction && window_covers p.effective_from p.effective_to at

-- Two packs in force at one instant, of one jurisdiction, overlap.
windows-meet :
    (from₁ from₂ : ℕ) (to₁ to₂ : Option ℕ) (at : ℕ)
    → window_covers from₁ to₁ at ≡ true
    → window_covers from₂ to₂ at ≡ true
    → (ends_after to₂ from₁ && ends_after to₁ from₂) ≡ true
windows-meet from₁ from₂ none none at h k = refl
windows-meet from₁ from₂ none (some t) at h k = ground arith
windows-meet from₁ from₂ (some s) none at h k = ground arith
windows-meet from₁ from₂ (some s) (some t) at h k = ground arith

overlap_findings-version :
    (j : String) (at : ℕ) (a b : PolicyPack)
    → in_force_for j at a ≡ true
    → in_force_for j at b ≡ true
    → overlap_findings a b ≡ []
    → a.version ≡ b.version
unfolding overlap_findings
overlap_findings-version j at a b ha hb h = ground (
  arith,
  eq_iff a.jurisdiction j,
  eq_iff b.jurisdiction j,
  eq_iff a.jurisdiction b.jurisdiction,
  eq_iff a.version b.version,
  windows-meet a.effective_from b.effective_from a.effective_to b.effective_to at,
)

seen-key :
    (a : PolicyPack) (seen : List String) (ps : List PolicyPack)
    → any (λ k. same_text k (pack_key a)) seen ≡ true
    → duplicate_findings seen ps ≡ []
    → All (λ b. pack_key b ≢ pack_key a) ps
unfolding duplicate_findings
seen-key a seen [] s h = tt
seen-key a seen (b ∷ ps) s h =
    let (fresh, rest) = (append-eq-nil (finding_if (is_seen (pack_key b)) _) _).0 h in
    (
      λ e. ground (arith, fresh, ap is_seen e, s),
      seen-key a (pack_key b ∷ seen) ps (ground (arith, s)) rest,
    )
  where
    is_seen : String → Bool
    is_seen key = any (λ k. same_text k key) seen

-- A pack met by the loop has another key than those after it.
duplicate_findings-key :
    (a : PolicyPack) (seen : List String) (ps : List PolicyPack)
    → duplicate_findings seen (a ∷ ps) ≡ []
    → All (λ b. pack_key b ≢ pack_key a) ps × (duplicate_findings (pack_key a ∷ seen) ps ≡ [])
unfolding duplicate_findings
duplicate_findings-key a seen ps h =
    let rest = ((append-eq-nil _ (duplicate_findings (pack_key a ∷ seen) ps)).0 h).1 in
    (
      seen-key a (pack_key a ∷ seen) ps (ground (arith, eq_iff (pack_key a) (pack_key a))) rest,
      rest,
    )

pack_key-ap :
    (a b : PolicyPack)
    → a.jurisdiction ≡ b.jurisdiction
    → a.version ≡ b.version
    → pack_key a ≡ pack_key b
unfolding pack_key
pack_key-ap a b j v = rw (j, v)

same-jurisdiction :
    (j : String) (at : ℕ) (a b : PolicyPack)
    → in_force_for j at a ≡ true
    → in_force_for j at b ≡ true
    → a.jurisdiction ≡ b.jurisdiction
same-jurisdiction j at a b ha hb = ground (arith, eq_iff a.jurisdiction j, eq_iff b.jurisdiction j)

-- Nothing else is in force beside `a`.
filter_beside :
    (j : String) (at : ℕ) (a : PolicyPack) (ps : List PolicyPack)
    → in_force_for j at a ≡ true
    → All (λ b. pack_key b ≢ pack_key a) ps
    → each_finding (overlap_findings a) ps ≡ []
    → filter (in_force_for j at) ps ≡ []
filter_beside j at a [] ha keys h = refl
filter_beside j at a (b ∷ ps) ha keys h =
    let (here, rest) = (append-eq-nil (overlap_findings a b) _).0 h in
    let later = filter_beside j at a ps ha keys.1 rest in
    elim (Bool-cases (in_force_for j at b)) [
      | inl hb ↦ absurd (
          keys.0 (
            sym (
              pack_key-ap a b (same-jurisdiction j at a b ha hb)
                (overlap_findings-version j at a b ha hb here))))
      | inr no_b ↦ rw (no_b, later)
    ]

one_in_force :
    (j : String) (at : ℕ) (seen : List String) (ps : List PolicyPack)
    → duplicate_findings seen ps ≡ []
    → pair_findings ps ≡ []
    → length (filter (in_force_for j at) ps) ≤ 1
unfolding pair_findings
one_in_force j at seen [] d p = omega arith
one_in_force j at seen (a ∷ ps) d p =
    let (keys, rest) = duplicate_findings-key a seen ps d in
    let (here, later) = (append-eq-nil (each_finding (overlap_findings a) ps) _).0 p in
    elim (Bool-cases (in_force_for j at a)) [
      | inl ha ↦ rw (ha, filter_beside j at a ps ha keys here) (omega arith)
      | inr no_a ↦ rw no_a (one_in_force j at (pack_key a ∷ seen) ps rest later)
    ]

-- If a set of packs has no findings, then at any instant at most one pack of a jurisdiction has an
-- effective period that covers the instant.
pub validate_pack_set-one_in_force :
    (strategies : ResolutionStrategyRegistry) (disclosing : List String) (packs : List PolicyPack)
    (jurisdiction : String) (at : ℕ)
    → validate_pack_set strategies disclosing packs ≡ []
    → length (filter (in_force_for jurisdiction at) packs) ≤ 1
unfolding validate_pack_set
validate_pack_set-one_in_force strategies disclosing packs jurisdiction at h =
    let all_sets = ((append-eq-nil _ (duplicate_findings [] packs ++ pair_findings packs)).0 h).1 in
    let (d, p) = (append-eq-nil (duplicate_findings [] packs) (pair_findings packs)).0 all_sets in
    one_in_force jurisdiction at [] packs d p
