-- ===== src/Jurisdiction/Assignment/Effective.antt =====
-- The row in effect is the latest of those whose window covers the instant.
use mathlib.Core.Path.{subst}
use karar_flutter_version.Prelude.{
  ℕ, ◌≤◌, ◌≡◌, ◌≢◌, refl, sym, ap, ◌∙◌, inl, inr, ◌↔◌, true, false, Option, none, some, List, [],
  ◌∷◌, filter, filter-Any, Any, All, window_covers_iff, Covers, best, best-wins, IsRanking, arith,
}
use karar_flutter_version.Jurisdiction.Assignment.{
  AssignmentSource, VerificationStatus, UserJurisdictionAssignment,
  verification_permitted_for_source, assignment_active_at, starts_later, latest_of,
  pick_effective_assignment, EffectiveJurisdictionState, state_of, state_of_picked,
  effective_jurisdiction_state,
}

starts_later-IsRanking : IsRanking starts_later
starts_later-IsRanking =
    (λ a. ground arith, λ a b c h k. ground (arith, h, k), λ a b c h k. ground (arith, h, k))

abbrev pub IsActive : ℕ → UserJurisdictionAssignment → Type 0
IsActive at a = Covers a.effective_from a.effective_to at

All-of :
    (P : UserJurisdictionAssignment → Type 0) (xs : List UserJurisdictionAssignment)
    (a : UserJurisdictionAssignment)
    → All P xs
    → Any (λ x. x ≡ a) xs
    → P a
All-of P [] a h m = elim m [ ]
All-of P (x ∷ xs) a h m = elim m [ inl e ↦ subst P e h.0 | inr later ↦ All-of P xs a h.1 later ]

latest_of-some :
    (xs : List UserJurisdictionAssignment) (a : UserJurisdictionAssignment)
    → latest_of xs ≡ some a
    → Any (λ x. x ≡ a) xs × All (λ c. starts_later c a ≡ false) xs
unfolding latest_of
latest_of-some [] a h = ground (arith, h)
latest_of-some (x ∷ xs) a h =
    let won : best starts_later x xs ≡ a = ground (arith, h) in
    let (first, rest, found) = best-wins starts_later starts_later-IsRanking x xs in
    subst (λ w. Any (λ c. c ≡ w) (x ∷ xs) × All (λ c. starts_later c w ≡ false) (x ∷ xs)) won
      (elim found [ inl e ↦ inl (sym e) | inr m ↦ inr m ], (first, rest))

IsActive-iff :
    (rows : List UserJurisdictionAssignment) (at : ℕ) (a : UserJurisdictionAssignment)
    → Any (λ x. x ≡ a) (filter (λ r. assignment_active_at r at) rows)
      ↔ (Any (λ x. x ≡ a) rows × IsActive at a)
IsActive-iff rows at a =
    let both = filter-Any (λ r. assignment_active_at r at) rows a in
    let covers = window_covers_iff a.effective_from a.effective_to at in
    (λ h. let (m, c) = both.0 h in (m, covers.0 c), λ (m, c). both.1 (m, covers.1 c))

-- The assignment in effect at an instant is one of the rows, its window covers the instant, and no
-- row whose window covers the instant starts later.
pub pick_effective_assignment-some :
    (rows : List UserJurisdictionAssignment) (at : ℕ) (a : UserJurisdictionAssignment)
    → pick_effective_assignment rows at ≡ some a
    → Any (λ x. x ≡ a) rows
      × IsActive at a
      × ((c : UserJurisdictionAssignment)
          → Any (λ x. x ≡ c) rows
          → IsActive at c
          → c.effective_from ≤ a.effective_from)
unfolding pick_effective_assignment
pick_effective_assignment-some rows at a h =
    let active = filter (λ r. assignment_active_at r at) rows in
    let (member, latest) = latest_of-some active a h in
    let (m, covers) = (IsActive-iff rows at a).0 member in
    (
      m,
      covers,
      λ c n k.
          let before =
            All-of (λ c. starts_later c a ≡ false) active c latest
              ((IsActive-iff rows at c).1 (n, k)) in
          ground (arith, before),
    )

latest_of-none : (xs : List UserJurisdictionAssignment) → (latest_of xs ≡ none) → xs ≡ []
unfolding latest_of
latest_of-none [] h = refl
latest_of-none (x ∷ xs) h = ground (arith, h)

state_of_verified :
    (v : VerificationStatus) (b a : UserJurisdictionAssignment)
    → state_of v b ≡ EffectiveJurisdictionState.verified a
    → (b ≡ a) × (v ≡ VerificationStatus.verified)
unfolding state_of
state_of_verified VerificationStatus.verified b a h = ground (arith, h)
state_of_verified VerificationStatus.unverified b a h = ground (arith, h)

state_verified :
    (o : Option UserJurisdictionAssignment) (a : UserJurisdictionAssignment)
    → state_of_picked o ≡ EffectiveJurisdictionState.verified a
    → (o ≡ some a) × (a.verification_status ≡ VerificationStatus.verified)
unfolding state_of_picked
state_verified none a h = ground (arith, h)
state_verified (some b) a h =
    let (same, v) = state_of_verified b.verification_status b a h in
    (ap some same, ap (λ x. x.verification_status) (sym same) ∙ v)

not_declared :
    (source : AssignmentSource) (status : VerificationStatus)
    → verification_permitted_for_source source status ≡ true
    → status ≡ VerificationStatus.verified
    → source ≢ AssignmentSource.user_declared
unfolding verification_permitted_for_source
not_declared AssignmentSource.user_declared VerificationStatus.unverified p v e = ground (arith, v)
not_declared AssignmentSource.user_declared VerificationStatus.verified p v e = ground (arith, p)
not_declared AssignmentSource.provider_verified status p v e = ground (arith, e)
not_declared AssignmentSource.operator_assigned status p v e = ground (arith, e)
not_declared AssignmentSource.contract_derived status p v e = ground (arith, e)

-- If every row carries a verification that its source permits, then a state of VERIFIED at an instant
-- rests on a row in effect at it whose status is VERIFIED and that the user did not declare.
pub effective_jurisdiction_state_verified :
    (rows : List UserJurisdictionAssignment) (at : ℕ) (a : UserJurisdictionAssignment)
    → All (λ r. verification_permitted_for_source r.source r.verification_status ≡ true) rows
    → effective_jurisdiction_state rows at ≡ EffectiveJurisdictionState.verified a
    → Any (λ x. x ≡ a) rows
      × IsActive at a
      × (a.verification_status ≡ VerificationStatus.verified)
      × (a.source ≢ AssignmentSource.user_declared)
unfolding effective_jurisdiction_state
effective_jurisdiction_state_verified rows at a permitted h =
    let (picked, status) = state_verified (pick_effective_assignment rows at) a h in
    let (member, active, latest) = pick_effective_assignment-some rows at a picked in
    let allowed = All-of _ rows a permitted member in
    (member, active, status, not_declared a.source a.verification_status allowed status)

state_none :
    (o : Option UserJurisdictionAssignment)
    → state_of_picked o ≡ EffectiveJurisdictionState.no_assignment
    → o ≡ none
unfolding state_of_picked
state_none none h = refl
state_none (some b) h = named b.verification_status h
  where
    named :
        (v : VerificationStatus)
        → state_of v b ≡ EffectiveJurisdictionState.no_assignment
        → some b ≡ none
    named VerificationStatus.verified k = ground (arith, k)
    named VerificationStatus.unverified k = ground (arith, k)

-- The state is NONE at an instant exactly when no row's window covers it.
pub effective_jurisdiction_state_none :
    (rows : List UserJurisdictionAssignment) (at : ℕ)
    → (effective_jurisdiction_state rows at ≡ EffectiveJurisdictionState.no_assignment)
      ↔ ((a : UserJurisdictionAssignment) → Any (λ x. x ≡ a) rows → ¬ IsActive at a)
unfolding effective_jurisdiction_state pick_effective_assignment latest_of state_of_picked state_of
effective_jurisdiction_state_none rows at =
    let active = filter (λ r. assignment_active_at r at) rows in
    (
      λ h a m k.
          let empty = latest_of-none active (state_none (latest_of active) h) in
          let there = subst (λ xs. Any (λ x. x ≡ a) xs) empty ((IsActive-iff rows at a).1 (m, k)) in
          elim there [ ],
      λ h.
          ap (λ xs. state_of_picked (latest_of xs))
            (no_entry active (λ a m. let (n, k) = (IsActive-iff rows at a).0 m in h a n k)),
    )
  where
    no_entry :
        (xs : List UserJurisdictionAssignment)
        → ((a : UserJurisdictionAssignment) → Any (λ x. x ≡ a) xs → ⊥)
        → xs ≡ []
    no_entry [] h = refl
    no_entry (x ∷ xs) h = absurd (h x (inl refl))
