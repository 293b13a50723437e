-- ===== src/Tenancy/Spent.antt =====
-- What the gate and the transaction of a redemption check, and what the transaction leaves.
use mathlib.Core.Path.{subst}
use karar_flutter_version.Prelude.{
  ℕ, ◌<◌, String, ◌≡◌, ◌≢◌, ◌↔◌, inl, inr, refl, sym, ap, ◌∙◌, Bool, Bool-cases, true, false, not,
  Option, none, some, List, [], ◌∷◌, Any, Any-mono, any_iff, eq_iff, count-absent, update_where,
  if◌then◌else◌, any, All, update_where_gives, count, ◌==◌, arith,
}
use karar_flutter_version.Tenancy.Invitation.{
  TenantInvitation, TenantMembership, MembershipState, RedemptionOutcome, InvitationStore,
  RedeemDeps, EvidenceRow, is_open_end, email_matches, evaluate_redeemability, is_narrow,
  is_redeemable_row, new_member, is_member, redeemed_store, redeem,
}

-- What the gate asks of an invitation.
abbrev pub IsRedeemable : RedeemDeps → (user_id : String) → TenantInvitation → Type 0
IsRedeemable deps user_id i =
    (i.revoked_at ≡ none)
    × (i.redeemed_at ≡ none)
    × (deps.at < i.expires_at)
    × (i.attempts < i.max_attempts)
    × ((email : String) × (deps.verified_email_of user_id ≡ some email)
        × (deps.normalize email ≡ i.email))

open_end : {A : Type 0} (o : Option A) → not (is_open_end o) ≡ false → o ≡ none
open_end none h = refl
open_end (some a) h = cc

matched_email :
    (normalize : String → String) (i : TenantInvitation) (o : Option String)
    → email_matches normalize i o ≡ true
    → (email : String) × (o ≡ some email) × (normalize email ≡ i.email)
matched_email normalize i none h = cc
matched_email normalize i (some email) h = (email, refl, (eq_iff (normalize email) i.email).0 h)

pub gate-IsRedeemable :
    (deps : RedeemDeps) (user_id : String) (i : TenantInvitation)
    → evaluate_redeemability deps.normalize i deps.at (deps.verified_email_of user_id) ≡ none
    → IsRedeemable deps user_id i
unfolding evaluate_redeemability
gate-IsRedeemable deps user_id i e = (
  open_end i.revoked_at (ground (arith, e)),
  open_end i.redeemed_at (ground (arith, e)),
  ground (arith, e),
  ground (arith, e),
  matched_email deps.normalize i (deps.verified_email_of user_id) (ground (arith, e)),
)

-- A row of the invitation that may be redeemed at the instant.
abbrev pub IsOpen : TenantInvitation → ℕ → TenantInvitation → Type 0
IsOpen i at r =
    (r.id ≡ i.id)
    × (r.tenant_id ≡ i.tenant_id)
    × (r.redeemed_at ≡ none)
    × (r.revoked_at ≡ none)
    × (at < r.expires_at)

is_redeemable_row-IsOpen :
    (i : TenantInvitation) (at : ℕ) (r : TenantInvitation)
    → (is_redeemable_row i at r ≡ true) ↔ IsOpen i at r
is_redeemable_row-IsOpen i at r =
    let same_id = eq_iff r.id i.id in
    let same_tenant = eq_iff r.tenant_id i.tenant_id in
    (
      (λ h. (
        same_id.0 (ground (arith, h)),
        same_tenant.0 (ground (arith, h)),
        open_end r.redeemed_at (ground (arith, h)),
        open_end r.revoked_at (ground (arith, h)),
        ground (arith, h),
      )),
      (λ (a, b, c, d, e).
          let x = same_id.1 a in let y = same_tenant.1 b in rw (x, y, c, d) (ground (arith, e))),
    )

-- The row is spent by the user.
abbrev pub IsSpent : TenantInvitation → ℕ → (user_id : String) → TenantInvitation → Type 0
IsSpent i at user_id r =
    (r.id ≡ i.id)
    × (r.tenant_id ≡ i.tenant_id)
    × (r.redeemed_at ≡ some at)
    × (r.redeemed_by ≡ some user_id)

-- The user is an active member by the invitation, from the instant on.
abbrev pub IsMemberBy :
    (member_id user_id : String) → TenantInvitation → ℕ → TenantMembership → Type 0
IsMemberBy member_id user_id i at m =
    (m.id ≡ member_id)
    × (m.tenant_id ≡ i.tenant_id)
    × (m.user_id ≡ user_id)
    × (m.role_hint ≡ i.role_hint)
    × (m.state ≡ MembershipState.active)
    × (m.effective_from ≡ at)
    × (m.effective_to ≡ none)

-- The invitation was open in the store that the transaction found, and is spent; the user was no
-- member, and is one.
abbrev pub IsRedeemed :
    (member_id user_id : String)
    → TenantInvitation
    → ℕ
    → (before after : InvitationStore) → TenantMembership
    → Type 0
IsRedeemed member_id user_id i at before after m =
    IsMemberBy member_id user_id i at m
    × All (λ x. x.tenant_id ≡ i.tenant_id → x.user_id ≢ user_id) before.members
    × (after.members ≡ m ∷ before.members)
    × Any (IsOpen i at) before.invitations
    × Any (IsSpent i at user_id) after.invitations
    × All (λ r. ¬ IsOpen i at r) after.invitations

no_member :
    (tenant_id user_id : String) (members : List TenantMembership)
    → any (is_member tenant_id user_id) members ≡ false
    → All (λ x. x.tenant_id ≡ tenant_id → x.user_id ≢ user_id) members
no_member tenant_id user_id [] h = tt
no_member tenant_id user_id (x ∷ members) h =
    let same_tenant = eq_iff x.tenant_id tenant_id in
    let same_user = eq_iff x.user_id user_id in
    (
      (λ a b. let c = same_tenant.1 a in let d = same_user.1 b in ground (arith, h, c, d)),
      no_member tenant_id user_id members (ground (arith, h)),
    )

count-IsOpen :
    (i : TenantInvitation) (at : ℕ) (rows : List TenantInvitation)
    → (count (is_redeemable_row i at) rows == 0) ≡ false
    → Any (IsOpen i at) rows
count-IsOpen i at rows h = elim (Bool-cases (any (is_redeemable_row i at) rows)) [
  | inl there ↦
      Any-mono _ _ (λ r e. (is_redeemable_row-IsOpen i at r).0 e) rows
        ((any_iff (is_redeemable_row i at) rows).0 there)
  | inr gone ↦
      let zero_rows = count-absent (is_redeemable_row i at) rows gone in
      absurd (ground (arith, h, zero_rows))
]

-- An open row is spent by the update.
update_where-IsSpent :
    (i : TenantInvitation) (at : ℕ) (user_id : String)
    (change : TenantInvitation → TenantInvitation) (rows : List TenantInvitation)
    → ((r : TenantInvitation) → IsOpen i at r → IsSpent i at user_id (change r))
    → Any (IsOpen i at) rows
    → Any (IsSpent i at user_id) (update_where (is_redeemable_row i at) change rows)
unfolding update_where
update_where-IsSpent i at user_id change [] spend m = elim m [ ]
update_where-IsSpent i at user_id change (r ∷ rows) spend m = elim m [
  | inl now ↦ let hit = (is_redeemable_row-IsOpen i at r).1 now in inl (rw hit (spend r now))
  | inr later ↦ inr (update_where-IsSpent i at user_id change rows spend later)
]

-- Three tests, and what the last leaves.
guarded :
    (b c d : Bool) (s t after : InvitationStore) (x m : TenantMembership)
    → if◌then◌else◌ {A = Option (InvitationStore × RedemptionOutcome)} b none (
        if c
        then some (s, RedemptionOutcome.already_member)
        else if d
        then some (s, RedemptionOutcome.lost_race)
        else some (t, RedemptionOutcome.redeemed x))
      ≡ some (after, RedemptionOutcome.redeemed m)
    → (b ≡ false) × (c ≡ false) × (d ≡ false) × (t ≡ after) × (x ≡ m)
guarded b c d s t after x m e = ground (arith, e)

pub redeem-redeemed :
    (evidence : EvidenceRow) (id user_id : String) (i : TenantInvitation) (at : ℕ)
    (store after : InvitationStore) (m : TenantMembership)
    → redeem evidence id user_id i at store ≡ some (after, RedemptionOutcome.redeemed m)
    → IsRedeemed id user_id i at store after m
unfolding redeem
redeem-redeemed evidence id user_id i at store after m e =
    let (narrow, new_here, live, same, member) =
      guarded (not (is_narrow i.tenant_id user_id evidence))
        (any (is_member i.tenant_id user_id) store.members)
        (count (is_redeemable_row i at) store.invitations == 0) store
        (redeemed_store id user_id i at store) after (new_member id user_id i at) m e in
    let change : TenantInvitation → TenantInvitation =
      λ r. record r { redeemed_at = some at; redeemed_by = some user_id; updated_at = at } in
    let there = count-IsOpen i at store.invitations live in
    (
      subst (IsMemberBy id user_id i at) member (refl, refl, refl, refl, refl, refl, refl),
      no_member i.tenant_id user_id store.members new_here,
      ap (λ s. s.members) (sym same) ∙ ap (λ x. x ∷ store.members) member,
      there,
      subst (λ s. Any (IsSpent i at user_id) s.invitations) same
          (update_where-IsSpent i at user_id change store.invitations
            (λ r (a, b, c, d, e). (a, b, refl, refl)) there),
      subst (λ s. All (λ r. ¬ IsOpen i at r) s.invitations) same
          (update_where_gives (λ r. ¬ IsOpen i at r) (is_redeemable_row i at) change
            (λ r hit (a, b, c, d, e). cc)
            (λ r miss k.
              let hit = (is_redeemable_row-IsOpen i at r).1 k in ground (arith, hit, miss))
            store.invitations),
    )
