-- ===== src/Tenancy/Redeemed.antt =====
-- What a redemption that succeeds has checked, and what it leaves.
use karar_flutter_version.Prelude.{
  String, ◌≡◌, refl, ap, ◌∙◌, Bool, true, false, Option, none, some, if◌then◌else◌, find, same_text,
  ok, err, arith,
}
use karar_flutter_version.Tenancy.Invitation.{
  TenantInvitation, TenantMembership, RedemptionDenialReason, RedemptionOutcome,
  RedeemInvitationError, InvitationStore, TenancyState, RedeemDeps, after_redeem, after_gate,
  with_invitation, for_redeemer, redeem_invitation,
}
use karar_flutter_version.Tenancy.Spent.{
  IsRedeemable, IsRedeemed, gate-IsRedeemable, redeem-redeemed,
}

after_redeem-ok :
    (state after : TenancyState) (m : TenantMembership)
    (o : Option (InvitationStore × RedemptionOutcome))
    → after_redeem state o ≡ (after, ok m)
    → o ≡ some (after.store, RedemptionOutcome.redeemed m)
unfolding after_redeem
after_redeem-ok state after m none e = let k = ap (λ x. x.1) e in cc
after_redeem-ok state after m (some (s, RedemptionOutcome.already_member)) e =
    let k = ap (λ x. x.1) e in cc
after_redeem-ok state after m (some (s, RedemptionOutcome.lost_race)) e =
    let k = ap (λ x. x.1) e in cc
after_redeem-ok state after m (some (s, RedemptionOutcome.redeemed x)) e =
    let store = ap (λ y. y.0.store) e in
    let member : x ≡ m = let k = ap (λ y. y.1) e in ground (arith, k) in
    ap (λ y. some (y, RedemptionOutcome.redeemed x)) store
    ∙ ap (λ y. some (after.store, RedemptionOutcome.redeemed y)) member

after_gate-ok :
    (deps : RedeemDeps) (user_id h : String) (i : TenantInvitation) (state after : TenancyState)
    (m : TenantMembership) (gate : Option RedemptionDenialReason)
    → after_gate deps user_id h i state gate ≡ (after, ok m)
    → (gate ≡ none)
      × IsRedeemed deps.member_id user_id i deps.at (deps.meanwhile state.store) after.store m
unfolding after_gate
after_gate-ok deps user_id h i state after m (some reason) e = let k = ap (λ x. x.1) e in cc
after_gate-ok deps user_id h i state after m none e = (
  refl,
  redeem-redeemed deps.evidence deps.member_id user_id i deps.at (deps.meanwhile state.store)
      after.store m
      (after_redeem-ok (record state { store = deps.meanwhile state.store }) after m _ e),
)

with_invitation-ok :
    (deps : RedeemDeps) (user_id h : String) (state after : TenancyState) (m : TenantMembership)
    (o : Option TenantInvitation)
    → with_invitation deps user_id h state o ≡ (after, ok m)
    → (i : TenantInvitation) × (o ≡ some i)
      × IsRedeemable deps user_id i
      × IsRedeemed deps.member_id user_id i deps.at (deps.meanwhile state.store) after.store m
unfolding with_invitation
with_invitation-ok deps user_id h state after m none e = let k = ap (λ x. x.1) e in cc
with_invitation-ok deps user_id h state after m (some i) e =
    let (gate, left) = after_gate-ok deps user_id h i state after m _ e in
    (i, refl, gate-IsRedeemable deps user_id i gate, left)

for_redeemer-ok :
    (deps : RedeemDeps) (token : String) (state after : TenancyState) (m : TenantMembership)
    (redeemer : Option String)
    → for_redeemer deps token state redeemer ≡ (after, ok m)
    → (user_id : String) × (redeemer ≡ some user_id)
      × (i : TenantInvitation) × (find
            (λ x. same_text x.token_hash (deps.hash_of token))
            state.store.invitations
          ≡ some i)
      × IsRedeemable deps user_id i
      × IsRedeemed deps.member_id user_id i deps.at (deps.meanwhile state.store) after.store m
unfolding for_redeemer
for_redeemer-ok deps token state after m none e = let k = ap (λ x. x.1) e in cc
for_redeemer-ok deps token state after m (some user_id) e = by_shape (deps.has_token_shape token) e
  where
    by_shape :
        (shaped : Bool)
        → (if shaped
            then with_invitation deps user_id
                (deps.hash_of token)
                state
                (find (λ x. same_text x.token_hash (deps.hash_of token)) state.store.invitations)
            else (state, err RedeemInvitationError.invitation_not_found))
          ≡ (after, ok m)
        → (u : String) × (some user_id ≡ some u)
          × (i : TenantInvitation) × (find
                (λ x. same_text x.token_hash (deps.hash_of token))
                state.store.invitations
              ≡ some i)
          × IsRedeemable deps u i
          × IsRedeemed deps.member_id u i deps.at (deps.meanwhile state.store) after.store m
    by_shape true k =
        let (i, found, gate, left) =
          with_invitation-ok deps user_id (deps.hash_of token) state after m _ k in
        (user_id, refl, i, found, gate, left)
    by_shape false k = let no_way = ap (λ x. x.1) k in cc

-- A redemption that succeeds is of the invitation under the digest of the token, for the
-- authenticated user: when it was read it was neither revoked nor redeemed nor expired, had attempts
-- left and was for the user's verified e-mail; when the transaction ran a row of it still was neither
-- revoked nor redeemed nor expired, and the user was no member of its tenant; and afterwards the user is
-- an active member with its role, a row of it is redeemed by the user, and none can be redeemed again.
pub redeem_invitation-ok :
    (deps : RedeemDeps) (token : String) (state after : TenancyState) (m : TenantMembership)
    → redeem_invitation deps token state ≡ (after, ok m)
    → (user_id : String) × (deps.redeemer ≡ some user_id)
      × (i : TenantInvitation) × (find
            (λ x. same_text x.token_hash (deps.hash_of token))
            state.store.invitations
          ≡ some i)
      × IsRedeemable deps user_id i
      × IsRedeemed deps.member_id user_id i deps.at (deps.meanwhile state.store) after.store m
unfolding redeem_invitation
redeem_invitation-ok deps token state after m e =
    for_redeemer-ok deps token state after m deps.redeemer e
