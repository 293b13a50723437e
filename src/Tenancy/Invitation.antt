-- ===== src/Tenancy/Invitation.antt =====
-- modules/tenancy: domain/tenancy.ts, evaluateRedeemability; the repository of invitations,
-- infrastructure/persistence/prisma-invitation-repository.ts; and the use case
-- application/use-cases/redeem-invitation.ts. What `trim().toLowerCase()` gives, the digest and the
-- shape test of tokens, the verified e-mail, the settings that the database tells, the new id and what
-- other requests do between the reads and the last transaction are arguments. The audit trail is a
-- list of its outcomes.
use karar_flutter_version.Prelude.{
  ℕ, ◌+◌, String, Bool, true, false, not, ◌&&◌, ◌==◌, Option, none, some, List, ◌∷◌, any, find, leb,
  ltb, same_text, if◌then◌else◌, update_where, count, Result, ok, err,
}

pub data MembershipState : Type 0 where
  invited active suspended removed : MembershipState

pub record TenantMembership : Type 0 where
  pub id : String
  pub tenant_id : String
  pub user_id : String
  pub role_hint : String
  pub state : MembershipState
  pub effective_from : ℕ
  pub effective_to : Option ℕ
  pub created_at : ℕ
  pub updated_at : ℕ

-- `TenantInvitation`, with the column `token_hash` of its row.
pub record TenantInvitation : Type 0 where
  pub id : String
  pub tenant_id : String
  pub token_hash : String
  pub email : String
  pub role_hint : String
  pub expires_at : ℕ
  pub redeemed_at : Option ℕ
  pub redeemed_by : Option String
  pub revoked_at : Option ℕ
  pub attempts : ℕ
  pub max_attempts : ℕ
  pub created_by : String
  pub created_at : ℕ
  pub updated_at : ℕ

pub data RedemptionDenialReason : Type 0 where
  revoked already_redeemed expired attempts_exhausted email_mismatch : RedemptionDenialReason

abbrev pub is_open_end {ℓ} : {A : Type ℓ} → Option A → Bool
is_open_end none = true
is_open_end (some a) = false

-- `redeemerEmail !== null && normalizeInvitationEmail(redeemerEmail) === invitation.email`
abbrev pub email_matches : (normalize : String → String) → TenantInvitation → Option String → Bool
email_matches normalize invitation none = false
email_matches normalize invitation (some email) = same_text (normalize email) invitation.email

unfoldable pub evaluate_redeemability :
    (normalize : String → String)
    → TenantInvitation
    → (at : ℕ) → (redeemer_email : Option String) → Option RedemptionDenialReason
evaluate_redeemability normalize invitation at redeemer_email =
    if not (is_open_end invitation.revoked_at)
    then some RedemptionDenialReason.revoked
    else if not (is_open_end invitation.redeemed_at)
    then some RedemptionDenialReason.already_redeemed
    else if leb invitation.expires_at at
    then some RedemptionDenialReason.expired
    else if leb invitation.max_attempts invitation.attempts
    then some RedemptionDenialReason.attempts_exhausted
    else if email_matches normalize invitation redeemer_email
    then none
    else some RedemptionDenialReason.email_mismatch

pub record InvitationStore : Type 0 where
  pub invitations : List TenantInvitation
  pub members : List TenantMembership

-- The settings and the role of the transaction, as the database tells them.
pub record EvidenceRow : Type 0 where
  pub tenant_guc : String
  pub user_guc : String
  pub bypass_rls : Bool
  pub superuser : Bool

abbrev pub is_narrow : (tenant_id user_id : String) → EvidenceRow → Bool
is_narrow tenant_id user_id evidence =
    same_text evidence.tenant_guc tenant_id
    && same_text evidence.user_guc user_id
    && not evidence.bypass_rls
    && not evidence.superuser

pub data RedemptionOutcome : Type 0 where
  already_member lost_race : RedemptionOutcome
  redeemed : TenantMembership → RedemptionOutcome

unfoldable pub record_failed_attempt : (token_hash : String) → ℕ → InvitationStore → InvitationStore
record_failed_attempt token_hash at store = record store {
  invitations =
      update_where (λ i. same_text i.token_hash token_hash)
        (λ i. record i { attempts = i.attempts + 1; updated_at = at }) store.invitations;
}

-- The `WHERE` of the one-time update.
abbrev pub is_redeemable_row : TenantInvitation → ℕ → TenantInvitation → Bool
is_redeemable_row invitation at row =
    same_text row.id invitation.id
    && same_text row.tenant_id invitation.tenant_id
    && is_open_end row.redeemed_at
    && is_open_end row.revoked_at
    && ltb at row.expires_at

abbrev pub new_member : (id user_id : String) → TenantInvitation → ℕ → TenantMembership
new_member id user_id invitation at = record {
  id = id;
  tenant_id = invitation.tenant_id;
  user_id = user_id;
  role_hint = invitation.role_hint;
  state = MembershipState.active;
  effective_from = at;
  effective_to = none;
  created_at = at;
  updated_at = at;
}

abbrev pub is_member : (tenant_id user_id : String) → TenantMembership → Bool
is_member tenant_id user_id m = same_text m.tenant_id tenant_id && same_text m.user_id user_id

abbrev pub redeemed_store :
    (id user_id : String) → TenantInvitation → ℕ → InvitationStore → InvitationStore
redeemed_store id user_id invitation at store = record {
  invitations =
      update_where (is_redeemable_row invitation at)
        (λ i. record i { redeemed_at = some at; redeemed_by = some user_id; updated_at = at })
        store.invitations;
  members = new_member id user_id invitation at ∷ store.members;
}

-- The transaction; nothing where its evidence is not narrow, which throws before any write.
unfoldable pub redeem :
    EvidenceRow
    → (id user_id : String) → TenantInvitation
    → ℕ
    → InvitationStore
    → Option (InvitationStore × RedemptionOutcome)
redeem evidence id user_id invitation at store =
    if not (is_narrow invitation.tenant_id user_id evidence)
    then none
    else if any (is_member invitation.tenant_id user_id) store.members
    then some (store, RedemptionOutcome.already_member)
    else if count (is_redeemable_row invitation at) store.invitations == 0
    then some (store, RedemptionOutcome.lost_race)
    else some (
      redeemed_store id user_id invitation at store,
      RedemptionOutcome.redeemed (new_member id user_id invitation at),
    )

pub data RedeemInvitationError : Type 0 where
  missing_principal_context invitation_not_found already_member store_failure :
      RedeemInvitationError
  invitation_not_redeemable : RedemptionDenialReason → RedeemInvitationError

pub record TenancyState : Type 0 where
  pub store : InvitationStore
  pub audit : List String

pub record RedeemDeps : Type 0 where
  -- The user of the principal, when there is one whose id parses.
  pub redeemer : Option String
  pub has_token_shape : String → Bool
  pub hash_of : String → String
  pub normalize : String → String
  pub verified_email_of : String → Option String
  pub evidence : EvidenceRow
  pub member_id : String
  pub at : ℕ
  pub meanwhile : InvitationStore → InvitationStore

unfoldable pub after_redeem :
    TenancyState
    → Option (InvitationStore × RedemptionOutcome)
    → TenancyState × Result TenantMembership RedeemInvitationError
after_redeem state none = (state, err RedeemInvitationError.store_failure)
after_redeem state (some (store, RedemptionOutcome.already_member)) =
    (record state { store = store }, err RedeemInvitationError.already_member)
after_redeem state (some (store, RedemptionOutcome.lost_race)) = (
  record state { store = store },
  err (RedeemInvitationError.invitation_not_redeemable RedemptionDenialReason.already_redeemed),
)
after_redeem state (some (store, RedemptionOutcome.redeemed member)) =
    (record state { store = store; audit = "SUCCESS" ∷ state.audit }, ok member)

-- A failed attempt is counted for an e-mail that does not match, and for nothing else.
abbrev pub count_attempt :
    RedemptionDenialReason → (token_hash : String) → ℕ → InvitationStore → InvitationStore
count_attempt RedemptionDenialReason.email_mismatch token_hash at store =
    record_failed_attempt token_hash at store
count_attempt _ token_hash at store = store

unfoldable pub after_gate :
    RedeemDeps
    → (user_id token_hash : String) → TenantInvitation
    → TenancyState
    → Option RedemptionDenialReason
    → TenancyState × Result TenantMembership RedeemInvitationError
after_gate deps user_id token_hash invitation state (some reason) = (
  record state {
    store = count_attempt reason token_hash deps.at state.store;
    audit = "DENIED" ∷ state.audit;
  },
  err (RedeemInvitationError.invitation_not_redeemable reason),
)
after_gate deps user_id token_hash invitation state none =
    let between = record state { store = deps.meanwhile state.store } in
    after_redeem between
      (redeem deps.evidence deps.member_id user_id invitation deps.at between.store)

unfoldable pub with_invitation :
    RedeemDeps
    → (user_id token_hash : String) → TenancyState
    → Option TenantInvitation
    → TenancyState × Result TenantMembership RedeemInvitationError
with_invitation deps user_id token_hash state none =
    (state, err RedeemInvitationError.invitation_not_found)
with_invitation deps user_id token_hash state (some invitation) =
    after_gate deps user_id token_hash invitation state
      (evaluate_redeemability deps.normalize invitation deps.at (deps.verified_email_of user_id))

unfoldable pub for_redeemer :
    RedeemDeps
    → (token : String) → TenancyState
    → Option String
    → TenancyState × Result TenantMembership RedeemInvitationError
for_redeemer deps token state none = (state, err RedeemInvitationError.missing_principal_context)
for_redeemer deps token state (some user_id) =
    let found = find (λ i. same_text i.token_hash (deps.hash_of token)) state.store.invitations in
    if deps.has_token_shape token
    then with_invitation deps user_id (deps.hash_of token) state found
    else (state, err RedeemInvitationError.invitation_not_found)

-- `RedeemInvitation.execute`
unfoldable pub redeem_invitation :
    RedeemDeps
    → (token : String) → TenancyState
    → TenancyState × Result TenantMembership RedeemInvitationError
redeem_invitation deps token state = for_redeemer deps token state deps.redeemer
