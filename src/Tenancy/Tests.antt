-- ===== src/Tenancy/Tests.antt =====
-- The theorem on redemptions at a store of one invitation.
use karar_flutter_version.Prelude.{
  String, ◌≡◌, refl, true, false, some, none, [], ◌∷◌, find, same_text, update_where,
}
use karar_flutter_version.Tenancy.Invitation.{
  TenantInvitation, TenancyState, RedeemDeps, evaluate_redeemability, new_member, redeem,
  after_redeem, after_gate, with_invitation, for_redeemer, redeem_invitation,
}
use karar_flutter_version.Tenancy.Spent.{IsRedeemable, IsRedeemed}
use karar_flutter_version.Tenancy.Redeemed.{redeem_invitation-ok}

abbrev invitation : TenantInvitation
invitation = record {
  id = "i1";
  tenant_id = "tenant";
  token_hash = "token";
  email = "a@example.org";
  role_hint = "MEMBER";
  expires_at = 1000;
  redeemed_at = none;
  redeemed_by = none;
  revoked_at = none;
  attempts = 0;
  max_attempts = 5;
  created_by = "admin";
  created_at = 0;
  updated_at = 0;
}

abbrev open_state : TenancyState
open_state = record { store = record { invitations = invitation ∷ []; members = [] }; audit = [] }

abbrev deps : RedeemDeps
deps = record {
  redeemer = some "user";
  has_token_shape = λ token. true;
  hash_of = λ token. token;
  normalize = λ email. email;
  verified_email_of = λ user. some "a@example.org";
  evidence = record {
    tenant_guc = "tenant";
    user_guc = "user";
    bypass_rls = false;
    superuser = false;
  };
  member_id = "m1";
  at = 100;
  meanwhile = λ s. s;
}

abbrev closed_state : TenancyState
closed_state = record {
  store = record {
    invitations =
        record invitation { redeemed_at = some 100; redeemed_by = some "user"; updated_at = 100 }
        ∷ [];
    members = new_member "m1" "user" invitation 100 ∷ [];
  };
  audit = "SUCCESS" ∷ [];
}

redeem_invitation-ok_example :
    (user_id : String) × (deps.redeemer ≡ some user_id)
    × (i : TenantInvitation) × (find
          (λ x. same_text x.token_hash "token")
          open_state.store.invitations
        ≡ some i)
    × IsRedeemable deps user_id i
    × IsRedeemed "m1" user_id i 100 open_state.store closed_state.store
        (new_member "m1" "user" invitation 100)
unfolding redeem_invitation for_redeemer with_invitation after_gate after_redeem redeem
    evaluate_redeemability update_where
redeem_invitation-ok_example =
    redeem_invitation-ok deps "token" open_state closed_state
      (new_member "m1" "user" invitation 100) refl
