-- ===== src/Identity/Tests.antt =====
-- The theorems on sessions at a store of one session.
use karar_flutter_version.Prelude.{
  ◌≡◌, refl, true, false, none, some, [], ◌∷◌, update_where, ok, err, arith,
}
use karar_flutter_version.Identity.Session.{
  RefreshTokenRecord, AccountStatus, IdentityAccount, IdentityPolicy, ClientContext,
  NewSessionBundle, mint,
}
use karar_flutter_version.Identity.Store.{
  SessionStore, create_session, insert_bundle, find_by_token_hash, rotate_token, touch_session,
  find_session, rebind_session, revoke_families_of_sessions,
}
use karar_flutter_version.Identity.Refresh.{
  IdentityState, RefreshDeps, RefreshedSession, RefreshSessionError, refresh_session,
  refresh_presented, with_account, after_rotation,
}
use karar_flutter_version.Identity.Steps.{Step, Reach}
use karar_flutter_version.Identity.WellFormed.{IsWellFormed, reach-IsWellFormed}
use karar_flutter_version.Identity.Exchange.{refresh_session-once}
use karar_flutter_version.Identity.Binding.{
  RecordedState, RebindDeps, RebindInput, RebindSessionTenantError, rebind_session_tenant,
  rebind_account, rebind_found, rebind_bound, after_rebind, recorded,
}
use karar_flutter_version.Identity.Switched.{SwitchedOrSame, rebind_session_tenant-switched}

abbrev policy : IdentityPolicy
policy = record {
  session_absolute_ttl_ms = 1000;
  session_idle_ttl_ms = none;
  refresh_token_ttl_ms = 500;
}

abbrev owner : IdentityAccount
owner = record {
  id = "a";
  email = "a@example.org";
  status = AccountStatus.active;
  token_version = 0;
}

abbrev client : ClientContext
client = record { ip_digest = none; user_agent_summary = none }

abbrev first_bundle : NewSessionBundle
first_bundle =
    mint policy (record { session_id = "s1"; family_id = "f1"; token_id = "t1"; token_hash = "r1" })
      100 owner client (some "tenant")

abbrev nothing : SessionStore
nothing = record { sessions = []; families = []; tokens = [] }

abbrev one_session : SessionStore
one_session = insert_bundle first_bundle nothing

opens : Step nothing one_session
unfolding create_session mint
opens = Step.creates nothing one_session first_bundle (refl, refl, refl) refl

nothing-IsWellFormed : IsWellFormed nothing
nothing-IsWellFormed = (tt, tt, (λ x. omega arith), (λ x. omega arith), (λ x. omega arith))

reach-IsWellFormed_example : IsWellFormed one_session
reach-IsWellFormed_example =
    reach-IsWellFormed nothing one_session nothing-IsWellFormed (Reach.next Reach.here opens)

abbrev deps : RefreshDeps
deps = record {
  policy = policy;
  digest = λ raw. raw;
  find_account = λ id. some owner;
  within_limit = true;
  sign = λ account session version. record { token = "jwt"; expires_at = 300 };
  raw_successor = "r2";
  successor_id = "t2";
  meanwhile = λ s. s;
  now = 200;
  reuse_at = 200;
}

abbrev before_refresh : IdentityState
before_refresh = record { store = one_session; ledger = []; notices = [] }

abbrev used_token : RefreshTokenRecord
used_token = record first_bundle.first_token { used_at = some 200; superseded_by = some "t2" }

abbrev next_token : RefreshTokenRecord
next_token = record {
  id = "t2";
  family_id = "f1";
  token_hash = "r2";
  created_at = 200;
  expires_at = 700;
  used_at = none;
  superseded_by = none;
}

abbrev after_refresh : IdentityState
after_refresh = record before_refresh {
  store = record {
    sessions = record first_bundle.session { last_seen_at = 200 } ∷ [];
    families = first_bundle.family ∷ [];
    tokens = next_token ∷ used_token ∷ [];
  };
}

abbrev refreshed : RefreshedSession
refreshed = record {
  access_token = "jwt";
  access_token_expires_at = 300;
  refresh_token = "r2";
  refresh_token_expires_at = 700;
  session_id = "s1";
}

refreshes : refresh_session deps "r1" before_refresh ≡ (after_refresh, ok refreshed)
unfolding refresh_session refresh_presented with_account after_rotation find_by_token_hash
    rotate_token touch_session mint update_where
refreshes = refl

refresh_session-once_example :
    (refresh_session deps "r1" (record after_refresh { store = after_refresh.store })).1
    ≡ err RefreshSessionError.reuse_detected
refresh_session-once_example =
    refresh_session-once deps deps "r1" before_refresh after_refresh refreshed after_refresh.store
      (reach-IsWellFormed nothing one_session nothing-IsWellFormed (Reach.next Reach.here opens))
      Reach.here refreshes Reach.here refl refl

abbrev switch : RebindInput
switch = record {
  account_id = "a";
  session_id = "s1";
  new_tenant_id = some "other";
  client = client;
}

abbrev switch_deps : RebindDeps
switch_deps = record {
  policy = policy;
  fresh_ids = record { session_id = "s2"; family_id = "f2"; token_id = "t3"; token_hash = "r3" };
  find_account = λ id. some owner;
  meanwhile = λ s. s;
  recorders = record { ledger_takes = true; audit_takes = false };
  can_sign = true;
  now = 200;
  minted_at = 200;
}

abbrev before_switch : RecordedState
before_switch = record { store = one_session; ledger = []; audit = [] }

-- The audit trail refuses its write, and the session is switched all the same.
rebind_session_tenant-switched_example :
    SwitchedOrSame switch before_switch one_session
      (rebind_session_tenant switch_deps switch before_switch)
rebind_session_tenant-switched_example =
    rebind_session_tenant-switched switch_deps switch before_switch

switch_unrecorded :
    (rebind_session_tenant switch_deps switch before_switch).1
    ≡ err RebindSessionTenantError.dependency_unavailable
unfolding rebind_session_tenant rebind_account rebind_found rebind_bound after_rebind recorded
    find_session rebind_session revoke_families_of_sessions mint update_where
switch_unrecorded = refl
