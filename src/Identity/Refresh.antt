-- ===== src/Identity/Refresh.antt =====
-- modules/identity/application/use-cases/refresh-session.ts. The digest, the signing of access tokens,
-- the accounts, the rate limiter's answer and what `secretSource` gives are arguments, and so is what
-- other requests do to the store between the read of the token and the transaction that rotates it.
-- The security ledger and the notices are lists; what an event says besides its type is left out, and
-- so is a ledger that refuses a write, which throws.
use karar_flutter_version.Prelude.{
  ℕ, String, Bool, not, ◌&&◌, ◌||◌, Option, none, some, List, ◌∷◌, leb, if◌then◌else◌, Result, ok,
  err,
}
use karar_flutter_version.Identity.Session.{
  RefreshTokenRecord, IdentityAccount, IdentityPolicy, is_unset, is_active_account, is_session_live,
  refresh_expiry, idle_expiry,
}
use karar_flutter_version.Identity.Store.{
  SessionStore, PresentedRefreshToken, RotateOutcome, find_by_token_hash, rotate_token,
  touch_session, revoke_family_and_session,
}

pub record IdentityState : Type 0 where
  pub store : SessionStore
  pub ledger : List (String × String)
  pub notices : List (String × String)

-- The last two are errors that are thrown: too many requests, and a transaction that fails.
pub data RefreshSessionError : Type 0 where
  invalid_token reuse_detected rate_limited failed_transaction : RefreshSessionError

pub record RefreshedSession : Type 0 where
  pub access_token : String
  pub access_token_expires_at : ℕ
  pub refresh_token : String
  pub refresh_token_expires_at : ℕ
  pub session_id : String

-- The answer of `signAccessToken`.
pub record SignedAccess : Type 0 where
  pub token : String
  pub expires_at : ℕ

pub record RefreshDeps : Type 0 where
  pub policy : IdentityPolicy
  pub digest : String → String
  pub find_account : String → Option IdentityAccount
  pub within_limit : Bool
  pub sign : (account_id session_id : String) → (token_version : ℕ) → SignedAccess
  pub raw_successor : String
  pub successor_id : String
  -- What happens between the read and the rotation.
  pub meanwhile : SessionStore → SessionStore
  -- The instants of the check and of what follows a reuse.
  pub now : ℕ
  pub reuse_at : ℕ

-- The notice goes to the account, if there is one.
abbrev pub notify :
    Option IdentityAccount → String → List (String × String) → List (String × String)
notify none kind notices = notices
notify (some account) kind notices = (account.email, kind) ∷ notices

unfoldable pub on_reuse_detected :
    RefreshDeps → PresentedRefreshToken → IdentityState → IdentityState
on_reuse_detected deps presented state = record {
  store =
      revoke_family_and_session presented.family.account_id presented.family.id presented.session.id
        "refresh_reuse_detected" deps.reuse_at state.store;
  ledger = (presented.family.account_id, "refresh_reuse_detected") ∷ state.ledger;
  notices =
      notify (deps.find_account presented.family.account_id) "refresh_reuse_detected" state.notices;
}

abbrev pub successor_of : RefreshDeps → PresentedRefreshToken → RefreshTokenRecord
successor_of deps presented = record {
  id = deps.successor_id;
  family_id = presented.family.id;
  token_hash = deps.digest deps.raw_successor;
  created_at = deps.now;
  expires_at = refresh_expiry deps.policy deps.now presented.session.absolute_expires_at;
  used_at = none;
  superseded_by = none;
}

-- What follows the rotation.
unfoldable pub after_rotation :
    RefreshDeps
    → PresentedRefreshToken
    → IdentityAccount
    → IdentityState
    → Option (SessionStore × RotateOutcome)
    → IdentityState × Result RefreshedSession RefreshSessionError
after_rotation deps presented account state none =
    (state, err RefreshSessionError.failed_transaction)
after_rotation deps presented account state (some (store, RotateOutcome.already_used)) = (
  on_reuse_detected deps presented (record state { store = store }),
  err RefreshSessionError.reuse_detected,
)
after_rotation deps presented account state (some (store, RotateOutcome.rotated)) =
    let access = deps.sign presented.family.account_id presented.session.id account.token_version in
    (
      record state {
        store =
            touch_session presented.family.account_id presented.session.id deps.now
              (idle_expiry deps.policy deps.now) store;
      },
      ok (record {
        access_token = access.token;
        access_token_expires_at = access.expires_at;
        refresh_token = deps.raw_successor;
        refresh_token_expires_at =
            refresh_expiry deps.policy deps.now presented.session.absolute_expires_at;
        session_id = presented.session.id;
      }),
    )

abbrev pub is_exchangeable : PresentedRefreshToken → ℕ → Bool
is_exchangeable presented now =
    is_unset presented.family.revoked_at
    && not (leb presented.token.expires_at now)
    && is_session_live presented.session now

-- `account === null || account.status !== 'active'`
unfoldable pub with_account :
    RefreshDeps
    → PresentedRefreshToken
    → IdentityState
    → Option IdentityAccount
    → IdentityState × Result RefreshedSession RefreshSessionError
with_account deps presented state none = (state, err RefreshSessionError.invalid_token)
with_account deps presented state (some account) =
    let between = record state { store = deps.meanwhile state.store } in
    if is_active_account account.status
    then after_rotation deps presented account between (
        rotate_token presented.family.account_id presented.token.id (successor_of deps presented)
          deps.now between.store)
    else (state, err RefreshSessionError.invalid_token)

unfoldable pub refresh_presented :
    RefreshDeps
    → IdentityState
    → Option PresentedRefreshToken
    → IdentityState × Result RefreshedSession RefreshSessionError
refresh_presented deps state none = (state, err RefreshSessionError.invalid_token)
refresh_presented deps state (some presented) =
    if not (is_unset presented.token.used_at) || not (is_unset presented.token.superseded_by)
    then (on_reuse_detected deps presented state, err RefreshSessionError.reuse_detected)
    else if is_exchangeable presented deps.now
    then with_account deps presented state (deps.find_account presented.family.account_id)
    else (state, err RefreshSessionError.invalid_token)

-- `RefreshSession.execute`
unfoldable pub refresh_session :
    RefreshDeps
    → (refresh_token : String) → IdentityState
    → IdentityState × Result RefreshedSession RefreshSessionError
refresh_session deps refresh_token state =
    if deps.within_limit
    then refresh_presented deps state (find_by_token_hash (deps.digest refresh_token) state.store)
    else (state, err RefreshSessionError.rate_limited)
