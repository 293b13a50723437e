-- ===== src/Identity/Session.antt =====
-- modules/identity/domain, session.ts and identity-account.ts; application/session-issuer.ts. What
-- `secretSource` gives, the digest of tokens and the signing of access tokens are arguments.
use karar_flutter_version.Prelude.{
  ℕ, ◌+◌, String, Bool, true, false, not, ◌&&◌, Option, none, some, leb, lesser,
}

pub record Session : Type 0 where
  pub id : String
  pub account_id : String
  pub created_at : ℕ
  pub last_seen_at : ℕ
  pub absolute_expires_at : ℕ
  pub idle_expires_at : Option ℕ
  pub revoked_at : Option ℕ
  pub revoked_reason : Option String
  pub ip_digest : Option String
  pub user_agent_summary : Option String
  pub tenant_binding : Option String

pub record RefreshTokenFamily : Type 0 where
  pub id : String
  pub session_id : String
  pub account_id : String
  pub created_at : ℕ
  pub revoked_at : Option ℕ
  pub revoked_reason : Option String

pub record RefreshTokenRecord : Type 0 where
  pub id : String
  pub family_id : String
  pub token_hash : String
  pub created_at : ℕ
  pub expires_at : ℕ
  pub used_at : Option ℕ
  pub superseded_by : Option String

pub data AccountStatus : Type 0 where
  active disabled : AccountStatus

-- The fields of an account that sessions read.
pub record IdentityAccount : Type 0 where
  pub id : String
  pub email : String
  pub status : AccountStatus
  pub token_version : ℕ

pub record ClientContext : Type 0 where
  pub ip_digest : Option String
  pub user_agent_summary : Option String

-- The lifetimes of `IdentityPolicy`.
pub record IdentityPolicy : Type 0 where
  pub session_absolute_ttl_ms : ℕ
  pub session_idle_ttl_ms : Option ℕ
  pub refresh_token_ttl_ms : ℕ

-- `NewSessionBundle`
pub record NewSessionBundle : Type 0 where
  pub session : Session
  pub family : RefreshTokenFamily
  pub first_token : RefreshTokenRecord

abbrev pub is_unset {ℓ} : {A : Type ℓ} → Option A → Bool
is_unset none = true
is_unset (some a) = false

abbrev pub is_active_account : AccountStatus → Bool
is_active_account AccountStatus.active = true
is_active_account AccountStatus.disabled = false

-- `idleExpiresAt !== null && idleExpiresAt.getTime() <= now.getTime()`
abbrev pub is_idle : Option ℕ → ℕ → Bool
is_idle none now = false
is_idle (some expires) now = leb expires now

abbrev pub is_session_live : Session → ℕ → Bool
is_session_live session now =
    is_unset session.revoked_at
    && not (leb session.absolute_expires_at now)
    && not (is_idle session.idle_expires_at now)

abbrev pub idle_expiry : IdentityPolicy → ℕ → Option ℕ
idle_expiry policy now = elim policy.session_idle_ttl_ms [
  | none ↦ none
  | some ttl ↦ some (now + ttl)
]

abbrev pub refresh_expiry : IdentityPolicy → (now absolute_expires_at : ℕ) → ℕ
refresh_expiry policy now absolute_expires_at =
    lesser (now + policy.refresh_token_ttl_ms) absolute_expires_at

-- The ids that `secretSource` gives to a bundle, and the digest of its raw token.
pub record FreshIds : Type 0 where
  pub session_id : String
  pub family_id : String
  pub token_id : String
  pub token_hash : String

unfoldable pub mint :
    IdentityPolicy
    → FreshIds
    → (now : ℕ) → IdentityAccount
    → ClientContext
    → (tenant_binding : Option String) → NewSessionBundle
mint policy ids now account client tenant_binding = record {
  session = record {
    id = ids.session_id;
    account_id = account.id;
    created_at = now;
    last_seen_at = now;
    absolute_expires_at = now + policy.session_absolute_ttl_ms;
    idle_expires_at = idle_expiry policy now;
    revoked_at = none;
    revoked_reason = none;
    ip_digest = client.ip_digest;
    user_agent_summary = client.user_agent_summary;
    tenant_binding = tenant_binding;
  };
  family = record {
    id = ids.family_id;
    session_id = ids.session_id;
    account_id = account.id;
    created_at = now;
    revoked_at = none;
    revoked_reason = none;
  };
  first_token = record {
    id = ids.token_id;
    family_id = ids.family_id;
    token_hash = ids.token_hash;
    created_at = now;
    expires_at = refresh_expiry policy now (now + policy.session_absolute_ttl_ms);
    used_at = none;
    superseded_by = none;
  };
}
