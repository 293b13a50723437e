-- ===== src/Identity/Store.antt =====
-- modules/identity/infrastructure/persistence/prisma-session-store.ts, over the tables of
-- packages/platform/db/migrations/0031_identity_sessions.sql: one function for each transaction, which
-- is one atomic step. A transaction in the scope of an account sees that account's rows only, which
-- is what the policies of the tables say. Where a statement violates a key the transaction throws and
-- writes nothing, which is `none`.
use karar_flutter_version.Prelude.{
  ℕ, String, Bool, true, false, not, ◌&&◌, ◌==◌, Option, none, some, List, [], ◌∷◌, map, any, find,
  filter, length, same_text, if◌then◌else◌, update_where, count, sort_by, ltb,
}
use karar_flutter_version.Identity.Session.{
  Session, RefreshTokenFamily, RefreshTokenRecord, NewSessionBundle, is_unset,
}

pub record SessionStore : Type 0 where
  pub sessions : List Session
  pub families : List RefreshTokenFamily
  pub tokens : List RefreshTokenRecord

pub record PresentedRefreshToken : Type 0 where
  pub token : RefreshTokenRecord
  pub family : RefreshTokenFamily
  pub session : Session

pub data RotateOutcome : Type 0 where
  rotated already_used : RotateOutcome

pub data BindOutcome : Type 0 where
  bound not_bindable : BindOutcome

pub data RebindOutcome : Type 0 where
  rebound stale_session : RebindOutcome

-- The row that an account sees under an id.
abbrev pub is_session : (account_id session_id : String) → Session → Bool
is_session account_id session_id row =
    same_text row.id session_id && same_text row.account_id account_id

abbrev pub is_live_row : (account_id session_id : String) → Session → Bool
is_live_row account_id session_id row =
    is_session account_id session_id row && is_unset row.revoked_at

abbrev pub revoke_row : (reason : String) → ℕ → Session → Session
revoke_row reason now row = record row { revoked_at = some now; revoked_reason = some reason }

abbrev pub revoke_family_row : (reason : String) → ℕ → RefreshTokenFamily → RefreshTokenFamily
revoke_family_row reason now row = record row {
  revoked_at = some now;
  revoked_reason = some reason;
}

-- A family of some sessions that is not revoked.
abbrev pub is_live_family : (account_id : String) → List String → RefreshTokenFamily → Bool
is_live_family account_id session_ids row =
    any (same_text row.session_id) session_ids
    && is_unset row.revoked_at
    && same_text row.account_id account_id

unfoldable pub revoke_families_of_sessions :
    (account_id : String) → List String → (reason : String) → ℕ → SessionStore → SessionStore
revoke_families_of_sessions account_id session_ids reason now store = record store {
  families =
      update_where (is_live_family account_id session_ids) (revoke_family_row reason now)
        store.families;
}

-- The keys of the rows that a bundle adds, and the policies of the account that adds them. The
-- references between the rows hold of what `mint` makes.
abbrev pub bundle_fits : (account_id : String) → NewSessionBundle → SessionStore → Bool
bundle_fits account_id bundle store =
    same_text bundle.session.account_id account_id
    && same_text bundle.family.account_id account_id
    && not (any (λ s. same_text s.id bundle.session.id) store.sessions)
    && not (any (λ f. same_text f.id bundle.family.id) store.families)
    && not (any (λ t. same_text t.id bundle.first_token.id) store.tokens)
    && not (any (λ t. same_text t.token_hash bundle.first_token.token_hash) store.tokens)

-- The columns that the `create` calls give; the others are null.
abbrev pub insert_bundle : NewSessionBundle → SessionStore → SessionStore
insert_bundle bundle store = record {
  sessions = record bundle.session { revoked_at = none; revoked_reason = none } ∷ store.sessions;
  families = record bundle.family { revoked_at = none; revoked_reason = none } ∷ store.families;
  tokens = record bundle.first_token { used_at = none; superseded_by = none } ∷ store.tokens;
}

unfoldable pub create_session : NewSessionBundle → SessionStore → Option SessionStore
create_session bundle store =
    if bundle_fits bundle.session.account_id bundle store
    then some (insert_bundle bundle store)
    else none

unfoldable pub find_session : (account_id session_id : String) → SessionStore → Option Session
find_session account_id session_id store = find (is_session account_id session_id) store.sessions

-- `orderBy: { createdAt: 'desc' }`
unfoldable pub list_sessions : (account_id : String) → SessionStore → List Session
list_sessions account_id store =
    sort_by (λ a b. ltb b.created_at a.created_at)
      (filter (λ s. same_text s.account_id account_id) store.sessions)

unfoldable pub touch_session :
    (account_id session_id : String)
    → (now : ℕ) → (idle_expires_at : Option ℕ) → SessionStore
    → SessionStore
touch_session account_id session_id now idle_expires_at store = record store {
  sessions =
      update_where (is_live_row account_id session_id)
        (λ s. record s { last_seen_at = now; idle_expires_at = idle_expires_at }) store.sessions;
}

-- The update of `revokeSession` and of `rebindSession`.
abbrev pub revoke_rows : (account_id session_id reason : String) → ℕ → SessionStore → SessionStore
revoke_rows account_id session_id reason now store = record store {
  sessions =
      update_where (is_live_row account_id session_id) (revoke_row reason now) store.sessions;
}

unfoldable pub revoke_session :
    (account_id session_id reason : String) → ℕ → SessionStore → SessionStore × Bool
unfolding revoke_families_of_sessions
revoke_session account_id session_id reason now store =
    if count (is_live_row account_id session_id) store.sessions == 0 then (store, false) else (
      revoke_families_of_sessions account_id (session_id ∷ []) reason now
          (revoke_rows account_id session_id reason now store),
      true,
    )

abbrev pub is_excepted : Option String → Session → Bool
is_excepted none row = false
is_excepted (some session_id) row = same_text row.id session_id

abbrev pub is_target : (account_id : String) → (except : Option String) → Session → Bool
is_target account_id except row =
    same_text row.account_id account_id && is_unset row.revoked_at && not (is_excepted except row)

unfoldable pub revoke_all_sessions :
    (account_id reason : String) → ℕ → (except : Option String) → SessionStore → SessionStore × ℕ
unfolding revoke_families_of_sessions
revoke_all_sessions account_id reason now except store =
    let ids = map (λ s. s.id) (filter (is_target account_id except) store.sessions) in
    if length ids == 0 then (store, 0) else (
      revoke_families_of_sessions account_id ids reason now (record store {
        sessions =
            update_where (λ s. any (same_text s.id) ids && same_text s.account_id account_id)
              (revoke_row reason now) store.sessions;
      }),
      length ids,
    )

unfoldable pub set_tenant_binding :
    (account_id session_id tenant_binding : String) → SessionStore → SessionStore × BindOutcome
set_tenant_binding account_id session_id tenant_binding store =
    let claims : Session → Bool =
      λ s. is_live_row account_id session_id s && is_unset s.tenant_binding in
    (
      record store {
        sessions =
            update_where claims (λ s. record s { tenant_binding = some tenant_binding })
              store.sessions;
      },
      if count claims store.sessions == 1 then BindOutcome.bound else BindOutcome.not_bindable,
    )

-- One transaction: the old session and its families are revoked and the new bundle is added, or
-- nothing is written.
unfoldable pub rebind_session :
    (account_id old_session_id reason : String)
    → NewSessionBundle
    → ℕ
    → SessionStore
    → Option (SessionStore × RebindOutcome)
unfolding revoke_families_of_sessions
rebind_session account_id old_session_id reason bundle now store =
    let revoked =
      revoke_families_of_sessions account_id (old_session_id ∷ []) reason now
        (revoke_rows account_id old_session_id reason now store) in
    if count (is_live_row account_id old_session_id) store.sessions == 0
    then some (store, RebindOutcome.stale_session)
    else if bundle_fits account_id bundle revoked
    then some (insert_bundle bundle revoked, RebindOutcome.rebound)
    else none

abbrev pub presented_with :
    RefreshTokenRecord → RefreshTokenFamily → Option Session → Option PresentedRefreshToken
presented_with token family none = none
presented_with token family (some session) =
    some (record { token = token; family = family; session = session })

-- The session is read in the scope of the account that the family names.
abbrev pub presented_in :
    SessionStore → RefreshTokenRecord → Option RefreshTokenFamily → Option PresentedRefreshToken
presented_in store token none = none
presented_in store token (some family) =
    presented_with token family
      (find (is_session family.account_id family.session_id) store.sessions)

abbrev pub present_token : SessionStore → Option RefreshTokenRecord → Option PresentedRefreshToken
present_token store none = none
present_token store (some token) =
    presented_in store token (find (λ f. same_text f.id token.family_id) store.families)

unfoldable pub find_by_token_hash :
    (token_hash : String) → SessionStore → Option PresentedRefreshToken
find_by_token_hash token_hash store =
    present_token store (find (λ t. same_text t.token_hash token_hash) store.tokens)

-- A token whose family belongs to the account.
abbrev pub owns_token : (account_id : String) → SessionStore → String → Bool
owns_token account_id store family_id =
    any (λ f. same_text f.id family_id && same_text f.account_id account_id) store.families

abbrev pub is_claimable_token :
    (account_id token_id : String) → SessionStore → RefreshTokenRecord → Bool
is_claimable_token account_id token_id store row =
    same_text row.id token_id && is_unset row.used_at && owns_token account_id store row.family_id

-- The keys and the policy of the successor's row.
abbrev pub successor_fits : (account_id : String) → RefreshTokenRecord → SessionStore → Bool
successor_fits account_id successor store =
    not (any (λ t. same_text t.id successor.id) store.tokens)
    && not (any (λ t. same_text t.token_hash successor.token_hash) store.tokens)
    && owns_token account_id store successor.family_id

-- The presented token is marked used, the successor is added, and the two are linked.
abbrev pub rotated_store :
    (account_id presented_token_id : String)
    → (successor : RefreshTokenRecord) → ℕ
    → SessionStore
    → SessionStore
rotated_store account_id presented_token_id successor now store =
    let claims = is_claimable_token account_id presented_token_id store in
    record store {
      tokens =
          update_where
            (λ t. same_text t.id presented_token_id && owns_token account_id store t.family_id)
            (λ t. record t { superseded_by = some successor.id })
            (record successor { used_at = none; superseded_by = none }
              ∷ update_where claims (λ t. record t { used_at = some now }) store.tokens);
    }

unfoldable pub rotate_token :
    (account_id presented_token_id : String)
    → (successor : RefreshTokenRecord) → ℕ
    → SessionStore
    → Option (SessionStore × RotateOutcome)
rotate_token account_id presented_token_id successor now store =
    if count (is_claimable_token account_id presented_token_id store) store.tokens == 0
    then some (store, RotateOutcome.already_used)
    else if successor_fits account_id successor store
    then some
        (rotated_store account_id presented_token_id successor now store, RotateOutcome.rotated)
    else none

unfoldable pub revoke_family_and_session :
    (account_id family_id session_id reason : String) → ℕ → SessionStore → SessionStore
revoke_family_and_session account_id family_id session_id reason now store = record store {
  families =
      update_where
        (λ f.
          same_text f.id family_id && is_unset f.revoked_at && same_text f.account_id account_id)
        (revoke_family_row reason now) store.families;
  sessions =
      update_where (is_live_row account_id session_id) (revoke_row reason now) store.sessions;
}
