-- ===== src/Identity/Lifecycle.antt =====
-- modules/identity/application/use-cases/session-lifecycle.ts.
use karar_flutter_version.Prelude.{
  ℕ, String, Bool, not, Option, some, List, ◌∷◌, map, filter, same_text, if◌then◌else◌, Result, ok,
  err,
}
use karar_flutter_version.Identity.Session.{is_session_live}
use karar_flutter_version.Identity.Store.{list_sessions, revoke_session, revoke_all_sessions}
use karar_flutter_version.Identity.Binding.{RecordedState, Recorders, recorded}

pub record SessionView : Type 0 where
  pub session_id : String
  pub created_at : ℕ
  pub last_seen_at : ℕ
  pub absolute_expires_at : ℕ
  pub current : Bool
  pub user_agent_summary : Option String
  pub ip_digest : Option String

-- `ListSessions.execute`
unfoldable pub view_sessions :
    (account_id current_session_id : String) → (now : ℕ) → RecordedState → List SessionView
view_sessions account_id current_session_id now state =
    map
      (λ s. record {
        session_id = s.id;
        created_at = s.created_at;
        last_seen_at = s.last_seen_at;
        absolute_expires_at = s.absolute_expires_at;
        current = same_text s.id current_session_id;
        user_agent_summary = s.user_agent_summary;
        ip_digest = s.ip_digest;
      })
      (filter (λ s. is_session_live s now) (list_sessions account_id state.store))

-- The last is thrown.
pub data RevokeSessionError : Type 0 where
  not_found dependency_unavailable : RevokeSessionError

-- `RevokeSession.execute`
unfoldable pub revoke_own_session :
    Recorders
    → (account_id session_id : String) → (now : ℕ) → RecordedState
    → RecordedState × Result {0, 0} Unit RevokeSessionError
revoke_own_session recorders account_id session_id now state =
    let (store, revoked) =
      revoke_session account_id session_id "revoked_by_owner" now state.store in
    let after = record state { store = store } in
    if revoked
    then recorded recorders account_id "session_revoked" "identity.session.revoked"
        RevokeSessionError.dependency_unavailable after (ok tt)
    else (after, err RevokeSessionError.not_found)

-- What `RevokeOtherSessions` and `Logout` throw.
pub data RecordFailure : Type 0 where
  dependency_unavailable : RecordFailure

-- `RevokeOtherSessions.execute`
unfoldable pub revoke_other_sessions :
    Recorders
    → (account_id current_session_id : String) → (now : ℕ) → RecordedState
    → RecordedState × Result {0, 0} ℕ RecordFailure
revoke_other_sessions recorders account_id current_session_id now state =
    let (store, revoked_count) =
      revoke_all_sessions account_id "revoked_other_sessions" now (some current_session_id)
        state.store in
    recorded recorders account_id "sessions_revoked_bulk" "identity.sessions.revoked_others"
      RecordFailure.dependency_unavailable (record state { store = store }) (ok revoked_count)

-- `Logout.execute`, which writes no audit entry, and answers for a session that is over too.
unfoldable pub logout :
    (ledger_takes : Bool)
    → (account_id session_id : String) → (now : ℕ) → RecordedState
    → RecordedState × Result {0, 0} Unit RecordFailure
logout ledger_takes account_id session_id now state =
    let (store, revoked) = revoke_session account_id session_id "logout" now state.store in
    let after = record state { store = store } in
    if not revoked
    then (after, ok tt)
    else if ledger_takes
    then (record after { ledger = (account_id, "session_revoked") ∷ after.ledger }, ok tt)
    else (after, err RecordFailure.dependency_unavailable)
