-- ===== src/Identity/Binding.antt =====
-- modules/identity/application/use-cases, session-tenant-binding.ts and session-lifecycle.ts. The store
-- that the transaction of a binding finds is an argument, since other requests run between the read
-- and it. The security ledger and the audit trail are lists, and whether each takes a write is an
-- argument; what an entry says besides its type is left out.
use karar_flutter_version.Prelude.{
  ℕ, String, Bool, not, Option, none, some, List, ◌∷◌, if◌then◌else◌, Result, ok, err,
}
use karar_flutter_version.Identity.Session.{
  Session, IdentityAccount, IdentityPolicy, ClientContext, NewSessionBundle, FreshIds,
  is_active_account, is_session_live, mint,
}
use karar_flutter_version.Identity.Store.{
  SessionStore, BindOutcome, RebindOutcome, find_session, set_tenant_binding, rebind_session,
}

pub record RecordedState : Type 0 where
  pub store : SessionStore
  pub ledger : List (String × String)
  pub audit : List (String × String)

-- Whether the security ledger and the audit trail take a write.
pub record Recorders : Type 0 where
  pub ledger_takes : Bool
  pub audit_takes : Bool

-- `recordSecurity`, then `auditOrFail`, then the answer. Each of the first two throws the error given,
-- DEPENDENCY_UNAVAILABLE, where its write is refused; what the request did to the store stays.
unfoldable pub recorded :
    {A E : Type 0}
    → Recorders
    → (account_id event action : String) → (unavailable : E) → RecordedState
    → Result A E
    → RecordedState × Result A E
recorded recorders account_id event action unavailable state answer =
    if not recorders.ledger_takes
    then (state, err unavailable)
    else if not recorders.audit_takes
    then (record state { ledger = (account_id, event) ∷ state.ledger }, err unavailable)
    else (
      record state {
        ledger = (account_id, event) ∷ state.ledger;
        audit = (account_id, action) ∷ state.audit;
      },
      answer,
    )

-- The last is thrown.
pub data BindSessionTenantError : Type 0 where
  session_not_found : BindSessionTenantError
  already_bound : (current_binding : String) → BindSessionTenantError
  bind_conflict dependency_unavailable : BindSessionTenantError

pub record SessionTenantBound : Type 0 where
  pub session_id : String
  pub tenant_id : String

-- The transaction, in the store that it finds.
unfoldable pub claim_binding :
    Recorders
    → (account_id session_id tenant_id : String) → RecordedState
    → RecordedState × Result SessionTenantBound BindSessionTenantError
claim_binding recorders account_id session_id tenant_id state =
    let (store, outcome) = set_tenant_binding account_id session_id tenant_id state.store in
    elim outcome [
      | BindOutcome.bound ↦
          recorded recorders account_id "session_tenant_bound" "identity.session.tenant_bound"
            BindSessionTenantError.dependency_unavailable (record state { store = store })
            (ok (record { session_id = session_id; tenant_id = tenant_id }))
      | BindOutcome.not_bindable ↦
          (record state { store = store }, err BindSessionTenantError.bind_conflict)
    ]

unfoldable pub bind_found :
    Recorders
    → (account_id session_id tenant_id : String) → (now : ℕ)
    → (meanwhile : SessionStore → SessionStore) → RecordedState
    → Option Session
    → RecordedState × Result SessionTenantBound BindSessionTenantError
bind_found recorders account_id session_id tenant_id now meanwhile state none =
    (state, err BindSessionTenantError.session_not_found)
bind_found recorders account_id session_id tenant_id now meanwhile state (some session) =
    let claimed =
      claim_binding recorders account_id session_id tenant_id
        (record state { store = meanwhile state.store }) in
    if is_session_live session now
    then elim session.tenant_binding [
      | some binding ↦ (state, err (BindSessionTenantError.already_bound binding))
      | none ↦ claimed
    ]
    else (state, err BindSessionTenantError.session_not_found)

-- `BindSessionTenant.execute`
unfoldable pub bind_session_tenant :
    Recorders
    → (account_id session_id tenant_id : String) → (now : ℕ)
    → (meanwhile : SessionStore → SessionStore) → RecordedState
    → RecordedState × Result SessionTenantBound BindSessionTenantError
bind_session_tenant recorders account_id session_id tenant_id now meanwhile state =
    bind_found recorders account_id session_id tenant_id now meanwhile state
      (find_session account_id session_id state.store)

-- The last three are thrown: by the transaction, by a ledger that refuses its write, and by the
-- signer of access tokens.
pub data RebindSessionTenantError : Type 0 where
  session_not_found not_bound account_not_active rebind_conflict : RebindSessionTenantError
  failed_rebind dependency_unavailable failed_signing : RebindSessionTenantError

-- The session that is issued, less its signed access token.
pub record SessionTenantRebound : Type 0 where
  pub bundle : NewSessionBundle
  pub previous_binding : String
  pub new_binding : Option String

pub record RebindInput : Type 0 where
  pub account_id : String
  pub session_id : String
  pub new_tenant_id : Option String
  pub client : ClientContext

pub record RebindDeps : Type 0 where
  pub policy : IdentityPolicy
  pub fresh_ids : FreshIds
  pub find_account : String → Option IdentityAccount
  pub meanwhile : SessionStore → SessionStore
  pub recorders : Recorders
  -- Whether the signer answers.
  pub can_sign : Bool
  -- The instants of the check and of `mint`.
  pub now : ℕ
  pub minted_at : ℕ

unfoldable pub after_rebind :
    RebindDeps
    → RebindInput
    → NewSessionBundle
    → (previous_binding : String) → RecordedState
    → Option (SessionStore × RebindOutcome)
    → RecordedState × Result SessionTenantRebound RebindSessionTenantError
after_rebind deps input bundle previous_binding state none =
    (state, err RebindSessionTenantError.failed_rebind)
after_rebind deps input bundle previous_binding state (some (store, RebindOutcome.stale_session)) =
    (record state { store = store }, err RebindSessionTenantError.rebind_conflict)
after_rebind deps input bundle previous_binding state (some (store, RebindOutcome.rebound)) =
    recorded deps.recorders input.account_id "session_tenant_rebound"
      "identity.session.tenant_rebound" RebindSessionTenantError.dependency_unavailable
      (record state { store = store })
      (if deps.can_sign
        then ok (record {
          bundle = bundle;
          previous_binding = previous_binding;
          new_binding = input.new_tenant_id;
        })
        else err RebindSessionTenantError.failed_signing)

-- An unbound session takes the other path.
unfoldable pub rebind_bound :
    RebindDeps
    → RebindInput
    → IdentityAccount
    → RecordedState
    → Option String
    → RecordedState × Result SessionTenantRebound RebindSessionTenantError
rebind_bound deps input account state none = (state, err RebindSessionTenantError.not_bound)
rebind_bound deps input account state (some previous) =
    let bundle =
      mint deps.policy deps.fresh_ids deps.minted_at account input.client input.new_tenant_id in
    let found = record state { store = deps.meanwhile state.store } in
    after_rebind deps input bundle previous found
      (rebind_session input.account_id input.session_id "tenant_switch" bundle deps.now found.store)

unfoldable pub rebind_found :
    RebindDeps
    → RebindInput
    → IdentityAccount
    → RecordedState
    → Option Session
    → RecordedState × Result SessionTenantRebound RebindSessionTenantError
rebind_found deps input account state none = (state, err RebindSessionTenantError.session_not_found)
rebind_found deps input account state (some session) =
    if is_session_live session deps.now
    then rebind_bound deps input account state session.tenant_binding
    else (state, err RebindSessionTenantError.session_not_found)

unfoldable pub rebind_account :
    RebindDeps
    → RebindInput
    → RecordedState
    → Option IdentityAccount
    → RecordedState × Result SessionTenantRebound RebindSessionTenantError
rebind_account deps input state none = (state, err RebindSessionTenantError.account_not_active)
rebind_account deps input state (some account) =
    if is_active_account account.status
    then rebind_found deps input account state
        (find_session input.account_id input.session_id state.store)
    else (state, err RebindSessionTenantError.account_not_active)

-- `RebindSessionTenant.execute`
unfoldable pub rebind_session_tenant :
    RebindDeps
    → RebindInput
    → RecordedState
    → RecordedState × Result SessionTenantRebound RebindSessionTenantError
rebind_session_tenant deps input state =
    rebind_account deps input state (deps.find_account input.account_id)
