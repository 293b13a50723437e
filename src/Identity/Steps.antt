-- ===== src/Identity/Steps.antt =====
-- The transactions of modules/identity that requests interleave on the session store, and what
-- every store that they reach has.
use mathlib.Core.Path.{subst}
use karar_flutter_version.Prelude.{
  ℕ, String, ◌≡◌, refl, sym, ap, ◌⊎◌, inl, inr, Bool, Bool-cases, true, false, Option, none, some,
  if◌then◌else◌, [], ◌∷◌, any, length, map, filter, All, update_where, update_where-All,
  update_where-any, count, ◌==◌, arith,
}
use karar_flutter_version.Identity.Session.{
  Session, RefreshTokenFamily, RefreshTokenRecord, NewSessionBundle,
}
use karar_flutter_version.Identity.Store.{
  SessionStore, RotateOutcome, RebindOutcome, create_session, touch_session, revoke_session,
  revoke_all_sessions, set_tenant_binding, rebind_session, rotate_token, revoke_family_and_session,
  is_session, insert_bundle, bundle_fits, rotated_store, successor_fits, is_claimable_token,
  is_live_row, is_target, revoke_families_of_sessions, revoke_rows,
}

-- The rows of a bundle name each other, as those that `mint` makes do.
abbrev pub IsBundle : NewSessionBundle → Type 0
IsBundle b =
    (b.family.session_id ≡ b.session.id)
    × (b.family.account_id ≡ b.session.account_id)
    × (b.first_token.family_id ≡ b.family.id)

-- One transaction. A successor is of the family of the token that it replaces, as in `execute`.
pub data Step : SessionStore → SessionStore → Type 0 where
  creates :
      (s t : SessionStore) (bundle : NewSessionBundle)
      → IsBundle bundle
      → create_session bundle s ≡ some t
      → Step s t
  touches :
      (s : SessionStore) (account_id session_id : String) (now : ℕ) (idle_expires_at : Option ℕ)
      → Step s (touch_session account_id session_id now idle_expires_at s)
  revokes :
      (s : SessionStore) (account_id session_id reason : String) (now : ℕ)
      → Step s (revoke_session account_id session_id reason now s).0
  revokes_all :
      (s : SessionStore) (account_id reason : String) (now : ℕ) (except : Option String)
      → Step s (revoke_all_sessions account_id reason now except s).0
  binds :
      (s : SessionStore) (account_id session_id tenant_binding : String)
      → Step s (set_tenant_binding account_id session_id tenant_binding s).0
  rebinds :
      (s t : SessionStore) (account_id old_session_id reason : String) (bundle : NewSessionBundle)
      (now : ℕ) (outcome : RebindOutcome)
      → IsBundle bundle
      → rebind_session account_id old_session_id reason bundle now s ≡ some (t, outcome)
      → Step s t
  rotates :
      (s t : SessionStore) (account_id presented_token_id : String) (successor : RefreshTokenRecord)
      (now : ℕ) (outcome : RotateOutcome)
      → All (λ r. r.id ≡ presented_token_id → r.family_id ≡ successor.family_id) s.tokens
      → rotate_token account_id presented_token_id successor now s ≡ some (t, outcome)
      → Step s t
  revokes_family :
      (s : SessionStore) (account_id family_id session_id reason : String) (now : ℕ)
      → Step s (revoke_family_and_session account_id family_id session_id reason now s)

pub data Reach (s : SessionStore) : SessionStore → Type 0 where
  here : Reach s s
  next : {t u : SessionStore} → Reach s t → Step t u → Reach s u

-- What becomes of the sessions and families of a store when rows are only changed in what is no key.
abbrev pub KeepsKeys : SessionStore → SessionStore → Type 1
KeepsKeys s t =
    ((account_id id : String)
      → any (is_session account_id id) t.sessions ≡ any (is_session account_id id) s.sessions)
    × ((P : String → String → String → Type 0)
        → All (λ f. P f.id f.session_id f.account_id) s.families
        → All (λ f. P f.id f.session_id f.account_id) t.families)
    × ((p : String → String → Bool)
        → any (λ f. p f.id f.account_id) t.families ≡ any (λ f. p f.id f.account_id) s.families)
    × (t.tokens ≡ s.tokens)

KeepsKeys-refl : (s : SessionStore) → KeepsKeys s s
KeepsKeys-refl s = ((λ a i. refl), (λ P h. h), (λ p. refl), refl)

-- Updates of the two tables that change no key.
updates-KeepsKeys :
    (s : SessionStore) (test : Session → Bool) (change : Session → Session)
    (chosen : RefreshTokenFamily → Bool) (turn : RefreshTokenFamily → RefreshTokenFamily)
    → ((r : Session) → ((change r).id ≡ r.id) × ((change r).account_id ≡ r.account_id))
    → ((f : RefreshTokenFamily)
        → ((turn f).id ≡ f.id)
          × ((turn f).session_id ≡ f.session_id)
          × ((turn f).account_id ≡ f.account_id))
    → KeepsKeys s (record s {
      sessions = update_where test change s.sessions;
      families = update_where chosen turn s.families;
    })
updates-KeepsKeys s test change chosen turn same keep = (
  (λ a i.
      update_where-any (is_session a i) test change (λ r. let (x, y) = same r in rw (x, y) refl)
        s.sessions),
  (λ P h.
      update_where-All (λ f. P f.id f.session_id f.account_id)
        (λ f. P f.id f.session_id f.account_id) chosen turn
        (λ f e k. let (x, y, z) = keep f in rw (x, y, z) k) (λ f e k. k) s.families h),
  (λ p.
      update_where-any (λ f. p f.id f.account_id) chosen turn
        (λ f. let (x, y, z) = keep f in rw (x, z) refl) s.families),
  refl,
)

families-KeepsKeys :
    (s : SessionStore) (chosen : RefreshTokenFamily → Bool)
    (turn : RefreshTokenFamily → RefreshTokenFamily)
    → ((f : RefreshTokenFamily)
        → ((turn f).id ≡ f.id)
          × ((turn f).session_id ≡ f.session_id)
          × ((turn f).account_id ≡ f.account_id))
    → KeepsKeys s (record s { families = update_where chosen turn s.families })
families-KeepsKeys s chosen turn keep = (
  (λ a i. refl),
  (updates-KeepsKeys s (λ r. false) (λ r. r) chosen turn (λ r. (refl, refl)) keep).1,
  (updates-KeepsKeys s (λ r. false) (λ r. r) chosen turn (λ r. (refl, refl)) keep).2,
  refl,
)

sessions-KeepsKeys :
    (s : SessionStore) (test : Session → Bool) (change : Session → Session)
    → ((r : Session) → ((change r).id ≡ r.id) × ((change r).account_id ≡ r.account_id))
    → KeepsKeys s (record s { sessions = update_where test change s.sessions })
sessions-KeepsKeys s test change same = (
  (λ a i.
      update_where-any (is_session a i) test change (λ r. let (x, y) = same r in rw (x, y) refl)
        s.sessions),
  (λ P h. h),
  (λ p. refl),
  refl,
)

-- How a transaction changes the store: no key and no token, or a new bundle besides, or a rotation.
pub data Change (s : SessionStore) : SessionStore → Type 1 where
  kept : {t : SessionStore} → KeepsKeys s t → Change s t
  added :
      {m : SessionStore} (account_id : String) (bundle : NewSessionBundle)
      → KeepsKeys s m
      → IsBundle bundle
      → bundle_fits account_id bundle m ≡ true
      → Change s (insert_bundle bundle m)
  exchanged :
      (account_id token_id : String) (successor : RefreshTokenRecord) (now : ℕ)
      → All (λ r. r.id ≡ token_id → r.family_id ≡ successor.family_id) s.tokens
      → (count (is_claimable_token account_id token_id s) s.tokens == 0) ≡ false
      → successor_fits account_id successor s ≡ true
      → Change s (rotated_store account_id token_id successor now s)

revoke_session-Change :
    (s : SessionStore) (account_id session_id reason : String) (now : ℕ)
    → KeepsKeys s (revoke_session account_id session_id reason now s).0
unfolding revoke_session
revoke_session-Change s account_id session_id reason now =
    elim (Bool-cases (count (is_live_row account_id session_id) s.sessions == 0)) [
      | inl gone ↦ rw gone (KeepsKeys-refl s)
      | inr live ↦
          rw live (updates-KeepsKeys s _ _ _ _ (λ r. (refl, refl)) (λ f. (refl, refl, refl)))
    ]

revoke_all-Change :
    (s : SessionStore) (account_id reason : String) (now : ℕ) (except : Option String)
    → KeepsKeys s (revoke_all_sessions account_id reason now except s).0
unfolding revoke_all_sessions
revoke_all-Change s account_id reason now except =
    elim (Bool-cases
      (length (map (λ r. r.id) (filter (is_target account_id except) s.sessions)) == 0)) [
        | inl gone ↦ rw gone (KeepsKeys-refl s)
        | inr live ↦
            rw live (updates-KeepsKeys s _ _ _ _ (λ r. (refl, refl)) (λ f. (refl, refl, refl)))
      ]

create_session-some :
    (b : NewSessionBundle) (s t : SessionStore)
    → create_session b s ≡ some t
    → (insert_bundle b s ≡ t) × (bundle_fits b.session.account_id b s ≡ true)
unfolding create_session
create_session-some b s t e = ground (arith, e)

-- Two tests, and what they leave.
guarded :
    {A : Type 0} (b c : Bool) (x y t : A)
    → (if b then some x else if c then some y else none) ≡ some t
    → ((b ≡ true) × (x ≡ t)) ⊎ ((b ≡ false) × (c ≡ true) × (y ≡ t))
guarded b c x y t e = ground (arith, e)

unfoldable pub revoked_store :
    (account_id session_id reason : String) → ℕ → SessionStore → SessionStore
unfolding revoke_families_of_sessions
revoked_store account_id session_id reason now s =
    revoke_families_of_sessions account_id (session_id ∷ []) reason now
      (revoke_rows account_id session_id reason now s)

revoked_store-KeepsKeys :
    (account_id session_id reason : String) (now : ℕ) (s : SessionStore)
    → KeepsKeys s (revoked_store account_id session_id reason now s)
unfolding revoked_store
revoked_store-KeepsKeys account_id session_id reason now s =
    updates-KeepsKeys s _ _ _ _ (λ r. (refl, refl)) (λ f. (refl, refl, refl))

pub rebind_session-some :
    (account_id old_session_id reason : String) (b : NewSessionBundle) (now : ℕ)
    (s t : SessionStore) (outcome : RebindOutcome)
    → rebind_session account_id old_session_id reason b now s ≡ some (t, outcome)
    → let revoked = revoked_store account_id old_session_id reason now s in
      ((s ≡ t) × (outcome ≡ RebindOutcome.stale_session))
      ⊎ ((bundle_fits account_id b revoked ≡ true)
          × (insert_bundle b revoked ≡ t)
          × (outcome ≡ RebindOutcome.rebound)
          × ((count (is_live_row account_id old_session_id) s.sessions == 0) ≡ false))
unfolding rebind_session revoked_store
rebind_session-some account_id old_session_id reason b now s t outcome e =
    elim (guarded (count (is_live_row account_id old_session_id) s.sessions == 0)
      (bundle_fits account_id b (revoked_store account_id old_session_id reason now s))
      (s, RebindOutcome.stale_session)
      (
        insert_bundle b (revoked_store account_id old_session_id reason now s),
        RebindOutcome.rebound,
      )
      (t, outcome) e) [
        | inl (gone, same) ↦ inl (ap (λ x. x.0) same, sym (ap (λ x. x.1) same))
        | inr (live, fits, same) ↦ inr (fits, ap (λ x. x.0) same, sym (ap (λ x. x.1) same), live)
      ]

pub rotate_token-some :
    (account_id token_id : String) (successor : RefreshTokenRecord) (now : ℕ) (s t : SessionStore)
    (outcome : RotateOutcome)
    → rotate_token account_id token_id successor now s ≡ some (t, outcome)
    → ((s ≡ t) × (outcome ≡ RotateOutcome.already_used))
      ⊎ ((rotated_store account_id token_id successor now s ≡ t)
          × ((count (is_claimable_token account_id token_id s) s.tokens == 0) ≡ false)
          × (successor_fits account_id successor s ≡ true))
unfolding rotate_token
rotate_token-some account_id token_id successor now s t outcome e =
    elim (guarded (count (is_claimable_token account_id token_id s) s.tokens == 0)
      (successor_fits account_id successor s) (s, RotateOutcome.already_used)
      (rotated_store account_id token_id successor now s, RotateOutcome.rotated) (t, outcome) e) [
        | inl (gone, same) ↦ inl (ap (λ x. x.0) same, sym (ap (λ x. x.1) same))
        | inr (live, fits, same) ↦ inr (ap (λ x. x.0) same, live, fits)
      ]

pub Step-Change : {s t : SessionStore} → Step s t → Change s t
unfolding touch_session set_tenant_binding revoke_family_and_session
Step-Change (Step.creates s t bundle good e) =
    let (same, fits) = create_session-some bundle s t e in
    subst (Change s) same
      (Change.added bundle.session.account_id bundle (KeepsKeys-refl s) good fits)
Step-Change (Step.touches s account_id session_id now idle_expires_at) =
    Change.kept (sessions-KeepsKeys s _ _ (λ r. (refl, refl)))
Step-Change (Step.revokes s account_id session_id reason now) =
    Change.kept (revoke_session-Change s account_id session_id reason now)
Step-Change (Step.revokes_all s account_id reason now except) =
    Change.kept (revoke_all-Change s account_id reason now except)
Step-Change (Step.binds s account_id session_id tenant_binding) =
    Change.kept (sessions-KeepsKeys s _ _ (λ r. (refl, refl)))
Step-Change (Step.rebinds s t account_id old_session_id reason bundle now outcome good e) =
    elim (rebind_session-some account_id old_session_id reason bundle now s t outcome e) [
      | inl (same, _) ↦ subst (Change s) same (Change.kept (KeepsKeys-refl s))
      | inr (fits, same, _, _) ↦ subst (Change s) same (
          Change.added account_id bundle
            (revoked_store-KeepsKeys account_id old_session_id reason now s) good fits)
    ]
Step-Change (Step.rotates s t account_id token_id successor now outcome kin e) =
    elim (rotate_token-some account_id token_id successor now s t outcome e) [
      | inl (same, _) ↦ subst (Change s) same (Change.kept (KeepsKeys-refl s))
      | inr (same, live, fits) ↦
          subst (Change s) same (Change.exchanged account_id token_id successor now kin live fits)
    ]
Step-Change (Step.revokes_family s account_id family_id session_id reason now) =
    Change.kept (updates-KeepsKeys s _ _ _ _ (λ r. (refl, refl)) (λ f. (refl, refl, refl)))
