-- ===== src/Identity/Exchange.antt =====
-- A refresh that succeeds, and that the token which it exchanged is never exchanged again.
use mathlib.Core.Path.{subst}
use karar_flutter_version.Prelude.{
  String, ◌≡◌, refl, sym, ap, ◌∙◌, inl, inr, Bool, Bool-cases, true, not, ◌||◌, Option, none, some,
  All, All-mono, All-Any, Any-mono, any_iff, find-some, find-Any, find-holds, find-only, same_text,
  eq_iff, List, ok, err, arith,
}
use karar_flutter_version.Identity.Session.{
  RefreshTokenRecord, IdentityAccount, is_unset, is_active_account, idle_expiry,
}
use karar_flutter_version.Identity.Store.{
  SessionStore, PresentedRefreshToken, RotateOutcome, find_by_token_hash, rotate_token,
  touch_session,
}
use karar_flutter_version.Identity.Refresh.{
  IdentityState, RefreshDeps, RefreshedSession, RefreshSessionError, successor_of, after_rotation,
  with_account, refresh_presented, refresh_session, is_exchangeable,
}
use karar_flutter_version.Identity.Steps.{Step, Step-Change, Reach, rotate_token-some}
use karar_flutter_version.Identity.WellFormed.{has_hash, IsKey, IsWellFormed, reach-IsWellFormed}
use karar_flutter_version.Identity.Hashes.{HashHas, Change-HashHas}
use karar_flutter_version.Identity.Once.{
  present_token-some, IsSpent, reach-IsKnown, reach-IsSpent, found-IsKnown, rotated-IsSpent,
  spent-presented, refresh_presented-used, within-presented,
}

after_rotation-ok :
    (deps : RefreshDeps) (p : PresentedRefreshToken) (account : IdentityAccount)
    (state after : IdentityState) (r : RefreshedSession) (o : Option (SessionStore × RotateOutcome))
    → after_rotation deps p account state o ≡ (after, ok r)
    → (x : SessionStore) × (o ≡ some (x, RotateOutcome.rotated))
      × (touch_session p.family.account_id p.session.id deps.now
            (idle_expiry deps.policy deps.now)
            x
          ≡ after.store)
unfolding after_rotation
after_rotation-ok deps p account state after r none e = let k = ap (λ x. x.1) e in cc
after_rotation-ok deps p account state after r (some (x, RotateOutcome.already_used)) e =
    let k = ap (λ x. x.1) e in cc
after_rotation-ok deps p account state after r (some (x, RotateOutcome.rotated)) e =
    (x, refl, ap (λ y. y.0.store) e)

with_account-ok :
    (deps : RefreshDeps) (p : PresentedRefreshToken) (state after : IdentityState)
    (r : RefreshedSession) (o : Option IdentityAccount)
    → with_account deps p state o ≡ (after, ok r)
    → (account : IdentityAccount) × (after_rotation deps p account
          (record state { store = deps.meanwhile state.store })
          (rotate_token p.family.account_id p.token.id
            (successor_of deps p)
            deps.now
            (deps.meanwhile state.store))
        ≡ (after, ok r))
unfolding with_account
with_account-ok deps p state after r none e = let k = ap (λ x. x.1) e in cc
with_account-ok deps p state after r (some account) e =
    elim (Bool-cases (is_active_account account.status)) [
      | inl live ↦ (account, ground (arith, live, e))
      | inr dead ↦ (let k = ap (λ x. x.1) e in ground (arith, dead, k))
    ]

refresh_presented-ok :
    (deps : RefreshDeps) (state after : IdentityState) (r : RefreshedSession)
    (o : Option PresentedRefreshToken)
    → refresh_presented deps state o ≡ (after, ok r)
    → (p : PresentedRefreshToken) × (o ≡ some p)
      × (with_account deps p state (deps.find_account p.family.account_id) ≡ (after, ok r))
unfolding refresh_presented
refresh_presented-ok deps state after r none e = let k = ap (λ x. x.1) e in cc
refresh_presented-ok deps state after r (some p) e =
    let k = ap (λ x. x.1) e in
    elim (Bool-cases (not (is_unset p.token.used_at) || not (is_unset p.token.superseded_by))) [
      | inl used ↦ ground (arith, used, k)
      | inr fresh ↦ elim (Bool-cases (is_exchangeable p deps.now)) [
        | inl fits ↦ (p, refl, ground (arith, fresh, fits, e))
        | inr refused ↦ ground (arith, fresh, refused, k)
      ]
    ]

limited-ok :
    (deps : RefreshDeps) (raw : String) (state after : IdentityState) (r : RefreshedSession)
    → refresh_session deps raw state ≡ (after, ok r)
    → deps.within_limit ≡ true
unfolding refresh_session
limited-ok deps raw state after r e = elim (Bool-cases deps.within_limit) [
  | inl within ↦ within
  | inr over ↦ let k = ap (λ x. x.1) e in ground (arith, over, k)
]

-- A known id and family stay those of the token with the hash.
reach-family :
    (h id family_id : String) (s m : SessionStore)
    → Reach s m
    → HashHas h (λ t. (t.id ≡ id) × (t.family_id ≡ family_id)) s.tokens
    → HashHas h (λ t. (t.id ≡ id) × (t.family_id ≡ family_id)) m.tokens
reach-family h id family_id s m Reach.here k = k
reach-family h id family_id s m (Reach.next {t = u} run step) k =
    Change-HashHas h (λ t. (t.id ≡ id) × (t.family_id ≡ family_id))
      (λ t. (t.id ≡ id) × (t.family_id ≡ family_id)) (Step-Change step) (λ r q. q) (λ r now q. q)
      (λ r x q. q) (reach-family h id family_id s u run k)

-- The id is that of one token only, so its family is that of every token with the id.
one_family :
    (h id family_id : String) (tokens : List RefreshTokenRecord)
    → IsKey (λ t. t.id) tokens
    → HashHas h (λ t. (t.id ≡ id) × (t.family_id ≡ family_id)) tokens
    → All (λ r. r.id ≡ id → r.family_id ≡ family_id) tokens
one_family h id family_id tokens ids (there, all_of) =
    let (t, found) = find-some (has_hash h) tokens there in
    let (same, family) =
      All-Any _ t tokens all_of (find-Any (has_hash h) tokens t found)
        (find-holds (has_hash h) tokens t found) in
    let test : RefreshTokenRecord → Bool = λ x. same_text x.id id in
    let named = (any_iff test tokens).1 (
      Any-mono _ _ (λ x k. (eq_iff x.id id).1 (ap (λ y. y.id) k ∙ same)) tokens
        (find-Any (has_hash h) tokens t found)) in
    let (y, first) = find-some test tokens named in
    let only = find-only test tokens y first (ids id) in
    let t_is_y =
      All-Any _ t tokens only (find-Any (has_hash h) tokens t found) ((eq_iff t.id id).1 same) in
    All-mono _ _
      (λ r is_y e. ap (λ x. x.family_id) (is_y ((eq_iff r.id id).1 e) ∙ sym t_is_y) ∙ family) tokens
      only

-- The tokens with the id of the one that was presented are of its family.
kin_of :
    (h : String) (s m : SessionStore) (p : PresentedRefreshToken)
    → find_by_token_hash h s ≡ some p
    → IsWellFormed s
    → Reach s m
    → All (λ r. r.id ≡ p.token.id → r.family_id ≡ p.family.id) m.tokens
unfolding find_by_token_hash
kin_of h s m p found good run =
    let (token, family) = present_token-some s _ p found in
    let (linked, owned, hashes, ids, one) = good in
    let named =
      (eq_iff p.family.id p.token.family_id).0
        (find-holds (λ f. same_text f.id p.token.family_id) s.families p.family family) in
    let all_of =
      All-mono _ _
        (λ t same k.
          let is_it = same k in (ap (λ x. x.id) is_it, ap (λ x. x.family_id) is_it ∙ sym named))
        s.tokens (find-only (has_hash h) s.tokens p.token token (hashes h)) in
    let there = (any_iff (has_hash h) s.tokens).1 (
      Any-mono _ _ (λ t k. rw k (find-holds (has_hash h) s.tokens p.token token)) s.tokens
        (find-Any (has_hash h) s.tokens p.token token)) in
    one_family h p.token.id p.family.id m.tokens ((reach-IsWellFormed s m good run).3)
      (reach-family h p.token.id p.family.id s m run (there, all_of))

-- The token of a refresh that succeeds is spent in the store that it leaves.
refresh_session-IsSpent :
    (deps : RefreshDeps) (raw : String) (state after : IdentityState) (r : RefreshedSession)
    → IsWellFormed state.store
    → Reach state.store (deps.meanwhile state.store)
    → refresh_session deps raw state ≡ (after, ok r)
    → Reach state.store after.store × IsSpent (deps.digest raw) after.store
unfolding touch_session
refresh_session-IsSpent deps raw state after r good others e =
    let h = deps.digest raw in
    let m = deps.meanwhile state.store in
    let limit = limited-ok deps raw state after r e in
    let (p, found, go) =
      refresh_presented-ok deps state after r _ (sym (within-presented deps raw state limit) ∙ e) in
    let (account, claim) = with_account-ok deps p state after r _ go in
    let (x, rotation, touched) = after_rotation-ok deps p account _ after r _ claim in
    let known =
      reach-IsKnown p.family.account_id p.token.id h state.store m others
        (found-IsKnown h state.store p good found) in
    let rotates : Step m x =
      Step.rotates m x p.family.account_id p.token.id (successor_of deps p) deps.now
        RotateOutcome.rotated (kin_of h state.store m p found good others) rotation in
    let touches : Step x (
        touch_session p.family.account_id p.session.id deps.now (idle_expiry deps.policy deps.now)
          x) =
      Step.touches x p.family.account_id p.session.id deps.now (idle_expiry deps.policy deps.now) in
    let spent : IsSpent h x =
      elim (rotate_token-some p.family.account_id p.token.id (successor_of deps p) deps.now m x
        RotateOutcome.rotated rotation) [
          | inl (_, not_so) ↦ cc
          | inr (same, live, fits) ↦ subst (IsSpent h) same (
              rotated-IsSpent p.family.account_id p.token.id h (successor_of deps p) deps.now m
                known fits)
        ] in
    (
      subst (Reach state.store) touched (Reach.next (Reach.next others rotates) touches),
      subst (IsSpent h) touched spent,
    )

-- A refresh token is exchanged once: if a refresh of it succeeds, then whatever transactions other
-- requests run during it and after it, its next presentation within the rate limit is told as a
-- reuse.
pub refresh_session-once :
    (deps later : RefreshDeps) (raw : String) (state after : IdentityState) (r : RefreshedSession)
    (store : SessionStore)
    → IsWellFormed state.store
    → Reach state.store (deps.meanwhile state.store)
    → refresh_session deps raw state ≡ (after, ok r)
    → Reach after.store store
    → later.digest raw ≡ deps.digest raw
    → later.within_limit ≡ true
    → (refresh_session later raw (record after { store = store })).1
      ≡ err RefreshSessionError.reuse_detected
refresh_session-once deps later raw state after r store good others e run same_digest limit =
    let (first, spent) = refresh_session-IsSpent deps raw state after r good others e in
    let good_after =
      reach-IsWellFormed after.store store (reach-IsWellFormed state.store after.store good first)
        run in
    let still = reach-IsSpent (deps.digest raw) after.store store run spent in
    let (p, found, used) =
      spent-presented (later.digest raw) store good_after
        (subst (λ h. IsSpent h store) (sym same_digest) still) in
    let state_then = record after { store = store } in
    ap (λ x. x.1)
      (within-presented later raw state_then limit
        ∙ ap (refresh_presented later state_then) found
        ∙ refresh_presented-used later state_then p used)
