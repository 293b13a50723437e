-- ===== src/Identity/WellFormed.antt =====
-- What every session store that requests reach has: references that lead somewhere, hashes that are a
-- key, and one token at most that a family may still exchange.
use mathlib.Core.Path.{subst}
use karar_flutter_version.Prelude.{
  ℕ, ◌≤◌, String, ◌≡◌, refl, sym, ap, ◌∙◌, inl, inr, Bool, Bool-cases, true, false, ◌&&◌, none,
  some, any_mono, List, ◌∷◌, any, All, All-mono, same_text, eq_iff, update_where, update_where-All,
  update_where-any, update_where-count, count, count-taken, count-fewer, count-absent, count-none,
  ◌==◌, arith,
}
use karar_flutter_version.Identity.Session.{RefreshTokenRecord, NewSessionBundle, is_unset}
use karar_flutter_version.Identity.Store.{
  SessionStore, is_session, insert_bundle, bundle_fits, rotated_store, successor_fits,
  is_claimable_token, owns_token,
}
use karar_flutter_version.Identity.Steps.{KeepsKeys, IsBundle, Change, Reach, Step-Change}

abbrev pub has_hash : String → RefreshTokenRecord → Bool
has_hash token_hash t = same_text t.token_hash token_hash

-- A token of the family that was not exchanged yet.
abbrev pub is_open : String → RefreshTokenRecord → Bool
is_open family_id t = same_text t.family_id family_id && is_unset t.used_at

-- A column that no two tokens share.
abbrev pub IsKey : (RefreshTokenRecord → String) → List RefreshTokenRecord → Type 0
IsKey key tokens = (x : String) → count (λ t. same_text (key t) x) tokens ≤ 1

added-IsKey :
    (key : RefreshTokenRecord → String) (t : RefreshTokenRecord) (tokens : List RefreshTokenRecord)
    → any (λ r. same_text (key r) (key t)) tokens ≡ false
    → IsKey key tokens
    → IsKey key (t ∷ tokens)
added-IsKey key t tokens fresh keys x = elim (Bool-cases (same_text (key t) x)) [
  | inl e ↦
      let now_none =
        count-absent (λ r. same_text (key r) x) tokens
          (subst (λ h. any (λ r. same_text (key r) h) tokens ≡ false) ((eq_iff (key t) x).0 e)
            fresh) in
      rw e (omega (arith, now_none))
  | inr e ↦ rw e (omega (arith, keys x))
]

updated-IsKey :
    (key : RefreshTokenRecord → String) (test : RefreshTokenRecord → Bool)
    (change : RefreshTokenRecord → RefreshTokenRecord) (tokens : List RefreshTokenRecord)
    → ((r : RefreshTokenRecord) → key (change r) ≡ key r)
    → IsKey key tokens
    → IsKey key (update_where test change tokens)
updated-IsKey key test change tokens same keys x =
    let kept =
      update_where-count (λ t. same_text (key t) x) test change
        (λ r. ap (λ k. same_text k x) (same r)) tokens in
    omega (arith, kept, keys x)

-- The column is a key after a rotation, when the successor's entry is new.
exchanged-IsKey :
    (key : RefreshTokenRecord → String) (claims linked : RefreshTokenRecord → Bool)
    (use_up link : RefreshTokenRecord → RefreshTokenRecord) (next : RefreshTokenRecord)
    (tokens : List RefreshTokenRecord)
    → ((r : RefreshTokenRecord) → key (use_up r) ≡ key r)
    → ((r : RefreshTokenRecord) → key (link r) ≡ key r)
    → any (λ r. same_text (key r) (key next)) tokens ≡ false
    → IsKey key tokens
    → IsKey key (update_where linked link (next ∷ update_where claims use_up tokens))
exchanged-IsKey key claims linked use_up link next tokens same_used same_linked fresh keys =
    updated-IsKey key linked link (next ∷ update_where claims use_up tokens) same_linked (
      added-IsKey key next (update_where claims use_up tokens)
        (update_where-any (λ r. same_text (key r) (key next)) claims use_up
            (λ r. ap (λ k. same_text k (key next)) (same_used r)) tokens
          ∙ fresh)
        (updated-IsKey key claims use_up tokens same_used keys))

abbrev pub IsWellFormed : SessionStore → Type 0
IsWellFormed s =
    All (λ t. any (λ f. same_text f.id t.family_id) s.families ≡ true) s.tokens
    × All (λ f. any (is_session f.account_id f.session_id) s.sessions ≡ true) s.families
    × IsKey (λ t. t.token_hash) s.tokens
    × IsKey (λ t. t.id) s.tokens
    × ((family_id : String) → count (is_open family_id) s.tokens ≤ 1)

kept-IsWellFormed : (s t : SessionStore) → KeepsKeys s t → IsWellFormed s → IsWellFormed t
kept-IsWellFormed s t (sessions, families, names, tokens) (linked, owned, hashes, ids, one) = (
  subst (All (λ r. any (λ f. same_text f.id r.family_id) t.families ≡ true)) (sym tokens)
      (All-mono _ _ (λ r e. names (λ id account. same_text id r.family_id) ∙ e) s.tokens linked),
  All-mono _ _ (λ f e. sessions f.account_id f.session_id ∙ e) t.families
      (families (λ id session account. any (is_session account session) s.sessions ≡ true) owned),
  subst (IsKey (λ t. t.token_hash)) (sym tokens) hashes,
  subst (IsKey (λ t. t.id)) (sym tokens) ids,
  (λ family_id. subst (λ x. count (is_open family_id) x ≤ 1) (sym tokens) (one family_id)),
)

-- No token names a family that is not there.
unnamed :
    (family_id : String) (s : SessionStore)
    → any (λ f. same_text f.id family_id) s.families ≡ false
    → All (λ t. any (λ f. same_text f.id t.family_id) s.families ≡ true) s.tokens
    → count (is_open family_id) s.tokens ≡ 0
unnamed family_id s gone linked = count-none (is_open family_id) s.tokens (
    All-mono _ _
      (λ t there. elim (Bool-cases (same_text t.family_id family_id)) [
        | inl e ↦
            let here =
              subst (λ x. any (λ f. same_text f.id x) s.families ≡ true)
                ((eq_iff t.family_id family_id).0 e) there in
            absurd (ground (arith, here, gone))
        | inr e ↦ ground (arith, e)
      ])
      s.tokens linked)

added-IsWellFormed :
    (account_id : String) (b : NewSessionBundle) (m : SessionStore)
    → IsBundle b
    → bundle_fits account_id b m ≡ true
    → IsWellFormed m
    → IsWellFormed (insert_bundle b m)
added-IsWellFormed account_id b m (to_session, to_account, to_family) fits
      (linked, owned, hashes, ids, one) =
    (
      (
        (let here = (eq_iff b.family.id b.first_token.family_id).1 (sym to_family) in
            ground (arith, here)),
        All-mono _ _ (λ t e. ground (arith, e)) m.tokens linked,
      ),
      (
        (let id = (eq_iff b.session.id b.family.session_id).1 (sym to_session) in
            let account = (eq_iff b.session.account_id b.family.account_id).1 (sym to_account) in
            ground (arith, id, account)),
        All-mono _ _ (λ f e. ground (arith, e)) m.families owned,
      ),
      added-IsKey (λ t. t.token_hash)
          (record b.first_token { used_at = none; superseded_by = none }) m.tokens
          (ground (arith, fits)) hashes,
      added-IsKey (λ t. t.id) (record b.first_token { used_at = none; superseded_by = none })
          m.tokens (ground (arith, fits)) ids,
      (λ family_id. elim (Bool-cases (same_text b.first_token.family_id family_id)) [
        | inl e ↦
            let new_one : any (λ f. same_text f.id b.family.id) m.families ≡ false =
              ground (arith, fits) in
            let now_none =
              unnamed family_id m
                (subst (λ x. any (λ f. same_text f.id x) m.families ≡ false)
                  (sym to_family ∙ (eq_iff b.first_token.family_id family_id).0 e) new_one)
                linked in
            rw e (omega (arith, now_none))
        | inr e ↦ rw e (omega (arith, one family_id))
      ]),
    )

exchanged-IsWellFormed :
    (account_id token_id : String) (successor : RefreshTokenRecord) (now : ℕ) (s : SessionStore)
    → All (λ r. r.id ≡ token_id → r.family_id ≡ successor.family_id) s.tokens
    → (count (is_claimable_token account_id token_id s) s.tokens == 0) ≡ false
    → successor_fits account_id successor s ≡ true
    → IsWellFormed s
    → IsWellFormed (rotated_store account_id token_id successor now s)
exchanged-IsWellFormed account_id token_id successor now s kin live fits
      (linked, owned, hashes, ids, one) =
    let claims = is_claimable_token account_id token_id s in
    let claimed = update_where claims (λ t. record t { used_at = some now }) s.tokens in
    let Linked : RefreshTokenRecord → Type 0 =
      λ t. any (λ f. same_text f.id t.family_id) s.families ≡ true in
    let named : any (λ f. same_text f.id successor.family_id) s.families ≡ true =
      any_mono (λ f. same_text f.id successor.family_id && same_text f.account_id account_id)
        (λ f. same_text f.id successor.family_id) (λ f e. ground (arith, e)) s.families
        (ground (arith, fits)) in
    let link : RefreshTokenRecord → Bool =
      λ t. same_text t.id token_id && owns_token account_id s t.family_id in
    let all_tokens = record successor { used_at = none; superseded_by = none } ∷ claimed in
    (
      update_where-All Linked Linked _ _ (λ t e k. k) (λ t e k. k) _
          (
            named,
            update_where-All Linked Linked claims _ (λ t e k. k) (λ t e k. k) s.tokens linked,
          ),
      owned,
      exchanged-IsKey (λ t. t.token_hash) claims link (λ t. record t { used_at = some now })
          (λ t. record t { superseded_by = some successor.id })
          (record successor { used_at = none; superseded_by = none }) s.tokens (λ r. refl)
          (λ r. refl) (ground (arith, fits)) hashes,
      exchanged-IsKey (λ t. t.id) claims link (λ t. record t { used_at = some now })
          (λ t. record t { superseded_by = some successor.id })
          (record successor { used_at = none; superseded_by = none }) s.tokens (λ r. refl)
          (λ r. refl) (ground (arith, fits)) ids,
      (λ family_id.
          let linked_same =
            update_where-count (is_open family_id) link
              (λ t. record t { superseded_by = some successor.id }) (λ r. refl) all_tokens in
          let ends : (r : RefreshTokenRecord)
              → is_open family_id (record r { used_at = some now }) ≡ false =
            λ r. ground arith in
          elim (Bool-cases (same_text successor.family_id family_id)) [
            | inl e ↦
                let left =
                  count-taken (is_open family_id) claims (λ t. record t { used_at = some now }) ends
                    s.tokens
                    (All-mono _ _
                      (λ r same_family k.
                        let own = same_family ((eq_iff r.id token_id).0 (ground (arith, k))) in
                        let kin_too =
                          (eq_iff r.family_id family_id).1
                            (own ∙ (eq_iff successor.family_id family_id).0 e) in
                        ground (arith, k, kin_too))
                      s.tokens kin) in
                rw (linked_same, e) (ground (arith, left, live, one family_id))
            | inr e ↦
                let fewer =
                  count-fewer (is_open family_id) claims (λ t. record t { used_at = some now }) ends
                    s.tokens in
                rw (linked_same, e) (omega (arith, fewer, one family_id))
          ]),
    )

Change-IsWellFormed : {s t : SessionStore} → Change s t → IsWellFormed s → IsWellFormed t
Change-IsWellFormed {s = s} {t = t} (Change.kept keeps) h = kept-IsWellFormed s t keeps h
Change-IsWellFormed {s = s} (Change.added {m = m} account_id bundle keeps good fits) h =
    added-IsWellFormed account_id bundle m good fits (kept-IsWellFormed s m keeps h)
Change-IsWellFormed {s = s} (Change.exchanged account_id token_id successor now kin live fits) h =
    exchanged-IsWellFormed account_id token_id successor now s kin live fits h

-- Every store that interleaved requests reach from a well-formed one, such as the empty one, is well
-- formed: tokens name families and families name sessions of their account, no two tokens have one id
-- or one hash, and a family has one token at most that was not exchanged.
pub reach-IsWellFormed : (s t : SessionStore) → IsWellFormed s → Reach s t → IsWellFormed t
reach-IsWellFormed s t h Reach.here = h
reach-IsWellFormed s t h (Reach.next {t = u} run step) =
    Change-IsWellFormed (Step-Change step) (reach-IsWellFormed s u h run)
