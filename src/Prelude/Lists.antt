-- ===== src/Prelude/Lists.antt =====
-- JavaScript's array methods over `List`: `filter`, `find`, `some` (here `any`), `every` (here `all`)
-- and `length`, with predicates into `Bool`, and what holds of a list's entries.
use Prim.Native.Nat.{ℕ, suc, ◌+◌, ◌≤◌}
use mathlib.Core.Path.{◌≡◌, refl, sym, ap, subst}
use mathlib.Core.Logic.{◌⊎◌, inl, inr, ◌↔◌}
use mathlib.Core.Bool.{Bool, true, false, ◌&&◌, ◌||◌}
use mathlib.Core.List.{List, [], ◌∷◌, ◌++◌}
use mathlib.Core.Option.{Option, none, some}
use native.Mathlib.Omega.{arith}
use karar_flutter_version.Prelude.Tests.{if◌then◌else◌, Bool-cases}

module _ {ℓ} {A : Type ℓ} where
  abbrev pub length : List A → ℕ
  length [] = 0
  length (x ∷ xs) = suc (length xs)

  pub length-append : (xs ys : List A) → length (xs ++ ys) ≡ length xs + length ys
  length-append [] ys = omega arith
  length-append (x ∷ xs) ys = omega (arith, length-append xs ys)

  abbrev pub any : (A → Bool) → List A → Bool
  any p [] = false
  any p (x ∷ xs) = p x || any p xs

  abbrev pub all : (A → Bool) → List A → Bool
  all p [] = true
  all p (x ∷ xs) = p x && all p xs

  abbrev pub find : (A → Bool) → List A → Option A
  find p [] = none
  find p (x ∷ xs) = if p x then some x else find p xs

  abbrev pub filter : (A → Bool) → List A → List A
  filter p [] = []
  filter p (x ∷ xs) = let rest = filter p xs in if p x then x ∷ rest else rest

  -- `===` on a type with decidable equality, and `Array.prototype.includes` by it.
  abbrev pub same : Discrete A → A → A → Bool
  same d a b = elim (d a b) [ yes e ↦ true | no e ↦ false ]

  abbrev pub includes : Discrete A → List A → A → Bool
  includes d xs a = any (λ x. same d x a) xs

  -- The statement that some entry, or every entry, has a property.
  abbrev pub Any : (A → Type 0) → List A → Type 0
  Any P [] = ⊥
  Any P (x ∷ xs) = P x ⊎ Any P xs

  abbrev pub All : (A → Type 0) → List A → Type 0
  All P [] = Unit
  All P (x ∷ xs) = P x × All P xs

  pub All-mono : (P Q : A → Type 0) → ((a : A) → P a → Q a) → (xs : List A) → All P xs → All Q xs
  All-mono P Q f [] h = tt
  All-mono P Q f (x ∷ xs) h = (f x h.0, All-mono P Q f xs h.1)

  pub All-both :
      (P Q R : A → Type 0)
      → ((a : A) → P a → Q a → R a)
      → (xs : List A) → All P xs
      → All Q xs
      → All R xs
  All-both P Q R f [] h k = tt
  All-both P Q R f (x ∷ xs) h k = (f x h.0 k.0, All-both P Q R f xs h.1 k.1)

  pub Any-mono : (P Q : A → Type 0) → ((a : A) → P a → Q a) → (xs : List A) → Any P xs → Any Q xs
  Any-mono P Q f [] m = m
  Any-mono P Q f (x ∷ xs) m = elim m [
    | inl now ↦ inl (f x now)
    | inr later ↦ inr (Any-mono P Q f xs later)
  ]

  pub Any-in :
      (P Q : A → Type 0) {R : Type 0}
      → ((a : A) → P a → Q a → R)
      → (xs : List A) → Any P xs
      → All Q xs
      → R
  Any-in P Q f [] m k = elim m [ ]
  Any-in P Q f (x ∷ xs) m k = elim m [
    | inl now ↦ f x now k.0
    | inr later ↦ Any-in P Q f xs later k.1
  ]

  pub Any-with :
      (P Q R : A → Type 0)
      → ((a : A) → P a → Q a → R a)
      → (xs : List A) → Any P xs
      → All Q xs
      → Any R xs
  Any-with P Q R f [] m k = m
  Any-with P Q R f (x ∷ xs) m k = elim m [
    | inl now ↦ inl (f x now k.0)
    | inr later ↦ inr (Any-with P Q R f xs later k.1)
  ]

  pub Any-All :
      (P Q : A → Type 0) → ((a : A) → P a → Q a → ⊥) → (xs : List A) → Any P xs → All Q xs → ⊥
  Any-All P Q f [] m k = m
  Any-All P Q f (x ∷ xs) m k = elim m [
    | inl now ↦ f x now k.0
    | inr later ↦ Any-All P Q f xs later k.1
  ]

  pub All-append : (P : A → Type 0) (xs ys : List A) → All P xs → All P ys → All P (xs ++ ys)
  All-append P [] ys h k = k
  All-append P (x ∷ xs) ys h k = (h.0, All-append P xs ys h.1 k)

  pub filter-All : (P : A → Type 0) (p : A → Bool) (xs : List A) → All P xs → All P (filter p xs)
  filter-All P p [] h = tt
  filter-All P p (x ∷ xs) h = elim (Bool-cases (p x)) [
    | inl e ↦ rw e (h.0, filter-All P p xs h.1)
    | inr e ↦ rw e (filter-All P p xs h.1)
  ]

  pub any_iff : (p : A → Bool) (xs : List A) → (any p xs ≡ true) ↔ Any (λ a. p a ≡ true) xs
  any_iff p [] = (λ h. cc, λ h. elim h [ ])
  any_iff p (x ∷ xs) = let ih = any_iff p xs in ground (arith, ih)

  pub all_iff : (p : A → Bool) (xs : List A) → (all p xs ≡ true) ↔ All (λ a. p a ≡ true) xs
  all_iff p [] = (λ h. tt, λ h. refl)
  all_iff p (x ∷ xs) = let ih = all_iff p xs in ground (arith, ih)

  pub any_mono :
      (p q : A → Bool)
      → ((a : A) → p a ≡ true → q a ≡ true)
      → (xs : List A) → any p xs ≡ true
      → any q xs ≡ true
  any_mono p q f [] h = h
  any_mono p q f (x ∷ xs) h = ground (arith, f x, any_mono p q f xs, h)

  pub find-some : (p : A → Bool) (xs : List A) → any p xs ≡ true → (a : A) × (find p xs ≡ some a)
  find-some p [] h = cc
  find-some p (x ∷ xs) h = elim (Bool-cases (p x)) [
    | inl e ↦ (x, rw e refl)
    | inr e ↦ let (a, k) = find-some p xs (ground (arith, e, h)) in (a, rw e k)
  ]

  -- What `find` returns passes the test.
  pub find-holds : (p : A → Bool) (xs : List A) (a : A) → find p xs ≡ some a → p a ≡ true
  find-holds p [] a h = cc
  find-holds p (x ∷ xs) a h = ground (arith, find-holds p xs a)

-- What `filter` and `find` return, told by membership.
module _ {A : Type 0} where
  -- What every entry has, an entry of the list has.
  pub All-Any : (P : A → Type 0) (a : A) (xs : List A) → All P xs → Any (λ x. x ≡ a) xs → P a
  All-Any P a [] h m = elim m [ ]
  All-Any P a (x ∷ xs) h m = elim m [ inl e ↦ subst P e h.0 | inr later ↦ All-Any P a xs h.1 later ]

  pub All-self : (xs : List A) → All (λ a. Any (λ x. x ≡ a) xs) xs
  All-self [] = tt
  All-self (x ∷ xs) = (inl refl, All-mono _ _ (λ a m. inr m) xs (All-self xs))

  pub All-filter :
      (p : A → Bool) (xs : List A) → All (λ a. (p a ≡ true) × Any (λ x. x ≡ a) xs) (filter p xs)
  All-filter p [] = tt
  All-filter p (x ∷ xs) =
      by_test (p x) refl (All-mono _ _ (λ a m. (m.0, inr m.1)) (filter p xs) (All-filter p xs))
    where
      by_test :
          (b : Bool)
          → p x ≡ b
          → All (λ a. (p a ≡ true) × Any (λ y. y ≡ a) (x ∷ xs)) (filter p xs)
          → All
              (λ a. (p a ≡ true) × Any (λ y. y ≡ a) (x ∷ xs))
              (if b then x ∷ filter p xs else filter p xs)
      by_test true e ih = ((e, inl refl), ih)
      by_test false e ih = ih

  pub filter-Any :
      (p : A → Bool) (xs : List A) (a : A)
      → Any (λ x. x ≡ a) (filter p xs) ↔ (Any (λ x. x ≡ a) xs × (p a ≡ true))
  filter-Any p [] a = ((λ h. elim h [ ]), (λ h. elim h.0 [ ]))
  filter-Any p (x ∷ xs) a =
      let ih = filter-Any p xs a in
      elim (Bool-cases (p x)) [
        | inl yes_x ↦ rw yes_x (
          (λ h. elim h [
            | inl e ↦ (inl e, rw (sym e) yes_x)
            | inr later ↦ let (m, k) = ih.0 later in (inr m, k)
          ]),
          (λ (m, k). elim m [ inl e ↦ inl e | inr later ↦ inr (ih.1 (later, k)) ]),
        )
        | inr no_x ↦ rw no_x (
          (λ h. let (m, k) = ih.0 h in (inr m, k)),
          (λ (m, k). elim m [
            | inl e ↦ ground (arith, no_x, ap p e, k)
            | inr later ↦ ih.1 (later, k)
          ]),
        )
      ]

  pub find-Any : (p : A → Bool) (xs : List A) (a : A) → find p xs ≡ some a → Any (λ x. x ≡ a) xs
  find-Any p [] a h = ground (arith, h)
  find-Any p (x ∷ xs) a h = ground (arith, find-Any p xs a)

  pub filter-length : (p : A → Bool) (xs : List A) → length (filter p xs) ≤ length xs
  filter-length p [] = omega arith
  filter-length p (x ∷ xs) = ground (arith, filter-length p xs)

  pub filter-filter :
      (p q : A → Bool) (xs : List A) → filter q (filter p xs) ≡ filter (λ x. p x && q x) xs
  filter-filter p q [] = refl
  filter-filter p q (x ∷ xs) = ground (arith, filter-filter p q xs)

  pub filter-append :
      (p : A → Bool) (xs ys : List A) → filter p (xs ++ ys) ≡ filter p xs ++ filter p ys
  filter-append p [] ys = refl
  filter-append p (x ∷ xs) ys = ground (arith, filter-append p xs ys)

  pub find-append :
      (p : A → Bool) (xs ys : List A) (a : A) → find p xs ≡ some a → find p (xs ++ ys) ≡ some a
  find-append p [] ys a h = ground (arith, h)
  find-append p (x ∷ xs) ys a h = ground (arith, find-append p xs ys a)

module _ {ℓ} {A : Type ℓ} where
  -- Nothing is joined to nothing.
  pub append-eq-nil : (xs ys : List A) → (xs ++ ys ≡ []) ↔ ((xs ≡ []) × (ys ≡ []))
  append-eq-nil [] ys = ground arith
  append-eq-nil (x ∷ xs) ys = ground arith
