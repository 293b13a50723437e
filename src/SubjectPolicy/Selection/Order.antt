-- ===== src/SubjectPolicy/Selection/Order.antt =====
-- The order of elections: by instant, then by id.
use Prim.Native.Char.{code}
use karar_flutter_version.Prelude.{
  ◌<◌, String, ◌≡◌, refl, ◌⊎◌, inl, inr, true, false, Bool-cases, ltb, IsRanking, arith,
}
use karar_flutter_version.SubjectPolicy.Selection.{text_after, shadows}

text_after_irreflexive : (a : String) → text_after a a ≡ false
unfolding text_after
text_after_irreflexive String.[] = refl
text_after_irreflexive (String.◌∷◌ c a) = ground (arith, text_after_irreflexive a)

text_after_forward :
    (a b c : String) → text_after b a ≡ true → text_after c a ≡ false → text_after c b ≡ false
unfolding text_after
text_after_forward a b String.[] h k = refl
text_after_forward a String.[] (String.◌∷◌ z c) h k = ground (arith, h)
text_after_forward String.[] (String.◌∷◌ y b) (String.◌∷◌ z c) h k = ground (arith, k)
text_after_forward (String.◌∷◌ x a) (String.◌∷◌ y b) (String.◌∷◌ z c) h k =
    let ih = text_after_forward a b c in ground (arith, ih, h, k)

text_after_back :
    (a b c : String) → text_after b a ≡ false → text_after c b ≡ false → text_after c a ≡ false
unfolding text_after
text_after_back a b String.[] h k = refl
text_after_back a String.[] (String.◌∷◌ z c) h k = ground (arith, k)
text_after_back String.[] (String.◌∷◌ y b) (String.◌∷◌ z c) h k = ground (arith, h)
text_after_back (String.◌∷◌ x a) (String.◌∷◌ y b) (String.◌∷◌ z c) h k =
    let ih = text_after_back a b c in ground (arith, ih, h, k)

pub shadows-IsRanking : IsRanking shadows
shadows-IsRanking = (
  λ a. ground (arith, text_after_irreflexive a.id),
  λ a b c h k. ground (arith, text_after_forward a.id b.id c.id, h, k),
  λ a b c h k. ground (arith, text_after_back a.id b.id c.id, h, k),
)

-- The first text is the second, or comes before it, by the codes of their characters.
abbrev pub IsUpTo : String → String → Type 0
IsUpTo String.[] b = Unit
IsUpTo (String.◌∷◌ c a) String.[] = ⊥
IsUpTo (String.◌∷◌ c a) (String.◌∷◌ d b) = (code c < code d) ⊎ ((code c ≡ code d) × IsUpTo a b)

pub text_after-IsUpTo : (a b : String) → text_after a b ≡ false → IsUpTo a b
unfolding text_after
text_after-IsUpTo String.[] b h = tt
text_after-IsUpTo (String.◌∷◌ c a) String.[] h = ground (arith, h)
text_after-IsUpTo (String.◌∷◌ c a) (String.◌∷◌ d b) h = elim (Bool-cases (ltb (code c) (code d))) [
  | inl e ↦ inl (ground (arith, e))
  | inr e ↦ inr (ground (arith, e, h), text_after-IsUpTo a b (ground (arith, e, h)))
]
