-- ===== src/Capability/Resolution/Bind.antt =====
-- The early returns of `resolveCapabilityGates`: a chain of gates passes when each gate passes.
use karar_flutter_version.Prelude.{◌≡◌, refl, ◌⊎◌, inl, inr, ◌↔◌, arith}
use karar_flutter_version.Capability.DenialReason.{DenialReason}
use karar_flutter_version.Capability.Resolution.{Verdict, pass, deny, GateName, ◌>>=◌, ◌>>◌}

module _ {A B : Type 0} where
  -- The four gates of the ceiling.
  abbrev chain : Verdict (Unit {0}) → Verdict (Unit {0}) → Verdict A → Verdict B → Verdict (A × B)
  chain d e j v = do d; e; a ← j; b ← v; pass (a, b)

  pub chain-eq-pass :
      (d e : Verdict (Unit {0})) (j : Verdict A) (v : Verdict B) (a : A) (b : B)
      → (chain d e j v ≡ pass (a, b))
        ↔ ((d ≡ pass tt) × (e ≡ pass tt) × (j ≡ pass a) × (v ≡ pass b))
  chain-eq-pass (pass _) (pass _) (pass x) (pass y) a b = ground arith
  chain-eq-pass (pass _) (pass _) (pass x) (deny g r) a b = ground arith
  chain-eq-pass (pass _) (pass _) (deny g r) v a b = ground arith
  chain-eq-pass (pass _) (deny g r) j v a b = ground arith
  chain-eq-pass (deny g r) e j v a b = ground arith

  pub >>=-eq-pass :
      (m : Verdict A) (f : A → Verdict B) (b : B)
      → (m >>= f) ≡ pass b
      → (a : A) × (m ≡ pass a) × (f a ≡ pass b)
  >>=-eq-pass (pass a) f b h = (a, refl, h)
  >>=-eq-pass (deny gate reason) f b h = ground arith

  pub >>=-eq-deny :
      (m : Verdict A) (f : A → Verdict B) (g : GateName) (r : DenialReason)
      → (m >>= f) ≡ deny g r
      → (m ≡ deny g r) ⊎ ((a : A) × (m ≡ pass a) × (f a ≡ deny g r))
  >>=-eq-deny (pass a) f g r h = inr (a, refl, h)
  >>=-eq-deny (deny gate reason) f g r h = inl (ground arith)

  pub chain-eq-deny :
      (d e : Verdict (Unit {0})) (j : Verdict A) (v : Verdict B) (g : GateName) (r : DenialReason)
      → chain d e j v ≡ deny g r
      → (d ≡ deny g r) ⊎ (e ≡ deny g r) ⊎ (j ≡ deny g r) ⊎ (v ≡ deny g r)
  chain-eq-deny (pass _) (pass _) (pass x) (pass y) g r h = ground arith
  chain-eq-deny (pass _) (pass _) (pass x) (deny _ _) g r h = inr (inr (inr (ground arith)))
  chain-eq-deny (pass _) (pass _) (deny _ _) v g r h = inr (inr (inl (ground arith)))
  chain-eq-deny (pass _) (deny _ _) j v g r h = inr (inl (ground arith))
  chain-eq-deny (deny _ _) e j v g r h = inl (ground arith)
