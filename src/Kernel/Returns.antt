-- ===== src/Kernel/Returns.antt =====
-- Total correctness of a call over a state: it returns, with a postcondition on result and state.
use pcm3060_kernelmodule.Prelude.{◌≡◌, refl, subst}
use pcm3060_kernelmodule.Kernel.Run.{Run, ok}
use pcm3060_kernelmodule.Kernel.Alloc.{and_then}

pub data Returns {H A : Type 0} (P : A → H → Type 0) : Run (A × H) → Type 0 where
  returns : {a : A} {h : H} → P a h → Returns P (ok (a, h))

module _ {H A : Type 0} {P : A → H → Type 0} where
  pub bind :
      {B : Type 0} {Q : B → H → Type 0} {r : Run (A × H)} {k : A → H → Run (B × H)}
      → Returns P r
      → ((a : A) (h : H) → P a h → Returns Q (k a h))
      → Returns Q (and_then r k)
  bind (returns p) next = next _ _ p

  -- What it says, in equations.
  pub outcome : {r : Run (A × H)} → Returns P r → (a : A) × (h : H) × (r ≡ ok (a, h)) × P a h
  outcome (returns {a} {h} p) = (a, h, refl, p)

  returned : {a : A} {h : H} → Returns P (ok (a, h)) → P a h
  returned (returns p) = p

  -- The postcondition of a result that is known.
  pub at_result : {r : Run (A × H)} {a : A} {h : H} → Returns P r → r ≡ ok (a, h) → P a h
  at_result x e = returned (subst (Returns P) e x)
