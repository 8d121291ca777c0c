-- ===== src/Prelude/Words.antt =====
-- `unsigned int` arithmetic: numbers below 2 ^ 32, sums and differences wrap.
use Prim.Native.Nat.{ℕ, ◌+◌, ◌-◌, ◌%◌, ◌^◌, ◌≤◌, ◌<◌}
use mathlib.Core.Path.{◌≡◌}
use native.Mathlib.Nat.{mod-eq_of_lt}
use native.Mathlib.Omega.{arith}

abbrev pub u32_mod : ℕ
u32_mod = 2 ^ 32

unfoldable pub add32 : ℕ → ℕ → ℕ
add32 a b = (a + b) % u32_mod

-- `-` stops at 0, so the modulus is added first.
unfoldable pub sub32 : ℕ → ℕ → ℕ
sub32 a b = (a + u32_mod - b) % u32_mod

pub add32-eq : (a b : ℕ) → a + b < u32_mod → add32 a b ≡ a + b
unfolding add32
add32-eq a b h = omega arith

pub sub32-eq : (a b : ℕ) → b ≤ a → a < u32_mod → sub32 a b ≡ a - b
unfolding sub32
sub32-eq a b h k = omega arith

pub mod_below : {a m : ℕ} → a < m → a % m ≡ a
mod_below h = mod-eq_of_lt h

pub mod_full : {a m : ℕ} → a ≡ m → a % m ≡ 0
mod_full h = grind arith
