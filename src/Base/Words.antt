-- ===== src/Base/Words.antt =====
-- Machine integers: their bounds, and Rust's saturating and wrapping sums.
use Prim.Native.Nat.{ℕ, ◌+◌, ◌<◌, min}
use mathlib.Core.Path.{◌≡◌}
use native.Mathlib.Omega.{arith}

abbrev pub u8_max : ℕ
u8_max = 255

abbrev pub u32_max : ℕ
u32_max = 4294967295

abbrev pub u32_mod : ℕ
u32_mod = 4294967296

abbrev pub u64_max : ℕ
u64_max = 18446744073709551615

-- `a.saturating_add(b)` of a type whose greatest value is `bound`
abbrev pub saturating_add : ℕ → ℕ → ℕ → ℕ
saturating_add bound a b = min (a + b) bound

-- A saturated sum that stays below the bound has lost nothing.
pub saturating_add_exact :
    (bound a b : ℕ) → saturating_add bound a b < bound → saturating_add bound a b ≡ a + b
saturating_add_exact bound a b h = omega arith
