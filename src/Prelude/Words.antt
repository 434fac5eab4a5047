-- ===== src/Prelude/Words.antt =====
-- Arithmetic of machine words: what saturates, and where.
use Prim.Native.Nat.{ℕ, suc, ◌*◌, ◌/◌, ◌<◌, ◌+◌, ◌%◌, ◌≤◌, min}
use mathlib.Core.Path.{◌≡◌}
use native.Mathlib.Omega.{arith}

abbrev pub u64_max : ℕ
u64_max = 18446744073709551615

-- `u64::saturating_add`.
unfoldable pub saturating_add : ℕ → ℕ → ℕ
saturating_add a b = min (a + b) u64_max

pub saturating_add-eq : (a b : ℕ) → a + b ≤ u64_max → saturating_add a b ≡ a + b
unfolding saturating_add
saturating_add-eq a b h = omega arith

-- The first operand is lost only where the sum leaves the type.
pub le-saturating_add : (a b : ℕ) → a ≤ u64_max → a ≤ saturating_add a b
unfolding saturating_add
le-saturating_add a b h = omega arith

-- The wrapping `u8`, `u16` and `u32`.
abbrev pub u8 : ℕ → ℕ
u8 n = n % 256

abbrev pub u16 : ℕ → ℕ
u16 n = n % 65536

abbrev pub u32 : ℕ → ℕ
u32 n = n % 4294967296

-- Products: what `omega` does not do by itself.
pub mul_mono : (a b k : ℕ) → a ≤ b → a * k ≤ b * k
mul_mono a b k h = grind arith

pub suc-mul_mono : (a b k : ℕ) → a < b → a * k + k ≤ b * k
suc-mul_mono a b k h = omega (arith, mul_mono (suc a) b k h)

abbrev pub u64 : ℕ → ℕ
u64 n = n % 18446744073709551616

-- `usize::saturating_mul`, on 64 bits.
unfoldable pub saturating_mul : ℕ → ℕ → ℕ
saturating_mul a b = min (a * b) u64_max

pub div_mono : (a b k : ℕ) → a ≤ b → a / k ≤ b / k
div_mono a b k h = grind arith
