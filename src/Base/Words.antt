-- ===== src/Base/Words.antt =====
-- `uint64_t` and `size_t` (64 bits): a value is a native number, and each operation wraps.
use Prim.Native.Nat.{ℕ, ◌+◌, ◌-◌, ◌*◌, ◌%◌, ◌^◌, ◌≤◌, ◌<◌}
use mathlib.Core.Path.{◌≡◌}
use native.Mathlib.Omega.{arith}
use native.Mathlib.Nat.{mod-eq_of_lt}

-- UINT64_MAX
abbrev pub uint64_max : ℕ
uint64_max = 2 ^ 64 - 1

abbrev pub add64 : ℕ → ℕ → ℕ
add64 a b = (a + b) % 2 ^ 64

abbrev pub sub64 : ℕ → ℕ → ℕ
sub64 a b = (a + 2 ^ 64 - b) % 2 ^ 64

abbrev pub mul64 : ℕ → ℕ → ℕ
mul64 a b = a * b % 2 ^ 64

pub add64_exact : (a b : ℕ) → a + b < 2 ^ 64 → add64 a b ≡ a + b
add64_exact a b h = omega arith

pub sub64_exact : (a b : ℕ) → b ≤ a → a < 2 ^ 64 → sub64 a b ≡ a - b
sub64_exact a b h k = omega arith

pub mul64_exact : (a b : ℕ) → a * b < 2 ^ 64 → mul64 a b ≡ a * b
mul64_exact a b h = mod-eq_of_lt h

pub add_sub_one64 : (a b : ℕ) → 0 < b → a + b ≤ 2 ^ 64 → sub64 (add64 a b) 1 ≡ a + b - 1
add_sub_one64 a b pos h = omega arith
