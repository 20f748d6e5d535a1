-- ===== src/Base/Words.antt =====
-- `unsigned long` and `int` as numbers, with the wrap-around of C written out.
use Prim.Native.Nat.{ℕ, ◌+◌, ◌-◌, ◌*◌, ◌%◌, ◌^◌, ◌≤◌, ◌<◌}
use mathlib.Core.Path.{◌≡◌}
use native.Mathlib.Omega.{arith}

-- `unsigned long` has 64 bits on the platforms that the build names.
abbrev pub IsWord : ℕ → Type 0
IsWord n = n < 2 ^ 64

abbrev pub add64 : ℕ → ℕ → ℕ
add64 a b = (a + b) % 2 ^ 64

abbrev pub sub64 : ℕ → ℕ → ℕ
sub64 a b = (a + 2 ^ 64 - b) % 2 ^ 64

abbrev pub mul64 : ℕ → ℕ → ℕ
mul64 a b = a * b % 2 ^ 64

-- An `int` that only counts up and down, as its bit pattern.
abbrev pub add32 : ℕ → ℕ → ℕ
add32 a b = (a + b) % 2 ^ 32

abbrev pub sub32 : ℕ → ℕ → ℕ
sub32 a b = (a + 2 ^ 32 - b) % 2 ^ 32

pub sub64-eq-sub : (a b : ℕ) → IsWord a → b ≤ a → sub64 a b ≡ a - b
sub64-eq-sub a b h l = omega arith

pub add64-eq-add : (a b : ℕ) → IsWord (a + b) → add64 a b ≡ a + b
add64-eq-add a b h = omega arith
