-- ===== src/Common/Int.antt =====
-- Signed integers, as far as the program computes with them: `negsuc n` is -(n + 1).
use Prim.Native.Nat.{ℕ, ◌-◌, ◌%◌, ◌^◌, ◌<◌}
use mathlib.Core.Path.{◌≡◌}
use mathlib.Core.Bool.{Bool, true, false}
use native.Mathlib.Omega.{arith}
use poor_man_cluster.Common.Tests.{ltb, lt→ltb, if◌then◌else◌}

pub data ℤ : Type 0 where
  pos : ℕ → ℤ
  negsuc : ℕ → ℤ

-- `if n < 0 { n = 0 }`
abbrev pub at_least_zero : ℤ → ℕ
at_least_zero (pos n) = n
at_least_zero (negsuc n) = 0

abbrev pub is_zero : ℤ → Bool
is_zero (pos n) = elim n [ ℕ.zero ↦ true | ℕ.suc k ↦ false ]
is_zero (negsuc n) = false

-- `n <= 0`
abbrev pub is_at_most_zero : ℤ → Bool
is_at_most_zero (pos n) = elim n [ ℕ.zero ↦ true | ℕ.suc k ↦ false ]
is_at_most_zero (negsuc n) = true

-- The `int64` that a sum or product of non-negative numbers wraps to.
unfoldable pub wrap_int64 : ℕ → ℤ
wrap_int64 n = let m = n % 2 ^ 64 in if ltb m (2 ^ 63) then pos m else negsuc (2 ^ 64 - 1 - m)

pub wrap_int64_small : (n : ℕ) → n < 2 ^ 63 → wrap_int64 n ≡ pos n
unfolding wrap_int64
wrap_int64_small n h = let e : n % 2 ^ 64 ≡ n = omega arith in rw e (rw (lt→ltb n (2 ^ 63) h))
