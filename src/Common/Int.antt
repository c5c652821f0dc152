-- ===== src/Common/Int.antt =====
-- `int32_t`: the integers that the kernel's functions return and compare.
use Prim.Native.Nat.{ℕ, zero, suc, ◌-◌, ◌^◌, ◌<◌}
use mathlib.Core.Path.{◌≡◌, refl}
use mathlib.Core.Bool.{Bool, true, false}
use native.Mathlib.Omega.{arith}
use light_os_a_linus_like_os.Common.Tests.{ltb, if◌then◌else◌}

-- `negsuc n` is -(n + 1).
pub data ℤ : Type 0 where
  pos : ℕ → ℤ
  negsuc : ℕ → ℤ

-- The error code -1.
abbrev pub failure : ℤ
failure = negsuc 0

abbrev pub is_failure : ℤ → Bool
is_failure (pos n) = false
is_failure (negsuc zero) = true
is_failure (negsuc (suc n)) = false

abbrev pub is_positive : ℤ → Bool
is_positive (pos zero) = false
is_positive (pos (suc n)) = true
is_positive (negsuc n) = false

-- a - b, as an integer.
abbrev pub sub_ℕ : ℕ → ℕ → ℤ
sub_ℕ a b = if ltb a b then negsuc (b - a - 1) else pos (a - b)

abbrev pub u32 : ℕ
u32 = 2 ^ 32

-- The conversions between `uint32_t` and `int32_t`.
abbrev pub to_int32 : ℕ → ℤ
to_int32 n = if ltb n (2 ^ 31) then pos n else negsuc (2 ^ 32 - n - 1)

abbrev pub to_uint32 : ℤ → ℕ
to_uint32 (pos n) = n
to_uint32 (negsuc n) = 2 ^ 32 - suc n

pub to_uint32-to_int32 : (n : ℕ) → n < u32 → to_uint32 (to_int32 n) ≡ n
to_uint32-to_int32 n h = ground arith

pub is_positive-pos : (n : ℕ) → 0 < n → is_positive (pos n) ≡ true
is_positive-pos zero h = elim h [ ]
is_positive-pos (suc n) h = refl

pub to_int32-small : (n : ℕ) → n < 2 ^ 31 → to_int32 n ≡ pos n
to_int32-small n h = ground arith
