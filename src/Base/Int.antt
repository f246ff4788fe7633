-- ===== src/Base/Int.antt =====
-- Signed integers over the native numbers, and the C conversions between them and the unsigned
-- words of a width.
use iotools.Base.{ℕ, zero, ◌-◌, ◌%◌, ◌^◌, ◌≡◌, Bool, true, false, arith, ltb, ◌==◌, if◌then◌else◌}

-- `negsuc n` is -(n + 1).
pub data ℤ : Type 0 where
  pos : ℕ → ℤ
  negsuc : ℕ → ℤ

-- The test `x < 0`.
abbrev pub is_negative : ℤ → Bool
is_negative (pos n) = false
is_negative (negsuc n) = true

-- -1, the status of a failed call.
abbrev pub minus_one : ℤ
minus_one = negsuc 0

-- The test `x == -1`.
abbrev pub is_minus_one : ℤ → Bool
is_minus_one (negsuc zero) = true
is_minus_one _ = false

-- `(uintW_t)x` at W bits.
abbrev pub to_unsigned : ℕ → ℤ → ℕ
to_unsigned w (pos n) = n % 2 ^ w
to_unsigned w (negsuc n) = 2 ^ w - 1 - n % 2 ^ w

-- `(intW_t)x` of an unsigned word below 2 ^ W.
abbrev pub to_signed : ℕ → ℕ → ℤ
to_signed w n = if ltb n (2 ^ (w - 1)) then pos n else negsuc (2 ^ w - 1 - n)

-- `(int)x`, which gcc defines to wrap around.
abbrev pub to_int : ℤ → ℤ
to_int x = to_signed 32 (to_unsigned 32 x)

-- `(off_t)x` of a 64-bit unsigned word.
abbrev pub to_off : ℕ → ℤ
to_off n = to_signed 64 (n % 2 ^ 64)

-- The truth value of a C comparison.
abbrev pub from_bool : Bool → ℤ
from_bool true = pos 1
from_bool false = pos 0

-- The test `x == y`.
abbrev pub int_eq : ℤ → ℤ → Bool
int_eq (pos m) (pos n) = m == n
int_eq (negsuc m) (negsuc n) = m == n
int_eq _ _ = false

pub int_eq_refl : (x : ℤ) → int_eq x x ≡ true
int_eq_refl (pos n) = ground arith
int_eq_refl (negsuc n) = ground arith
