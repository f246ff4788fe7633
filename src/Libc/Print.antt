-- ===== src/Libc/Print.antt =====
-- The conversions of printf: %x, %X and %d, with zero padding.
pub mod Laws
use iotools.Base.{
  ℕ, zero, suc, ◌+◌, ◌-◌, ◌/◌, ◌%◌, Bool, true, false, [], ◌∷◌, ◌++◌, ltb, ◌==◌, if◌then◌else◌,
  length, replicate,
}
use iotools.Base.Int.{ℤ, pos, negsuc}
use iotools.Libc.Text.{Text}

-- The character of a digit below 16.
unfoldable pub digit_char : Bool → ℕ → ℕ
digit_char upper d = if ltb d 10 then b'0' + d else (if upper then b'A' else b'a') + (d - 10)

-- The digits of `n` before `out`; the fuel `n` is enough, since a round divides by the base.
unfoldable pub digits_onto : Bool → ℕ → ℕ → ℕ → Text → Text
digits_onto upper base zero n out = out
digits_onto upper base (suc fuel) n out =
    let rest = digits_onto upper base fuel (n / base) (digit_char upper (n % base) ∷ out) in
    if n == 0 then out else rest

unfoldable pub digits : Bool → ℕ → ℕ → Text
unfolding digits_onto digit_char
digits upper base n = if n == 0 then b'0' ∷ [] else digits_onto upper base n n []

-- A field of the given width, filled up with zeros on the left.
unfoldable pub zero_pad : ℕ → Text → Text
zero_pad width s = replicate (width - length s) b'0' ++ s

-- %x
unfoldable pub hex : ℕ → Text
unfolding digits
hex n = digits false 16 n

-- %0WIDTHx
unfoldable pub hex_padded : ℕ → ℕ → Text
unfolding hex zero_pad
hex_padded width n = zero_pad width (hex n)

-- %0WIDTHX
unfoldable pub upper_hex_padded : ℕ → ℕ → Text
unfolding digits zero_pad
upper_hex_padded width n = zero_pad width (digits true 16 n)

-- %u, %lu and %llu
unfoldable pub dec : ℕ → Text
unfolding digits
dec n = digits false 10 n

-- %d
unfoldable pub dec_int : ℤ → Text
unfolding dec
dec_int (pos n) = dec n
dec_int (negsuc n) = b'-' ∷ dec (suc n)
