-- ===== src/Libc/Strtoul.antt =====
-- <stdlib.h>: strtoul, strtoull, strtol and atoi.
pub mod Laws
use iotools.Base.{
  ℕ, zero, suc, ◌+◌, ◌-◌, ◌*◌, ◌%◌, ◌^◌, Bool, true, false, ◌&&◌, ◌||◌, List, [], ◌∷◌, Option, none,
  some, ltb, leb, ◌==◌, if◌then◌else◌, drop,
}
use iotools.Base.Int.{ℤ, pos, negsuc, to_int}
use iotools.Libc.Text.{Text}

unfoldable pub is_space : ℕ → Bool
is_space c = c == 32 || (leb 9 c && leb c 13)

unfoldable pub skip_space : Text → Text
unfolding is_space
skip_space [] = []
skip_space (c ∷ s) = let rest = skip_space s in if is_space c then rest else c ∷ s

-- The value of a digit or a letter in a base.
unfoldable pub digit_value : ℕ → ℕ → Option ℕ
digit_value base c =
    let below = λ (d : ℕ). if ltb d base then some d else none in
    if leb b'0' c && leb c b'9'
    then below (c - b'0')
    else if leb b'a' c && leb c b'z'
    then below (c - b'a' + 10)
    else if leb b'A' c && leb c b'Z'
    then below (c - b'A' + 10)
    else none

abbrev pub is_digit : ℕ → ℕ → Bool
is_digit base c = elim (digit_value base c) [ some d ↦ true | none ↦ false ]

-- The longest run of digits: the number that it spells behind `acc`, and the rest of the text.
unfoldable pub scan_digits : ℕ → ℕ → Text → ℕ × Text
scan_digits base acc [] = (acc, [])
scan_digits base acc (c ∷ s) = elim (digit_value base c) [
  | some d ↦ scan_digits base (acc * base + d) s
  | none ↦ (acc, c ∷ s)
]

-- "0x" counts as a prefix only before a hexadecimal digit.
unfoldable pub has_hex_prefix : Text → Bool
unfolding digit_value
has_hex_prefix (z ∷ x ∷ h ∷ s) = z == b'0' && ((x == b'x' || x == b'X') && is_digit 16 h)
has_hex_prefix _ = false

abbrev starts_with_zero : Text → Bool
starts_with_zero [] = false
starts_with_zero (c ∷ s) = c == b'0'

-- The base that is meant and the text of the digits, for the bases 0, 10 and 16.
unfoldable pub resolve_base : ℕ → Text → ℕ × Text
unfolding has_hex_prefix
resolve_base base s =
    if (base == 0 || base == 16) && has_hex_prefix s
    then (16, drop 2 s)
    else if base == 0
    then (if starts_with_zero s then (8, s) else (10, s))
    else (base, s)

unfoldable pub scan_unsigned : Bool → ℕ → Text → Option (Bool × ℕ × Text)
unfolding scan_digits
scan_unsigned negative base [] = none
scan_unsigned negative base (c ∷ s) =
    if is_digit base c
    then (let (v, rest) = scan_digits base 0 (c ∷ s) in some (negative, v, rest))
    else none

abbrev scan_from : Bool → ℕ × Text → Option (Bool × ℕ × Text)
scan_from negative (base, s) = scan_unsigned negative base s

abbrev scan_signed : ℕ → Text → Option (Bool × ℕ × Text)
scan_signed base [] = none
scan_signed base (c ∷ s) =
    if c == b'-'
    then scan_from true (resolve_base base s)
    else if c == b'+'
    then scan_from false (resolve_base base s)
    else scan_from false (resolve_base base (c ∷ s))

-- The sign, the magnitude and the text behind the number, if there is one.
unfoldable pub scan_number : ℕ → Text → Option (Bool × ℕ × Text)
unfolding skip_space resolve_base scan_unsigned
scan_number base s = scan_signed base (skip_space s)

abbrev pub ulong_max : ℕ
ulong_max = 2 ^ 64 - 1

abbrev pub long_max : ℕ
long_max = 2 ^ 63 - 1

unfoldable pub ulong_of : Bool → ℕ → ℕ
ulong_of negative v =
    if ltb ulong_max v then ulong_max else if negative then (2 ^ 64 - v) % 2 ^ 64 else v

unfoldable pub long_of : Bool → ℕ → ℤ
long_of true zero = pos 0
long_of true (suc v) = if ltb long_max v then negsuc long_max else negsuc v
long_of false v = if ltb long_max v then pos long_max else pos v

-- strtoul(s, &end, base), the result and the text at `end`. strtoull is the same function.
unfoldable pub strtoul : ℕ → Text → ℕ × Text
unfolding scan_number ulong_of
strtoul base s = elim (scan_number base s) [
  | none ↦ (0, s)
  | some (negative, v, rest) ↦ (ulong_of negative v, rest)
]

-- strtol(s, NULL, base)
unfoldable pub strtol : ℕ → Text → ℤ
unfolding scan_number long_of
strtol base s = elim (scan_number base s) [
  | none ↦ pos 0
  | some (negative, v, rest) ↦ long_of negative v
]

unfoldable pub atoi : Text → ℤ
unfolding strtol
atoi s = to_int (strtol 10 s)
