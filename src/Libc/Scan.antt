-- ===== src/Libc/Scan.antt =====
-- The conversions of sscanf: %x with a width, and an ordinary character.
use iotools.Base.{
  ℕ, ◌%◌, ◌^◌, Bool, false, not, ◌&&◌, ◌||◌, [], ◌∷◌, ◌++◌, Option, none, some, ◌==◌, if◌then◌else◌,
  drop, take,
}
use iotools.Libc.Text.{Text}
use iotools.Libc.Strtoul.{skip_space, has_hex_prefix, scan_number, ulong_of}

-- "0x" that no hexadecimal digit follows is no number, and is not read as the number 0.
unfoldable pub is_bare_prefix : Text → Bool
unfolding has_hex_prefix
is_bare_prefix (z ∷ x ∷ s) =
    z == b'0' && ((x == b'x' || x == b'X') && not (has_hex_prefix (z ∷ x ∷ s)))
is_bare_prefix _ = false

abbrev pub skip_sign : Text → Text
skip_sign [] = []
skip_sign (c ∷ s) = if c == b'-' || c == b'+' then s else c ∷ s

-- The word that %x stores from the characters of its field, and those that it leaves.
unfoldable pub scan_field : Text → Option (ℕ × Text)
unfolding is_bare_prefix scan_number ulong_of
scan_field field = if is_bare_prefix (skip_sign field) then none else elim (scan_number 16 field) [
  | none ↦ none
  | some (negative, v, end) ↦ some (ulong_of negative v % 2 ^ 32, end)
]

abbrev pub then_behind : Text → Option (ℕ × Text) → Option (ℕ × Text)
then_behind behind none = none
then_behind behind (some (v, end)) = some (v, end ++ behind)

-- %WIDTHx: the word that is stored, and the text behind it; none if nothing fits.
unfoldable pub scan_hex : ℕ → Text → Option (ℕ × Text)
unfolding skip_space scan_field
scan_hex width s =
    let text = skip_space s in then_behind (drop width text) (scan_field (take width text))

-- An ordinary character of a format.
unfoldable pub scan_char : ℕ → Text → Option Text
scan_char c [] = none
scan_char c (c' ∷ s) = if c == c' then some s else none
