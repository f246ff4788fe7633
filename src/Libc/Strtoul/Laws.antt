-- ===== src/Libc/Strtoul/Laws.antt =====
-- Reading back what printf wrote.
mod Scan
pub mod Line
use Scan.{starts_digit, scan_digits-hex_padded, starts_digit-hex_padded}
use native.Mathlib.Nat.{div-add-mod', div-lt_self, mod-lt}
use iotools.Base.{
  ℕ, zero, suc, ◌+◌, ◌-◌, ◌*◌, ◌/◌, ◌%◌, ◌^◌, ◌≤◌, ◌<◌, ◌≡◌, refl, ◌∙◌, ◌≢◌, Bool, true, false,
  List, [], ◌∷◌, ◌++◌, Option, none, some, arith, ltb, leb, ◌==◌, if◌then◌else◌, Bool-cases,
  replicate, length,
}
use iotools.Base.Int.{ℤ, pos, negsuc}
use iotools.Libc.Text.{Text, text}
use iotools.Libc.Print.{digit_char, digits_onto, digits, hex, zero_pad, hex_padded, dec}
use iotools.Libc.Strtoul.{
  digit_value, scan_digits, scan_number, strtoul, ulong_max, ulong_of, is_digit, resolve_base,
}

-- A result of strtoul fits 64 bits.
pub strtoul-lt : (base : ℕ) (s : Text) → (strtoul base s).0 < 2 ^ 64
strtoul-lt base s = unfold strtoul in go (scan_number base s)
  where
    ulong_of-lt : (negative : Bool) (v : ℕ) → ulong_of negative v < 2 ^ 64
    ulong_of-lt negative v = unfold ulong_of in ground arith

    go :
        (m : Option (Bool × ℕ × Text))
        → (let r : ℕ × Text = elim m [
          | none ↦ (0, s)
          | some (negative, v, rest) ↦ (ulong_of negative v, rest)
        ] in
            r.0)
          < 2 ^ 64
    go none = omega arith
    go (some (negative, v, rest)) = ulong_of-lt negative v

strtoul-hex_text :
    (s : Text)
    → starts_digit 16 s ≡ true
    → strtoul 0 (b'0' ∷ b'x' ∷ s) ≡ (ulong_of false (scan_digits 16 0 s).0, (scan_digits 16 0 s).1)
unfolding strtoul
strtoul-hex_text [] h = cc
strtoul-hex_text (c ∷ s) h = ground arith

-- What "0x%x" prints, padded with zeros or not, strtoull reads back whole in base 0.
pub strtoul-hex_padded :
    (width n : ℕ) → n < 2 ^ 64 → strtoul 0 (b'0' ∷ b'x' ∷ hex_padded width n) ≡ (n, [])
strtoul-hex_padded width n h =
    strtoul-hex_text (hex_padded width n) (starts_digit-hex_padded width n)
    ∙ rw scan_digits-hex_padded (unfold ulong_of in ground arith)

-- What "0x%x" prints, strtoull reads back whole in base 0.
pub strtoul-hex : (n : ℕ) → n < 2 ^ 64 → strtoul 0 (b'0' ∷ b'x' ∷ hex n) ≡ (n, [])
strtoul-hex n h = rw (← hex_padded-zero n) (strtoul-hex_padded 0 n h)
  where
    hex_padded-zero : (n : ℕ) → hex_padded 0 n ≡ hex n
    hex_padded-zero n = unfold hex_padded in let e : 0 - length (hex n) ≡ 0 = omega arith in rw e
