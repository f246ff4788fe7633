-- ===== src/Libc/Print/Laws.antt =====
-- Printed numbers are never empty, and padding reaches its width.
use native.Mathlib.Nat.{pow-suc}
use iotools.Base.{
  ℕ, zero, suc, ◌+◌, ◌-◌, ◌/◌, ◌%◌, ◌^◌, ◌≤◌, ◌<◌, ◌≡◌, false, [], ◌∷◌, arith, length,
  length-append, length-replicate, replicate,
}
use iotools.Libc.Text.{Text}
use iotools.Libc.Print.{digit_char, digits_onto, hex, hex_padded, zero_pad}

pub length-zero_pad : (width : ℕ) (s : Text) → length s ≤ width → length (zero_pad width s) ≡ width
unfolding zero_pad
length-zero_pad width s h = omega (
  arith,
  length-append (replicate (width - length s) b'0') s,
  length-replicate {A = ℕ} (width - length s) b'0',
)

length-digits_onto :
    (fuel w n : ℕ) (out : Text)
    → n < 16 ^ w
    → length (digits_onto false 16 fuel n out) ≤ w + length out
unfolding digits_onto
length-digits_onto zero w n out h = omega arith
length-digits_onto (suc fuel) zero n out h = let e : n ≡ 0 = omega arith in rw e (omega arith)
length-digits_onto (suc fuel) (suc w) n out h =
    let rest =
      length-digits_onto fuel w (n / 16) (digit_char false (n % 16) ∷ out)
        (omega (arith, pow-suc 16 w)) in
    ground arith

length-hex : (w n : ℕ) → 1 ≤ w → n < 16 ^ w → length (hex n) ≤ w
unfolding hex
length-hex w n one h = let long = length-digits_onto n w n [] h in ground arith

-- A number below 16 ^ width takes up its field exactly.
pub length-hex_padded :
    (width n : ℕ) → 1 ≤ width → n < 16 ^ width → length (hex_padded width n) ≡ width
length-hex_padded width n one h =
    unfold hex_padded in length-zero_pad width (hex n) (length-hex width n one h)
