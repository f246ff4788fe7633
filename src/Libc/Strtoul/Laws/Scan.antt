-- ===== src/Libc/Strtoul/Laws/Scan.antt =====
-- The digits that printf writes, scanned again.
use native.Mathlib.Nat.{div-add-mod', div-lt_self, mod-lt}
use iotools.Base.{
  ℕ, zero, suc, ◌+◌, ◌-◌, ◌*◌, ◌/◌, ◌%◌, ◌≤◌, ◌<◌, ◌≡◌, refl, ◌∙◌, Bool, true, false, [], ◌∷◌, ◌++◌,
  some, arith, ◌==◌, Bool-cases, inl, inr, replicate, length,
}
use iotools.Libc.Text.{Text}
use iotools.Libc.Print.{digit_char, digits_onto, digits, hex, hex_padded}
use iotools.Libc.Strtoul.{digit_value, is_digit, scan_digits}

abbrev pub starts_digit : ℕ → Text → Bool
starts_digit base [] = false
starts_digit base (c ∷ s) = is_digit base c

module _ (upper : Bool) (base : ℕ) (two : 2 ≤ base) (sixteen : base ≤ 16) where
  pub digit_value-digit_char : (d : ℕ) → d < base → digit_value base (digit_char upper d) ≡ some d
  unfolding digit_value digit_char
  digit_value-digit_char d h = ground arith

  is_digit-digit_char : (d : ℕ) → d < base → is_digit base (digit_char upper d) ≡ true
  is_digit-digit_char d h = ground (arith, digit_value-digit_char d h)

  digit_round :
      (n : ℕ) (out : Text)
      → scan_digits base (n / base) (digit_char upper (n % base) ∷ out) ≡ scan_digits base n out
  unfolding scan_digits
  digit_round n out =
      rw (digit_value-digit_char (n % base) (mod-lt n (omega arith)), scan_digits)
        (rw (div-add-mod' n base))

  pub scan_digits-digits_onto :
      (fuel n : ℕ) (out : Text)
      → n ≤ fuel
      → scan_digits base 0 (digits_onto upper base fuel n out) ≡ scan_digits base n out
  unfolding digits_onto
  scan_digits-digits_onto zero n out h = let e : n ≡ 0 = omega arith in rw e
  scan_digits-digits_onto (suc fuel) n out h = elim (Bool-cases (n == 0)) [
    | inl e ↦ let e' : n ≡ 0 = ground arith in rw e'
    | inr e ↦ rw e (
        scan_digits-digits_onto fuel (n / base) _
          (let p : n / base < n = div-lt_self (ground arith) (omega arith) in omega arith)
        ∙ digit_round n out)
  ]

  head_of_last :
      (fuel n : ℕ) (out : Text)
      → 0 < n
      → n / base ≡ 0
      → (d : ℕ) × (s : Text) × (digits_onto upper base fuel
            (n / base)
            (digit_char upper (n % base) ∷ out)
          ≡ digit_char upper d ∷ s)
        × (0 < d)
        × (d < base)
  unfolding digits_onto
  head_of_last fuel n out p e =
      let whole : n / base * base + n % base ≡ n = div-add-mod' n base in
      (n % base, out, rw e (zero_digits fuel), positive whole, mod-lt n (omega arith))
    where
      zero_digits :
          (f : ℕ)
          → digits_onto upper base f 0 (digit_char upper (n % base) ∷ out)
            ≡ digit_char upper (n % base) ∷ out
      zero_digits zero = refl
      zero_digits (suc f) = refl

      positive : n / base * base + n % base ≡ n → 0 < n % base
      positive = rw e (λ whole. omega arith)

  -- A positive number begins with the character of a positive digit.
  pub digits_onto_head :
      (fuel n : ℕ) (out : Text)
      → 0 < n
      → n ≤ fuel
      → (d : ℕ) × (s : Text) × (digits_onto upper base fuel n out ≡ digit_char upper d ∷ s)
        × (0 < d)
        × (d < base)
  unfolding digits_onto
  digits_onto_head zero n out p h = absurd (omega arith)
  digits_onto_head (suc fuel) n out p h =
      let more : (n == 0) ≡ false = ground arith in
      rw more (elim (Bool-cases (n / base == 0)) [
        | inl last ↦ head_of_last fuel n out p (ground arith)
        | inr e ↦
            digits_onto_head fuel (n / base) _ (ground arith)
              (let q : n / base < n = div-lt_self p (omega arith) in omega arith)
      ])

digit_value_zero : (base : ℕ) → 0 < base → digit_value base b'0' ≡ some 0
unfolding digit_value
digit_value_zero base h = ground arith

is_digit_zero : (base : ℕ) → 0 < base → is_digit base b'0' ≡ true
is_digit_zero base h = ground (arith, digit_value_zero base h)

scan_digits-zeros :
    (base k : ℕ) (s : Text)
    → 0 < base
    → scan_digits base 0 (replicate k b'0' ++ s) ≡ scan_digits base 0 s
unfolding scan_digits
scan_digits-zeros base zero s h = refl
scan_digits-zeros base (suc k) s h =
    let e : 0 * base + 0 ≡ 0 = omega arith in
    rw (digit_value_zero base h, scan_digits) (rw e (scan_digits-zeros base k s h))

module _ (upper : Bool) (base : ℕ) (two : 2 ≤ base) (sixteen : base ≤ 16) where
  pub scan_digits-digits : (n : ℕ) → scan_digits base 0 (digits upper base n) ≡ (n, [])
  unfolding digits scan_digits
  scan_digits-digits n = elim (Bool-cases (n == 0)) [
    | inl e ↦ let e' : n ≡ 0 = ground arith in rw e' (scan_digits-zeros base 1 [] (omega arith))
    | inr e ↦ rw e (scan_digits-digits_onto upper base two sixteen n n [] (omega arith))
  ]

  pub starts_digit-digits : (n : ℕ) → starts_digit base (digits upper base n) ≡ true
  unfolding digits
  starts_digit-digits n = elim (Bool-cases (n == 0)) [
    | inl e ↦ rw e (is_digit_zero base (omega arith))
    | inr e ↦
        let (d, s, starts, _, below) =
          digits_onto_head upper base two sixteen n n [] (ground arith) (omega arith) in
        rw (e, starts) (is_digit-digit_char upper base two sixteen d below)
  ]

-- The padded hexadecimal digits of a number spell it, and begin with a digit.
pub scan_digits-hex_padded : (width n : ℕ) → scan_digits 16 0 (hex_padded width n) ≡ (n, [])
unfolding hex_padded
scan_digits-hex_padded width n =
    scan_digits-zeros 16 (width - length (hex n)) (hex n) (omega arith)
    ∙ scan_digits-digits false 16 (omega arith) (omega arith) n

starts_digit-zeros :
    (k : ℕ) (s : Text) → starts_digit 16 s ≡ true → starts_digit 16 (replicate k b'0' ++ s) ≡ true
unfolding digit_value
starts_digit-zeros zero s h = h
starts_digit-zeros (suc k) s h = refl

pub starts_digit-hex_padded : (width n : ℕ) → starts_digit 16 (hex_padded width n) ≡ true
unfolding hex_padded
starts_digit-hex_padded width n =
    starts_digit-zeros (width - length (hex n)) (hex n)
      (starts_digit-digits false 16 (omega arith) (omega arith) n)
