-- ===== src/Libc/Strtoul/Laws/Line.antt =====
-- A number in hexadecimal digits, with more text behind them.
use iotools.Base.{
  ◌+◌, ◌*◌, ℕ, ◌<◌, ◌^◌, ◌≡◌, ◌≢◌, refl, ◌∙◌, true, false, [], ◌∷◌, ◌++◌, Option, none, some, arith,
  All,
}
use iotools.Libc.Text.{Text}
use iotools.Libc.Print.{hex}
use iotools.Libc.Strtoul.{
  digit_value, is_digit, scan_digits, strtoul, ulong_of, has_hex_prefix, is_space,
}
use iotools.Libc.Strtoul.Laws.Scan.{starts_digit, scan_digits-digits, starts_digit-digits}

abbrev pub IsDigits : ℕ → Text → Type 0
IsDigits base = All (λ c. is_digit base c ≡ true)

-- Text that is scanned whole holds digits only.
scan_digits-IsDigits :
    (base acc v : ℕ) (s : Text) → scan_digits base acc s ≡ (v, []) → IsDigits base s
unfolding scan_digits
scan_digits-IsDigits base acc v [] h = tt
scan_digits-IsDigits base acc v (c ∷ s) h =
    go (digit_value base c) refl (λ d. scan_digits-IsDigits base (acc * base + d) v s)
  where
    go :
        (r : Option ℕ)
        → digit_value base c ≡ r
        → ((d : ℕ) → scan_digits base (acc * base + d) s ≡ (v, []) → IsDigits base s)
        → IsDigits base (c ∷ s)
    go none e rest = absurd (let h' = rw (e, scan_digits) at h in cc)
    go (some d) e rest = (rw (e, is_digit) refl, rest d (rw (e, scan_digits) at h))

scan_digits-append :
    (base acc : ℕ) (s t : Text)
    → IsDigits base s
    → starts_digit base t ≡ false
    → scan_digits base acc (s ++ t) ≡ ((scan_digits base acc s).0, t)
unfolding scan_digits
scan_digits-append base acc [] [] h stop = refl
scan_digits-append base acc [] (c ∷ t) h stop = go (digit_value base c) refl
  where
    go : (r : Option ℕ) → digit_value base c ≡ r → scan_digits base acc (c ∷ t) ≡ (acc, c ∷ t)
    go none e = rw (e, scan_digits) refl
    go (some d) e = absurd (let stop' = rw (e, starts_digit, is_digit) at stop in cc)
scan_digits-append base acc (c ∷ s) t (hc, h) stop =
    go (digit_value base c) refl (λ d. scan_digits-append base (acc * base + d) s t h stop)
  where
    go :
        (r : Option ℕ)
        → digit_value base c ≡ r
        → ((d : ℕ)
            → scan_digits base (acc * base + d) (s ++ t)
              ≡ ((scan_digits base (acc * base + d) s).0, t))
        → scan_digits base acc (c ∷ (s ++ t)) ≡ ((scan_digits base acc (c ∷ s)).0, t)
    go none e rest = absurd (let hc' = rw (e, is_digit) at hc in cc)
    go (some d) e rest = rw (e, scan_digits) (rest d)

pub IsDigits-hex : (n : ℕ) → IsDigits 16 (hex n)
IsDigits-hex n =
    unfold hex in
    scan_digits-IsDigits 16 0 n _ (scan_digits-digits false 16 (omega arith) (omega arith) n)

-- Behind a digit the text stands neither for a blank nor for a sign, nor is it the "x" of a prefix.
pub digit_lem :
    (c : ℕ)
    → is_digit 16 c ≡ true
    → (is_space c ≡ false) × (c ≢ b'-') × (c ≢ b'+') × (c ≢ b'x') × (c ≢ b'X') × (c ≢ 0)
unfolding digit_value is_space
digit_lem c h = (
  ground arith,
  (λ e. ground arith),
  (λ e. ground arith),
  (λ e. ground arith),
  (λ e. ground arith),
  (λ e. ground arith),
)

-- Digits before a newline are no prefix.
no_prefix : (s t : Text) → IsDigits 16 s → has_hex_prefix (s ++ (b'\n' ∷ t)) ≡ false
unfolding has_hex_prefix
no_prefix [] [] h = refl
no_prefix [] (c ∷ []) h = refl
no_prefix [] (c ∷ d ∷ t) h = ground arith
no_prefix (a ∷ []) [] h = refl
no_prefix (a ∷ []) (c ∷ t) h = ground arith
no_prefix (a ∷ b ∷ []) t (ha, (hb, h)) = ground (arith, digit_lem b hb)
no_prefix (a ∷ b ∷ c ∷ s) t (ha, (hb, h)) = ground (arith, digit_lem b hb)

strtoul_digits :
    (c : ℕ) (s t : Text)
    → IsDigits 16 (c ∷ s)
    → let r = scan_digits 16 0 (c ∷ (s ++ (b'\n' ∷ t))) in
      strtoul 16 (c ∷ (s ++ (b'\n' ∷ t))) ≡ (ulong_of false r.0, r.1)
unfolding strtoul
strtoul_digits c s t h = ground (arith, digit_lem c h.0, no_prefix (c ∷ s) t h)

-- A number in hexadecimal digits is read to its end, whatever follows the newline behind it.
pub strtoul-hex_line :
    (n : ℕ) (s : Text) → n < 2 ^ 64 → strtoul 16 (hex n ++ (b'\n' ∷ s)) ≡ (n, b'\n' ∷ s)
unfolding digit_value
strtoul-hex_line n s small =
    go (hex n) (IsDigits-hex n)
      (unfold hex in starts_digit-digits false 16 (omega arith) (omega arith) n)
      (unfold hex in scan_digits-digits false 16 (omega arith) (omega arith) n)
  where
    go :
        (w : Text)
        → IsDigits 16 w
        → starts_digit 16 w ≡ true
        → scan_digits 16 0 w ≡ (n, [])
        → strtoul 16 (w ++ (b'\n' ∷ s)) ≡ (n, b'\n' ∷ s)
    go [] h starts e = absurd (cc)
    go (c ∷ w) h starts e =
        strtoul_digits c w s h
        ∙ rw (scan_digits-append 16 0 (c ∷ w) (b'\n' ∷ s) h refl, e)
            (unfold ulong_of in ground arith)
