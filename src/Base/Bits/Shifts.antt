-- ===== src/Base/Bits/Shifts.antt =====
-- Shifts and truncation, digit by digit.
use native.Mathlib.Nat.{
  pow-suc, pow-succ', one-le-pow, div-div-eq-div-mul, mod-add-div, mod-lt, mod-eq_of_lt,
  add-mul-mod_self_right,
}
use iotools.Base.{
  ℕ, zero, suc, ◌+◌, ◌-◌, ◌*◌, ◌/◌, ◌%◌, ◌^◌, ◌≤◌, ◌<◌, ◌≡◌, ◌∙◌, sym, ap, arith, bit_and, ltb,
  if◌then◌else◌,
}
use iotools.Base.Bits.{bit, bit-lt, bit-bit_and, eq_of_bits}
use iotools.Base.Bits.Masks.{bit-zero, bit-low_mask}

pub bit-div_pow : (k x j : ℕ) → bit (x / 2 ^ k) j ≡ bit x (k + j)
bit-div_pow zero x j =
    let e : x / 2 ^ 0 ≡ x = omega arith in let e' : 0 + j ≡ j = omega arith in rw (e, e')
bit-div_pow (suc k) x j =
    let e : x / 2 ^ suc k ≡ x / 2 / 2 ^ k =
      (rw (pow-succ' 2 k)) ∙ sym (div-div-eq-div-mul x 2 (2 ^ k)) in
    let e' : suc k + j ≡ suc (k + j) = omega arith in rw (e, e') (bit-div_pow k (x / 2) j)

pub bit-mul_pow : (k x j : ℕ) → bit (x * 2 ^ k) j ≡ (if ltb j k then 0 else bit x (j - k))
bit-mul_pow zero x j =
    let e : x * 2 ^ 0 ≡ x = omega arith in
    let e' : j - 0 ≡ j = omega arith in rw (e, e') (ground arith)
bit-mul_pow (suc k) x zero =
    let e : x * 2 ^ suc k ≡ 2 * (x * 2 ^ k) = rw (pow-suc 2 k) (omega arith) in rw e (ground arith)
bit-mul_pow (suc k) x (suc j) =
    let e : x * 2 ^ suc k / 2 ≡ x * 2 ^ k = rw (pow-suc 2 k) (omega arith) in
    let e' : suc j - suc k ≡ j - k = omega arith in rw (e, e') (ground (arith, bit-mul_pow k x j))

half-mod : (x p : ℕ) → 0 < p → x % (p * 2) / 2 ≡ x / 2 % p
half-mod x p h =
    let r = x % (p * 2) in
    let q = x / (p * 2) in
    let split : x / 2 ≡ r / 2 + q * p = omega (arith, mod-add-div x (p * 2)) in
    let below : r / 2 < p = omega (arith, mod-lt x {m = p * 2} (omega arith)) in
    sym ((rw split (add-mul-mod_self_right (r / 2) q p)) ∙ mod-eq_of_lt below)

pub bit-mod_pow : (w x j : ℕ) → bit (x % 2 ^ w) j ≡ (if ltb j w then bit x j else 0)
bit-mod_pow zero x j = let e : x % 2 ^ 0 ≡ 0 = omega arith in rw e (ground (arith, bit-zero j))
bit-mod_pow (suc w) x zero = rw (pow-suc 2 w) (ground (arith, mod-add-div x (2 ^ w * 2)))
bit-mod_pow (suc w) x (suc j) =
    let e : x % 2 ^ suc w / 2 ≡ x / 2 % 2 ^ w =
      (rw (pow-suc 2 w)) ∙ half-mod x (2 ^ w) (one-le-pow w 2 (omega arith)) in
    rw e (ground (arith, bit-mod_pow w (x / 2) j))

-- Shifting left within `w` bits and back leaves the bits that were not shifted out.
pub shift_back : (w k x : ℕ) → k ≤ w → x * 2 ^ k % 2 ^ w / 2 ^ k ≡ x % 2 ^ (w - k)
shift_back w k x h = eq_of_bits _ _ λ j.
    let e : k + j - k ≡ j = omega arith in
    ground (
      arith,
      bit-div_pow k (x * 2 ^ k % 2 ^ w) j,
      bit-mod_pow w (x * 2 ^ k) (k + j),
      bit-mul_pow k x (k + j),
      ap (bit x) e,
      bit-mod_pow (w - k) x j,
    )

-- The low mask of `p` ones keeps the remainder.
pub bit_and-low_mask : (p a : ℕ) → bit_and a (2 ^ p - 1) ≡ a % 2 ^ p
bit_and-low_mask p a = eq_of_bits (bit_and a (2 ^ p - 1)) (a % 2 ^ p) (λ i. same i)
  where
    same : (i : ℕ) → bit (bit_and a (2 ^ p - 1)) i ≡ bit (a % 2 ^ p) i
    same i =
        ground (arith, bit-bit_and i a (2 ^ p - 1), bit-low_mask p i, bit-mod_pow p a i, bit-lt a i)
