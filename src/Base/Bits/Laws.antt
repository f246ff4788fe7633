-- ===== src/Base/Bits/Laws.antt =====
-- The algebra of `&`, `|` and `^`, and their results within a width.
use native.Mathlib.Nat.{pow-suc}
use iotools.Base.{ℕ, zero, suc, ◌+◌, ◌/◌, ◌^◌, ◌<◌, bit_and, bit_or, bit_xor, ◌≡◌, arith}
use iotools.Base.Bits.{
  bit-bit_and, bit-bit_or, bit-bit_xor, eq_of_bits, bit_and_step, bit_or_step, bit_xor_step,
  zero-bit_and,
}

pub bit_and_comm : (a b : ℕ) → bit_and a b ≡ bit_and b a
bit_and_comm a b = eq_of_bits _ _ λ i. omega (arith, bit-bit_and i a b, bit-bit_and i b a)

pub bit_or_comm : (a b : ℕ) → bit_or a b ≡ bit_or b a
bit_or_comm a b = eq_of_bits _ _ λ i. omega (arith, bit-bit_or i a b, bit-bit_or i b a)

pub bit_xor_comm : (a b : ℕ) → bit_xor a b ≡ bit_xor b a
bit_xor_comm a b = eq_of_bits _ _ λ i. omega (arith, bit-bit_xor i a b, bit-bit_xor i b a)

pub bit_and_assoc : (a b c : ℕ) → bit_and (bit_and a b) c ≡ bit_and a (bit_and b c)
bit_and_assoc a b c = eq_of_bits _ _ λ i. omega (
  arith,
  bit-bit_and i (bit_and a b) c,
  bit-bit_and i a b,
  bit-bit_and i a (bit_and b c),
  bit-bit_and i b c,
)

pub bit_or_assoc : (a b c : ℕ) → bit_or (bit_or a b) c ≡ bit_or a (bit_or b c)
bit_or_assoc a b c = eq_of_bits _ _ λ i. omega (
  arith,
  bit-bit_or i (bit_or a b) c,
  bit-bit_or i a b,
  bit-bit_or i a (bit_or b c),
  bit-bit_or i b c,
)

pub bit_xor_assoc : (a b c : ℕ) → bit_xor (bit_xor a b) c ≡ bit_xor a (bit_xor b c)
bit_xor_assoc a b c = eq_of_bits _ _ λ i. omega (
  arith,
  bit-bit_xor i (bit_xor a b) c,
  bit-bit_xor i a b,
  bit-bit_xor i a (bit_xor b c),
  bit-bit_xor i b c,
)

-- Operands within a width give a result within it.
pub bit_and-lt : (w a b : ℕ) → a < 2 ^ w → bit_and a b < 2 ^ w
bit_and-lt zero a b h = let e : a ≡ 0 = omega arith in rw (e, zero-bit_and) (omega arith)
bit_and-lt (suc w) a b h =
    omega (arith, bit_and_step a b, pow-suc 2 w, bit_and-lt w (a / 2) (b / 2) half)
  where
    half : a / 2 < 2 ^ w
    half = omega (arith, pow-suc 2 w)

pub bit_or-lt : (w a b : ℕ) → a < 2 ^ w → b < 2 ^ w → bit_or a b < 2 ^ w
bit_or-lt zero a b h k =
    let ea : a ≡ 0 = omega arith in let eb : b ≡ 0 = omega arith in rw (ea, eb) (omega arith)
bit_or-lt (suc w) a b h k = omega (
  arith,
  bit_or_step a b,
  pow-suc 2 w,
  bit_or-lt w (a / 2) (b / 2) (omega (arith, pow-suc 2 w)) (omega (arith, pow-suc 2 w)),
)

pub bit_xor-lt : (w a b : ℕ) → a < 2 ^ w → b < 2 ^ w → bit_xor a b < 2 ^ w
bit_xor-lt zero a b h k =
    let ea : a ≡ 0 = omega arith in let eb : b ≡ 0 = omega arith in rw (ea, eb) (omega arith)
bit_xor-lt (suc w) a b h k = omega (
  arith,
  bit_xor_step a b,
  pow-suc 2 w,
  bit_xor-lt w (a / 2) (b / 2) (omega (arith, pow-suc 2 w)) (omega (arith, pow-suc 2 w)),
)

-- What `|` and `&` keep of two numbers is what the numbers have together.
pub bit_or-add-bit_and : (w a b : ℕ) → a < 2 ^ w → b < 2 ^ w → bit_or a b + bit_and a b ≡ a + b
bit_or-add-bit_and zero a b h k =
    let e : a ≡ 0 = omega arith in
    let f : b ≡ 0 = omega arith in rw (e, f, zero-bit_and 0) (omega (arith, bit_or_step 0 0))
bit_or-add-bit_and (suc w) a b h k =
    let rest =
      bit_or-add-bit_and w (a / 2) (b / 2) (omega (arith, pow-suc 2 w))
        (omega (arith, pow-suc 2 w)) in
    omega (arith, bit_or_step a b, bit_and_step a b, rest)
