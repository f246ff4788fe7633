-- ===== src/Base/Bits/Masks.antt =====
-- The digits of the masks that the program builds: a single bit, its complement, a run of ones.
use native.Mathlib.Nat.{pow-suc, one-le-pow}
use iotools.Base.{
  ℕ, zero, suc, ◌-◌, ◌/◌, ◌^◌, ◌<◌, bit_and, ◌≡◌, refl, ◌↔◌, ap, arith, ltb, ◌==◌, if◌then◌else◌,
}
use iotools.Base.Bits.{bit, bit-lt, bit-bit_and, eq_of_bits}

pub bit-zero : (j : ℕ) → bit 0 j ≡ 0
bit-zero zero = refl
bit-zero (suc j) = bit-zero j

pub bit-pow : (b j : ℕ) → bit (2 ^ b) j ≡ (if j == b then 1 else 0)
bit-pow zero zero = refl
bit-pow zero (suc j) = ground (arith, bit-zero j)
bit-pow (suc b) zero = ground (arith, pow-suc 2 b)
bit-pow (suc b) (suc j) =
    let e : 2 ^ suc b / 2 ≡ 2 ^ b = omega (arith, pow-suc 2 b) in rw e (ground (arith, bit-pow b j))

-- `~m` at `w` bits.
pub bit-complement :
    (w m j : ℕ) → m < 2 ^ w → bit (2 ^ w - 1 - m) j ≡ (if ltb j w then 1 - bit m j else 0)
bit-complement zero m j h =
    let e : 2 ^ 0 - 1 - m ≡ 0 = omega arith in rw e (ground (arith, bit-zero j))
bit-complement (suc w) m zero h = ground (arith, pow-suc 2 w, one-le-pow w 2)
bit-complement (suc w) m (suc j) h =
    let e : (2 ^ suc w - 1 - m) / 2 ≡ 2 ^ w - 1 - m / 2 =
      omega (arith, pow-suc 2 w, one-le-pow w 2 (omega arith)) in
    rw e (ground (arith, bit-complement w (m / 2) j (omega (arith, pow-suc 2 w))))

pub bit-low_mask : (w j : ℕ) → bit (2 ^ w - 1) j ≡ (if ltb j w then 1 else 0)
bit-low_mask w j =
    let e : 2 ^ w - 1 ≡ 2 ^ w - 1 - 0 = omega arith in
    rw e (ground (arith, bit-complement w 0 j (one-le-pow w 2 (omega arith)), bit-zero j))

-- `v & (1 << b)` is zero exactly if bit b of v is clear.
pub bit_and-pow-zero : (v b : ℕ) → (bit_and v (2 ^ b) ≡ 0) ↔ (bit v b ≡ 0)
bit_and-pow-zero v b = (
  λ e. ground (
    arith,
    bit-bit_and b v (2 ^ b),
    bit-pow b b,
    bit-lt v b,
    ap (λ (t : ℕ). bit t b) e,
    bit-zero b,
  ),
  λ e.
      eq_of_bits _ _
        λ j. ground (arith, bit-bit_and j v (2 ^ b), bit-pow b j, bit-lt v j, bit-zero j),
)
