-- ===== src/Base/Bits/Step.antt =====
-- The native operations mean `bitwise`, a recursion on binary digits with fuel. Here the fuel is
-- dropped: one equation for the lowest digit of each.
use Prim.Native.Nat.{
  min, max, differ, digits, bitwise, bit_and-bitwise, bit_or-bitwise, bit_xor-bitwise,
}
use iotools.Base.{
  ℕ, zero, suc, ◌+◌, ◌*◌, ◌/◌, ◌%◌, ◌≤◌, ◌<◌, bit_and, bit_or, bit_xor, ◌≡◌, refl, arith,
}

module _ (z : ℕ → ℕ) (f : ℕ → ℕ → ℕ) where
  -- Fuel above the number changes nothing.
  digits_spare :
      (x y more fuel : ℕ) → x ≤ fuel → fuel ≤ more → digits z f more x y ≡ digits z f fuel x y
  digits_spare (suc x) y more zero h k = absurd (omega arith)
  digits_spare x y zero (suc fuel) h k = absurd (omega arith)
  digits_spare zero y zero zero h k = refl
  digits_spare zero y (suc more) zero h k = refl
  digits_spare zero y (suc more) (suc fuel) h k = refl
  digits_spare (suc x) y (suc more) (suc fuel) h k =
      let half = suc x / 2 in rw (digits_spare half (y / 2) more fuel (omega arith) (omega arith))

  -- The lowest digit of the result, behind those of the halves.
  bitwise_step :
      (x y : ℕ)
      → bitwise z f (suc x) y ≡ bitwise z f (suc x / 2) (y / 2) * 2 + f (suc x % 2) (y % 2)
  bitwise_step x y =
      let half = suc x / 2 in
      omega (arith, digits_spare half (y / 2) x half (omega arith) (omega arith))

differ_of_lt : (x y : ℕ) → x < 2 → y < 2 → differ x y ≡ (x + y) % 2
differ_of_lt zero y h k = omega arith
differ_of_lt (suc zero) zero h k = refl
differ_of_lt (suc (suc x)) zero h k = absurd (omega arith)
differ_of_lt (suc zero) (suc zero) h k = refl
differ_of_lt (suc x) (suc (suc y)) h k = absurd (omega arith)
differ_of_lt (suc (suc x)) (suc y) h k = absurd (omega arith)

differ_of_digits : (a b : ℕ) → differ (a % 2) (b % 2) ≡ (a + b) % 2
differ_of_digits a b = omega (arith, differ_of_lt (a % 2) (b % 2) (omega arith) (omega arith))

pub zero-bit_and : (b : ℕ) → bit_and 0 b ≡ 0
zero-bit_and b = simp bit_and-bitwise refl

pub bit_and_step : (a b : ℕ) → bit_and a b ≡ min (a % 2) (b % 2) + 2 * bit_and (a / 2) (b / 2)
bit_and_step zero b = omega (arith, zero-bit_and b, zero-bit_and (b / 2))
bit_and_step (suc a) b = simp bit_and-bitwise (omega (arith, bitwise_step (λ y. 0) min a b))

pub bit_xor_step : (a b : ℕ) → bit_xor a b ≡ (a + b) % 2 + 2 * bit_xor (a / 2) (b / 2)
bit_xor_step zero b = simp bit_xor-bitwise (omega arith)
bit_xor_step (suc a) b =
    rw (← differ_of_digits (suc a) b)
      (simp bit_xor-bitwise (omega (arith, bitwise_step (λ y. y) differ a b)))

pub bit_or_step : (a b : ℕ) → bit_or a b ≡ max (a % 2) (b % 2) + 2 * bit_or (a / 2) (b / 2)
bit_or_step zero b = simp bit_or-bitwise (omega arith)
bit_or_step (suc a) b = simp bit_or-bitwise (omega (arith, bitwise_step (λ y. y) max a b))
