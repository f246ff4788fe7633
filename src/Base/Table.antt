-- ===== src/Base/Table.antt =====
-- Tests of all numbers below a bound, which decide what holds of every byte.
use iotools.Base.{ℕ, zero, suc, ◌<◌, ◌≡◌, refl, Bool, true, false, ◌&&◌, arith}

-- Whether the test succeeds for the numbers that are less than `bound`.
unfoldable pub passes : (ℕ → Bool) → ℕ → Bool
passes test zero = true
passes test (suc bound) = passes test bound && test bound

pub passes_lem :
    (test : ℕ → Bool) (bound b : ℕ) → passes test bound ≡ true → b < bound → test b ≡ true
unfolding passes
passes_lem test zero b all below = absurd (omega arith)
passes_lem test (suc bound) b all below = ground (arith, passes_lem test bound b)

pub both_true : (p q : Bool) → (p && q) ≡ true → (p ≡ true) × (q ≡ true)
both_true true true h = (refl, refl)
both_true true false h = (refl, h)
both_true false q h = (h, absurd (cc))
