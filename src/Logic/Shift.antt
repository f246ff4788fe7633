-- ===== src/Logic/Shift.antt =====
-- shl, shr and not, and what their output is when it is fed back to them.
use iotools.Base.{ℕ, ◌-◌, ◌*◌, ◌/◌, ◌%◌, ◌^◌, ◌<◌, ◌≡◌, ◌∙◌, [], ◌∷◌, arith, ltb, lt→ltb}
use iotools.Base.Int.{pos}
use mathlib.Core.Path.{ap}
use iotools.Base.Bits.Shifts.{shift_back}
use mathlib.Core.Bool.{true}
use iotools.Libc.Text.{Text}
use iotools.Libc.Print.{hex}
use iotools.Libc.Strtoul.Laws.{strtoul-hex}
use iotools.Kernel.{Kernel, Log, done, printed}
use iotools.Command.{SizeParam}
use iotools.Logic.{shl_op, shr_op, value, shift, result_line}

-- A result as it is typed again on the next command line, without the newline.
abbrev pub retyped : ℕ → Text
retyped n = b'0' ∷ b'x' ∷ hex n

value-retyped : (n : ℕ) → n < 2 ^ 64 → value (retyped n) ≡ n
value-retyped n h = ap (λ (p : ℕ × Text). p.0) (strtoul-hex n h)

-- For a shift by fewer than 64 bits shl prints a value, and shr of that value by the same number of
-- bits prints the bits that were not shifted out: the lower 64 less that number.
pub shift_round_trip :
    (size : SizeParam) (name name' s t : Text) (k : Kernel) (log log' : Log)
    → value t < 64
    → (r : ℕ) × (shift shl_op size (name ∷ s ∷ t ∷ []) k log
        ≡ done (pos 0) (printed (result_line r) ∷ log))
      × (shift shr_op size (name' ∷ retyped r ∷ t ∷ []) k log'
          ≡ done (pos 0) (printed (result_line (value s % 2 ^ (64 - value t))) ∷ log'))
unfolding shift
shift_round_trip size name name' s t k log log' h =
    let r = value s * 2 ^ value t % 2 ^ 64 in
    let small : ltb (value t) 64 ≡ true = lt→ltb _ _ h in
    let back : value (retyped r) / 2 ^ value t ≡ value s % 2 ^ (64 - value t) =
      (rw (value-retyped r (omega arith))) ∙ shift_back 64 (value t) (value s) (omega arith) in
    (r, rw small, rw (small, back))
