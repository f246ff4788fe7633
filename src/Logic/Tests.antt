-- ===== src/Logic/Tests.antt =====
-- Runs of the commands of logic.c, and the theorems at concrete data.
use mathlib.Core.List.Permᴰ.{swap}
use iotools.Base.{ℕ, ◌-◌, ◌%◌, ◌^◌, ◌<◌, ◌≡◌, refl, [], ◌∷◌, none, arith, ltb, ◌==◌, if◌then◌else◌}
use iotools.Base.Int.{ℤ, pos}
use iotools.Base.Bits.{bit}
use iotools.Libc.Text.{text}
use iotools.Libc.Print.{hex}
use iotools.Libc.Strtoul.{strtoul}
use iotools.Kernel.{done, printed}
use iotools.Kernel.Sample.{failing}
use iotools.Logic.{
  or_op, and_op, xor_op, shl_op, shr_op, bts_op, btr_op, one_shifted, value, logic_op, shift,
  result_line,
}
use iotools.Logic.Fold.{or_fold, logic_op_fold, logic_op-perm, xor_fold}
use iotools.Logic.Bit.{sets, logic_op-bit, bts_sign_bit}
use iotools.Logic.Shift.{retyped, shift_round_trip}

or_run :
    logic_op or_op none (text "or" ∷ text "0x10" ∷ text "010" ∷ text "3" ∷ []) failing []
    ≡ done (pos 0) (printed (text "0x1b\n") ∷ [])
unfolding logic_op hex strtoul
or_run = refl

-- A value alone is printed with status 0, also if it is zero.
and_of_one :
    logic_op and_op none (text "and" ∷ text "0" ∷ []) failing []
    ≡ done (pos 0) (printed (text "0x0\n") ∷ [])
unfolding logic_op hex strtoul
and_of_one = refl

btr_run :
    logic_op btr_op none (text "btr" ∷ text "0xff" ∷ text "4" ∷ []) failing []
    ≡ done (pos 1) (printed (text "0xef\n") ∷ [])
unfolding logic_op hex strtoul one_shifted
btr_run = refl

shl_run :
    shift shl_op none (text "shl" ∷ text "0x8000000000000001" ∷ text "1" ∷ []) failing []
    ≡ done (pos 0) (printed (text "0x2\n") ∷ [])
unfolding shift hex strtoul
shl_run = refl

four_value : value (text "4") ≡ 4
unfolding strtoul
four_value = refl

sign_bit_value : value (text "31") ≡ 31
unfolding strtoul
sign_bit_value = refl

logic_op_fold_example :
    logic_op or_op none (text "or" ∷ text "1" ∷ text "6" ∷ []) failing []
    ≡ done (pos 0) (printed (text "0x7\n") ∷ [])
unfolding strtoul hex
logic_op_fold_example = logic_op_fold or_fold none (text "or") (text "1") (text "6" ∷ []) failing []

logic_op-perm_example :
    logic_op xor_op none (text "xor" ∷ text "1" ∷ text "6" ∷ []) failing []
    ≡ logic_op xor_op none (text "xor" ∷ text "6" ∷ text "1" ∷ []) failing []
logic_op-perm_example =
    logic_op-perm xor_fold none (text "xor") (text "1") (text "6") (text "6" ∷ []) (text "1" ∷ [])
      failing [] (swap refl refl)

logic_op-bit_example :
    (r : ℕ) × (logic_op bts_op none (text "bts" ∷ text "3" ∷ text "4" ∷ []) failing []
      ≡ done (pos (bit (value (text "3")) (value (text "4")))) (printed (result_line r) ∷ []))
    × ((j : ℕ) → j < 64 → bit r j ≡ (if j == value (text "4") then 1 else bit (value (text "3")) j))
logic_op-bit_example =
    logic_op-bit sets none (text "bts") (text "3") (text "4") failing []
      (rw four_value (omega arith))

bts_sign_bit_example :
    (r : ℕ) × (rc : ℤ) × (logic_op bts_op none (text "bts" ∷ text "3" ∷ text "31" ∷ []) failing []
      ≡ done rc (printed (result_line r) ∷ []))
    × ((j : ℕ) → j < 64 → bit r j ≡ (if ltb j 31 then bit (value (text "3")) j else 1))
bts_sign_bit_example =
    bts_sign_bit none (text "bts") (text "3") (text "31") failing [] sign_bit_value

shift_round_trip_example :
    (r : ℕ) × (shift shl_op none (text "shl" ∷ text "31" ∷ text "4" ∷ []) failing []
      ≡ done (pos 0) (printed (result_line r) ∷ []))
    × (shift shr_op none (text "shr" ∷ retyped r ∷ text "4" ∷ []) failing []
        ≡ done
            (pos 0)
            (printed (result_line (value (text "31") % 2 ^ (64 - value (text "4")))) ∷ []))
shift_round_trip_example =
    shift_round_trip none (text "shl") (text "shr") (text "31") (text "4") failing [] []
      (rw four_value (omega arith))
