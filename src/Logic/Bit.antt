-- ===== src/Logic/Bit.antt =====
-- bts and btr: what they do to each bit, and for which bit numbers.
use native.Mathlib.Nat.{pow-le-pow_right}
use iotools.Base.{
  ℕ, ◌-◌, ◌^◌, ◌≤◌, ◌<◌, bit_and, bit_or, ◌≡◌, ◌∙◌, true, not, [], ◌∷◌, some, arith, ltb, lt→ltb,
  ◌==◌, if◌then◌else◌,
}
use iotools.Base.Int.{ℤ, pos, from_bool}
use iotools.Base.Bits.{bit, bit-lt, bit-bit_and, bit-bit_or}
use iotools.Base.Bits.Masks.{bit-pow, bit-complement, bit-low_mask, bit_and-pow-zero}
use iotools.Libc.Text.{Text}
use iotools.Libc.Strtoul.{ulong_max}
use iotools.Libc.Strtoul.Laws.{strtoul-lt}
use iotools.Kernel.{Kernel, Log, done, printed}
use iotools.Command.{SizeParam}
use iotools.Logic.{LogicOp, bts_op, btr_op, value, one_shifted, logic_op, result_line}

-- The two commands on a single bit, with the value that each gives the bit.
pub data IsBitOp : LogicOp → ℕ → Type 0 where
  sets : IsBitOp bts_op 1
  resets : IsBitOp btr_op 0

-- The new value of the number.
abbrev bit_result : {op : LogicOp} {c : ℕ} → IsBitOp op c → ℕ → ℕ → ℕ
bit_result sets v mask = bit_or v mask
bit_result resets v mask = bit_and v (ulong_max - mask)

status_of_mask : (v b : ℕ) → from_bool (not (bit_and v (2 ^ b) == 0)) ≡ pos (bit v b)
status_of_mask v b = ground (arith, bit_and-pow-zero v b, bit-lt v b)

logic_op_mask :
    {op : LogicOp} {c : ℕ} (h : IsBitOp op c) (size : SizeParam) (name s t : Text) {mask : ℕ}
    (k : Kernel) (log : Log)
    → one_shifted (value t) ≡ some mask
    → logic_op op size (name ∷ s ∷ t ∷ []) k log
      ≡ done
          (from_bool (not (bit_and (value s) mask == 0)))
          (printed (result_line (bit_result h (value s) mask)) ∷ log)
unfolding logic_op
logic_op_mask sets size name s t k log e = ground arith
logic_op_mask resets size name s t k log e = ground arith

bit-bit_result :
    {op : LogicOp} {c : ℕ} (h : IsBitOp op c) (v b j : ℕ)
    → v < 2 ^ 64
    → b < 31
    → j < 64
    → bit (bit_result h v (2 ^ b)) j ≡ (if j == b then c else bit v j)
bit-bit_result sets v b j hv hb hj = ground (arith, bit-bit_or j v (2 ^ b), bit-pow b j, bit-lt v j)
bit-bit_result resets v b j hv hb hj =
    let fits : 2 ^ b ≤ 2 ^ 31 =
      pow-le-pow_right {n = 2} (omega arith) {i = b} {j = 31} (omega arith) in
    let inside : ltb j 64 ≡ true = lt→ltb j 64 hj in
    let mask_bit : bit (ulong_max - 2 ^ b) j ≡ 1 - bit (2 ^ b) j =
      bit-complement 64 (2 ^ b) j (omega arith) ∙ (rw inside) in
    ground (arith, bit-bit_and j v (ulong_max - 2 ^ b), bit-pow b j, bit-lt v j)

-- For a bit number below 31, bts prints the value with that bit set and btr with that bit clear;
-- every other of the 64 bits is kept, and the status is the bit's old value.
pub logic_op-bit :
    {op : LogicOp} {c : ℕ} (h : IsBitOp op c) (size : SizeParam) (name s t : Text) (k : Kernel)
    (log : Log)
    → value t < 31
    → (r : ℕ) × (logic_op op size (name ∷ s ∷ t ∷ []) k log
        ≡ done (pos (bit (value s) (value t))) (printed (result_line r) ∷ log))
      × ((j : ℕ) → j < 64 → bit r j ≡ (if j == value t then c else bit (value s) j))
logic_op-bit h size name s t k log small = (
  bit_result h (value s) (2 ^ value t),
  logic_op_mask h size name s t {mask = 2 ^ value t} k log (unfold one_shifted in ground arith)
      ∙ (rw (status_of_mask (value s) (value t))),
  λ j hj. bit-bit_result h (value s) (value t) j (strtoul-lt 0 s) small hj,
)

-- bts with bit number 31 sets all bits from 31 on, not that bit alone: `1 << 31` is negative.
pub bts_sign_bit :
    (size : SizeParam) (name s t : Text) (k : Kernel) (log : Log)
    → value t ≡ 31
    → (r : ℕ) × (rc : ℤ) × (logic_op bts_op size (name ∷ s ∷ t ∷ []) k log
        ≡ done rc (printed (result_line r) ∷ log))
      × ((j : ℕ) → j < 64 → bit r j ≡ (if ltb j 31 then bit (value s) j else 1))
bts_sign_bit size name s t k log e = (
  bit_or (value s) (2 ^ 64 - 2 ^ 31),
  _,
  logic_op_mask sets size name s t {mask = 2 ^ 64 - 2 ^ 31} k log
      (unfold one_shifted in ground arith),
  λ j hj.
      let inside : ltb j 64 ≡ true = lt→ltb j 64 hj in
      let mask_bit : bit (2 ^ 64 - 2 ^ 31) j ≡ 1 - bit (2 ^ 31 - 1) j =
        bit-complement 64 (2 ^ 31 - 1) j (omega arith) ∙ (rw inside) in
      ground
        (arith, bit-bit_or j (value s) (2 ^ 64 - 2 ^ 31), bit-low_mask 31 j, bit-lt (value s) j),
)
