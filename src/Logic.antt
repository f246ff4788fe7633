-- ===== src/Logic.antt =====
-- logic.c: the commands or, and, xor, bts, btr, shl, shr and not.
pub mod Fold
pub mod Bit
pub mod Shift
pub mod Tests
use iotools.Base.{
  ℕ, ◌-◌, ◌*◌, ◌/◌, ◌%◌, ◌^◌, bit_and, bit_or, bit_xor, Bool, true, false, not, List, [], ◌∷◌, ◌++◌,
  Option, none, some, ltb, ◌==◌, if◌then◌else◌, drop,
}
use iotools.Base.Int.{ℤ, pos, minus_one, from_bool}
use iotools.Libc.Text.{Text, text}
use iotools.Libc.Print.{hex}
use iotools.Libc.Strtoul.{strtoul, ulong_max}
use iotools.Kernel.{M}
use iotools.Kernel.Calls.{pure, fault, ◌>>=◌, ◌>>◌, arg, print, complain}
use iotools.Command.{
  SizeParam, PrereqParams, CmdInfo, CmdGroup, var_args, fixed_args, int_max, make_cmd_with_params,
}

-- `LOGIC_OP`
pub data LogicOp : Type 0 where
  or_op and_op xor_op shl_op shr_op bts_op btr_op : LogicOp

-- `strtoull(s, NULL, 0)`
abbrev pub value : Text → ℕ
value s = (strtoul 0 s).0

-- `1 << val`, which is an `int`: gcc shifts into the sign bit, and the conversion to 64 bits copies
-- it; from 32 on C leaves the shift undefined.
unfoldable pub one_shifted : ℕ → Option ℕ
one_shifted val =
    if ltb val 31 then some (2 ^ val) else if val == 31 then some (2 ^ 64 - 2 ^ 31) else none

-- What a round of the loop in `logic_op` does: the new `result` and `rc`, the message of the
-- default case, or an undefined shift.
pub data Round : Type 0 where
  next : ℕ → Bool → Round
  invalid_op bad_shift : Round

-- The `switch` of `logic_op`.
unfoldable pub logic_round : LogicOp → ℕ → ℕ → Round
logic_round or_op result val = let r = bit_or result val in next r (r == 0)
logic_round and_op result val = let r = bit_and result val in next r (r == 0)
logic_round xor_op result val = let r = bit_xor result val in next r (r == 0)
logic_round bts_op result val = elim (one_shifted val) [
  | none ↦ bad_shift
  | some mask ↦ next (bit_or result mask) (not (bit_and result mask == 0))
]
logic_round btr_op result val = elim (one_shifted val) [
  | none ↦ bad_shift
  | some mask ↦ next (bit_and result (ulong_max - mask)) (not (bit_and result mask == 0))
]
logic_round shl_op result val = invalid_op
logic_round shr_op result val = invalid_op

-- `printf("0x%llx\n", result)`
abbrev pub result_line : ℕ → Text
result_line result = b'0' ∷ b'x' ∷ (hex result ++ text "\n")

-- The `while` of `logic_op` and what follows it.
unfoldable pub logic_loop : LogicOp → List Text → ℕ → ℤ → M ℤ
unfolding logic_round
logic_loop op [] result rc = print (result_line result) >> pure rc
logic_loop op (s ∷ argv) result rc = elim (logic_round op result (value s)) [
  | next result' rc' ↦ logic_loop op argv result' (from_bool rc')
  | invalid_op ↦ complain (text "Invalid logic op\n") >> pure minus_one
  | bad_shift ↦ fault
]

-- `logic_op`
unfoldable pub logic_op : LogicOp → SizeParam → List Text → M ℤ
unfolding logic_loop
logic_op op size argv = arg argv 1 >>= λ s. logic_loop op (drop 2 argv) (value s) (pos 0)

-- `not`
unfoldable pub complement : SizeParam → List Text → M ℤ
complement size argv = do
  s ← arg argv 1
  let result = ulong_max - value s
  print (result_line result)
  pure (from_bool (result == 0))

-- A shift of 64 bits or more is undefined.
abbrev pub shifted : LogicOp → ℕ → ℕ → M ℤ
shifted shl_op val by =
    if ltb by 64 then print (result_line (val * 2 ^ by % 2 ^ 64)) >> pure (pos 0) else fault
shifted shr_op val by =
    if ltb by 64 then print (result_line (val / 2 ^ by)) >> pure (pos 0) else fault
shifted op val by = complain (text "Invalid shift operation\n") >> pure minus_one

-- `shift`
unfoldable pub shift : LogicOp → SizeParam → List Text → M ℤ
shift op size argv = do s ← arg argv 1; t ← arg argv 2; shifted op (value s) (value t)

abbrev logic_op_params : PrereqParams
logic_op_params = var_args 2 int_max (text "<value> <value> ...") 0

abbrev not_params : PrereqParams
not_params = fixed_args 2 (text "<value>") 0

abbrev pub shift_params : PrereqParams
shift_params = fixed_args 3 (text "<value> <shift>") 0

abbrev pub bit_params : PrereqParams
bit_params = fixed_args 3 (text "<value> <bit>") 0

-- `logic_cmds`
unfoldable pub logic_cmds : List CmdInfo
logic_cmds =
    make_cmd_with_params (text "or") (logic_op or_op) logic_op_params
    ∷ make_cmd_with_params (text "and") (logic_op and_op) logic_op_params
    ∷ make_cmd_with_params (text "xor") (logic_op xor_op) logic_op_params
    ∷ make_cmd_with_params (text "shl") (shift shl_op) shift_params
    ∷ make_cmd_with_params (text "shr") (shift shr_op) shift_params
    ∷ make_cmd_with_params (text "not") complement not_params
    ∷ make_cmd_with_params (text "btr") (logic_op btr_op) bit_params
    ∷ make_cmd_with_params (text "bts") (logic_op bts_op) bit_params
    ∷ []

-- `LOGIC_group`
unfoldable pub logic_group : CmdGroup
unfolding logic_cmds
logic_group = record {
  name = text "LOGIC";
  description = some (text "commands to perform boolean algebra operations");
  commands = logic_cmds;
}
