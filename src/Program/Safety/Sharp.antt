-- ===== src/Program/Safety/Sharp.antt =====
-- The risky lines of the logic commands are undefined indeed.
use mathlib.Core.List.{Permᴰ}
use mathlib.Core.Path.{subst}
use iotools.Base.{ℕ, ◌≡◌, refl, sym, ◌∙◌, true, List, [], ◌∷◌, some, arith, Bool-cases, inl, inr}
use iotools.Libc.Text.{Text, text, str_eq, str_eq_iff}
use iotools.Base.{if◌then◌else◌}
use iotools.Base.Int.{is_negative}
use iotools.Kernel.Calls.{◌>>=◌, pure}
use iotools.Kernel.{M, Kernel, Log, undefined}
use iotools.Command.{CmdInfo, CmdGroup, make_cmd_with_params}
use iotools.Commands.Locate.{locate_command}
use iotools.Commands.Prereqs.{run_located}
use iotools.Commands.Run.{run_command}
use iotools.Commands.Run.Laws.{run_command-named}
use iotools.Iotools.Main.{main, exit_failure, exit_success}
use iotools.Logic.{
  shl_op, shr_op, bts_op, btr_op, logic_op, shift, one_shifted, shift_params, bit_params,
  logic_group,
}
use iotools.Cmos.{cmos_group}
use iotools.IoPort.{io_group}
use iotools.Scom.Cpu.{Locals}
use iotools.Program.{Machine, program_groups, register_all}
use iotools.Program.Order.{locates_alike}
use iotools.Program.Safety.{is_risky}

-- The four commands, with their entries in the table.
data Shifts : Text → CmdInfo → Type 0 where
  left : Shifts (text "shl") (make_cmd_with_params (text "shl") (shift shl_op) shift_params)
  right : Shifts (text "shr") (make_cmd_with_params (text "shr") (shift shr_op) shift_params)
  sets : Shifts (text "bts") (make_cmd_with_params (text "bts") (logic_op bts_op) bit_params)
  resets : Shifts (text "btr") (make_cmd_with_params (text "btr") (logic_op btr_op) bit_params)

risky-Shifts : (cmd a b : Text) → is_risky cmd (a ∷ b ∷ []) ≡ true → (c : CmdInfo) × Shifts cmd c
unfolding is_risky
risky-Shifts cmd a b h = elim (Bool-cases (str_eq cmd (text "shl"))) [
  | inl e ↦ named (text "shl") e left
  | inr not_left ↦ elim (Bool-cases (str_eq cmd (text "shr"))) [
    | inl e ↦ named (text "shr") e right
    | inr not_right ↦ elim (Bool-cases (str_eq cmd (text "bts"))) [
      | inl e ↦ named (text "bts") e sets
      | inr not_sets ↦ elim (Bool-cases (str_eq cmd (text "btr"))) [
        | inl e ↦ named (text "btr") e resets
        | inr not_resets ↦ absurd (ground arith)
      ]
    ]
  ]
]
  where
    named :
        (name : Text) {c : CmdInfo}
        → str_eq cmd name ≡ true
        → Shifts name c
        → (c : CmdInfo) × Shifts cmd c
    named name {c} e sh =
        subst (λ (x : Text). (d : CmdInfo) × Shifts x d) (sym ((str_eq_iff cmd name).0 e)) (c, sh)

located :
    (machine : Machine) (locals : Locals) (fuel : ℕ) {cmd : Text} {c : CmdInfo}
    → Shifts cmd c
    → locate_command (program_groups machine locals fuel) cmd ≡ some c
unfolding locate_command program_groups str_eq logic_group cmos_group io_group
located machine locals fuel left = refl
located machine locals fuel right = refl
located machine locals fuel sets = refl
located machine locals fuel resets = refl

run_located-undefined :
    {cmd : Text} {c : CmdInfo} (a b : Text) (k : Kernel) (log : Log)
    → Shifts cmd c
    → is_risky cmd (a ∷ b ∷ []) ≡ true
    → run_located (cmd ∷ a ∷ b ∷ []) c k log ≡ undefined
unfolding run_located is_risky str_eq shift logic_op one_shifted
run_located-undefined a b k log left h = ground arith
run_located-undefined a b k log right h = ground arith
run_located-undefined a b k log sets h = ground arith
run_located-undefined a b k log resets h = ground arith

bind_undefined :
    {A B : Type 0} (m : M A) (f : A → M B) (k : Kernel) (log : Log)
    → m k log ≡ undefined
    → (m >>= f) k log ≡ undefined
bind_undefined m f k log e = rw (e, ◌>>=◌)

-- A risky line of two values is undefined, whatever the machine, the order of the groups and the
-- system.
pub main-undefined :
    (machine : Machine) (locals : Locals) (fuel : ℕ) (gs : List CmdGroup) (binary cmd a b : Text)
    (k : Kernel) (log : Log)
    → Permᴰ (program_groups machine locals fuel) gs
    → is_risky cmd (a ∷ b ∷ []) ≡ true
    → main (register_all gs []) (binary ∷ cmd ∷ a ∷ b ∷ []) k log ≡ undefined
unfolding main
main-undefined machine locals fuel gs binary cmd a b k log p h =
    let (c, sh) = risky-Shifts cmd a b h in
    let found : locate_command (register_all gs []) cmd ≡ some c =
      locates_alike machine locals fuel gs cmd p ∙ located machine locals fuel sh in
    let ends =
      run_command-named (register_all gs []) binary cmd (a ∷ b ∷ []) c k log found
      ∙ run_located-undefined a b k log sh h in
    bind_undefined (run_command (register_all gs []) (binary ∷ cmd ∷ a ∷ b ∷ []))
      (λ rc. pure (if is_negative rc then exit_failure else exit_success)) k log ends
