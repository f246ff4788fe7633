-- ===== src/Program/Safety/Tables.antt =====
-- The tables whose commands are safe unless the line is risky.
use iotools.Base.{ℕ, ◌≡◌, refl, Bool, true, false, List, [], ◌∷◌, none, arith, All, All-append}
use iotools.Libc.Text.{Text, text, str_eq}
use iotools.Kernel.{M, Kernel, Log}
use iotools.Command.{
  PrereqParams, CmdInfo, SizeParam, make_cmd, make_cmd_with_params, var_args, fixed_args, int_max,
}
use iotools.Logic.{
  LogicOp, or_op, and_op, xor_op, shl_op, shr_op, bts_op, btr_op, logic_op, complement, shift,
  one_shifted, logic_cmds,
}
use iotools.Logic.Fold.{IsFold, or_fold, and_fold, xor_fold}
use iotools.Commands.Prereqs.{run_located}
use iotools.Commands.Balance.{IsBalanced, one_arg, two_args}
use iotools.Commands.Safety.{
  Keeps-Defined, Defined, IsSafe, guarded-Defined, guarded-IsSafe, unguarded-Defined,
  pci_rw_cmds-IsSafe,
}
use iotools.Commands.Safety.Entries.{
  fold-Defined, complement-Defined, bad_count, busy_loop-Defined, cpu_list-Defined, runon-Defined,
  rdtsc-Defined, cpuid-Defined, pci_list-Defined,
}
use iotools.Base.Int.{ℤ}
use iotools.Pci.{pci_rw_cmds}
use iotools.Pci.Listing.{pci_cmds, pci_list}
use iotools.Misc.{misc_cmds, busy_loop, cpu_list, runon, rdtsc, cpuid, cpuid_params, runon_params}
use iotools.Program.Safety.{is_risky, IsSafeUnlessRisky}

pub safe_anyway : (cs : List CmdInfo) → All IsSafe cs → All IsSafeUnlessRisky cs
safe_anyway [] h = tt
safe_anyway (c ∷ cs) h = (λ k linux log name args calm. h.0 k log name args, safe_anyway cs h.1)

pub balanced_anyway : (cs : List CmdInfo) → All IsBalanced cs → All IsSafeUnlessRisky cs
balanced_anyway [] h = tt
balanced_anyway (c ∷ cs) h = (
  (λ k linux log name args calm.
      Keeps-Defined 0 log (run_located (name ∷ args) c k log)
        (h.0 k log name args 0 linux.bounded calm.1)),
  balanced_anyway cs h.1,
)

abbrev fold_params : PrereqParams
fold_params = var_args 2 int_max (text "<value> <value> ...") 0

abbrev entry_of : Text → LogicOp → CmdInfo
entry_of name op = make_cmd_with_params name (logic_op op) fold_params

fold-IsSafe :
    {op : LogicOp} {f : ℕ → ℕ → ℕ} (fold : IsFold op f) (name : Text) → IsSafe (entry_of name op)
fold-IsSafe {op} fold name =
    guarded-IsSafe (entry_of name op) fold_params refl
      (λ name args k log low high. fold-Defined fold none name args k log low)

complement-IsSafe :
    IsSafe (make_cmd_with_params (text "not") complement (fixed_args 2 (text "<value>") 0))
complement-IsSafe =
    guarded-IsSafe (make_cmd_with_params (text "not") complement (fixed_args 2 (text "<value>") 0))
      (fixed_args 2 (text "<value>") 0) refl
      (λ name args k log.
        one_arg (λ (s : List Text). Defined (complement none (name ∷ s) k log))
          (λ a. complement-Defined none name a k log) args)

-- A command of two values, which is safe unless it is risky.
two_values-IsSafeUnlessRisky :
    (command usage : Text) (entry : SizeParam → List Text → M ℤ)
    → ((name a b : Text) (k : Kernel) (log : Log)
        → is_risky command (a ∷ b ∷ []) ≡ false
        → Defined (entry none (name ∷ a ∷ b ∷ []) k log))
    → IsSafeUnlessRisky (make_cmd_with_params command entry (fixed_args 3 usage 0))
two_values-IsSafeUnlessRisky command usage entry safe k linux log name args calm =
    guarded-Defined (make_cmd_with_params command entry (fixed_args 3 usage 0))
      (fixed_args 3 usage 0) name args k log refl
      (λ log' low high.
        two_args
          (λ (s : List Text). is_risky command s ≡ false → Defined (entry none (name ∷ s) k log'))
          (λ a b. safe name a b k log') args low high calm.0)

shl-IsSafeUnlessRisky :
    IsSafeUnlessRisky
      (make_cmd_with_params (text "shl") (shift shl_op) (fixed_args 3 (text "<value> <shift>") 0))
unfolding shift is_risky str_eq
shl-IsSafeUnlessRisky =
    two_values-IsSafeUnlessRisky (text "shl") (text "<value> <shift>") (shift shl_op)
      (λ name a b k log calm. ground arith)

shr-IsSafeUnlessRisky :
    IsSafeUnlessRisky
      (make_cmd_with_params (text "shr") (shift shr_op) (fixed_args 3 (text "<value> <shift>") 0))
unfolding shift is_risky str_eq
shr-IsSafeUnlessRisky =
    two_values-IsSafeUnlessRisky (text "shr") (text "<value> <shift>") (shift shr_op)
      (λ name a b k log calm. ground arith)

btr-IsSafeUnlessRisky :
    IsSafeUnlessRisky
      (make_cmd_with_params (text "btr") (logic_op btr_op) (fixed_args 3 (text "<value> <bit>") 0))
unfolding logic_op one_shifted is_risky str_eq
btr-IsSafeUnlessRisky =
    two_values-IsSafeUnlessRisky (text "btr") (text "<value> <bit>") (logic_op btr_op)
      (λ name a b k log calm. ground arith)

bts-IsSafeUnlessRisky :
    IsSafeUnlessRisky
      (make_cmd_with_params (text "bts") (logic_op bts_op) (fixed_args 3 (text "<value> <bit>") 0))
unfolding logic_op one_shifted is_risky str_eq
bts-IsSafeUnlessRisky =
    two_values-IsSafeUnlessRisky (text "bts") (text "<value> <bit>") (logic_op bts_op)
      (λ name a b k log calm. ground arith)

abbrev anyway : (c : CmdInfo) → IsSafe c → IsSafeUnlessRisky c
anyway c safe k linux log name args calm = safe k log name args

pub logic_cmds-IsSafeUnlessRisky : All IsSafeUnlessRisky logic_cmds
unfolding logic_cmds
logic_cmds-IsSafeUnlessRisky = (
  anyway (entry_of (text "or") or_op) (fold-IsSafe or_fold (text "or")),
  (
    anyway (entry_of (text "and") and_op) (fold-IsSafe and_fold (text "and")),
    (
      anyway (entry_of (text "xor") xor_op) (fold-IsSafe xor_fold (text "xor")),
      (
        shl-IsSafeUnlessRisky,
        (
          shr-IsSafeUnlessRisky,
          (
            anyway (make_cmd_with_params (text "not") complement (fixed_args 2 (text "<value>") 0))
                complement-IsSafe,
            (btr-IsSafeUnlessRisky, (bts-IsSafeUnlessRisky, tt)),
          ),
        ),
      ),
    ),
  ),
)

any_line-IsSafe :
    (command : Text) (entry : SizeParam → List Text → M ℤ)
    → ((argv : List Text) (k : Kernel) (log : Log) → Defined (entry none argv k log))
    → IsSafe (make_cmd command entry)
any_line-IsSafe command entry safe k log name args =
    unguarded-Defined (make_cmd command entry) name args k log refl (safe (name ∷ args) k log)

busy_loop-IsSafeUnlessRisky :
    (fuel : ℕ) → IsSafeUnlessRisky (make_cmd (text "busy_loop") (busy_loop fuel))
unfolding is_risky str_eq
busy_loop-IsSafeUnlessRisky fuel k linux log name args calm =
    unguarded-Defined (make_cmd (text "busy_loop") (busy_loop fuel)) name args k log refl
      (busy_loop-Defined fuel none name args k log (counted args calm.0))
  where
    counted : (args : List Text) → is_risky (text "busy_loop") args ≡ false → bad_count args ≡ false
    counted [] calm = refl
    counted (s ∷ []) calm = calm
    counted (s ∷ t ∷ args) calm = refl

cpuid-IsSafe : IsSafe (make_cmd_with_params (text "cpuid") cpuid cpuid_params)
cpuid-IsSafe =
    guarded-IsSafe (make_cmd_with_params (text "cpuid") cpuid cpuid_params) cpuid_params refl
      (λ name args k log. cpuid-Defined none name args k log)

runon-IsSafe : IsSafe (make_cmd_with_params (text "runon") runon runon_params)
runon-IsSafe =
    guarded-IsSafe (make_cmd_with_params (text "runon") runon runon_params) runon_params refl
      (λ name args k log low high. runon-Defined none name args k log low)

misc_common : (fuel : ℕ) → All IsSafeUnlessRisky (misc_cmds false fuel)
unfolding misc_cmds
misc_common fuel = (
  busy_loop-IsSafeUnlessRisky fuel,
  (
    anyway (make_cmd (text "cpu_list") cpu_list)
        (any_line-IsSafe (text "cpu_list") cpu_list (cpu_list-Defined none)),
    (anyway (make_cmd_with_params (text "runon") runon runon_params) runon-IsSafe, tt),
  ),
)

pub misc_cmds-IsSafeUnlessRisky :
    (on_x86 : Bool) (fuel : ℕ) → All IsSafeUnlessRisky (misc_cmds on_x86 fuel)
unfolding misc_cmds
misc_cmds-IsSafeUnlessRisky true fuel = (
  anyway (make_cmd (text "rdtsc") rdtsc)
      (any_line-IsSafe (text "rdtsc") rdtsc (rdtsc-Defined none)),
  (anyway (make_cmd_with_params (text "cpuid") cpuid cpuid_params) cpuid-IsSafe, misc_common fuel),
)
misc_cmds-IsSafeUnlessRisky false fuel = misc_common fuel

pub pci_cmds-IsSafe : All IsSafe pci_cmds
unfolding pci_cmds
pci_cmds-IsSafe =
    All-append IsSafe pci_rw_cmds (make_cmd (text "pci_list") pci_list ∷ []) pci_rw_cmds-IsSafe
      (any_line-IsSafe (text "pci_list") pci_list (pci_list-Defined none), tt)
