-- ===== src/Commands/Prereqs.antt =====
-- commands.c: the check of a command's prerequisites, and the call of its entry point.
pub mod Laws
use iotools.Base.{
  ℕ, Bool, true, false, not, ◌&&◌, ◌||◌, List, [], ◌∷◌, ◌++◌, Option, none, some, ltb, ◌==◌,
  if◌then◌else◌, length,
}
use iotools.Base.Int.{ℤ, pos, minus_one, is_negative}
use iotools.Libc.Text.{Text, text}
use iotools.Kernel.{M}
use iotools.Kernel.Calls.{pure, ◌>>=◌, ◌>>◌, arg, complain, iopl, arch_x86}
use iotools.Command.{PrereqParams, CmdInfo}

-- The block under ARCH_X86 in `check_prereqs`.
abbrev check_iopl : ℕ → M ℤ
check_iopl iopl_needed = do
  x86 ← arch_x86
  if x86 && not (iopl_needed == 0)
      then (do
        raised ← iopl iopl_needed
        if raised
            then pure (pos 0)
            else (complain (text "can't set io privilege level\n") >> pure minus_one))
      else pure (pos 0)

-- `check_prereqs`
unfoldable pub check_prereqs : List Text → Option PrereqParams → M ℤ
check_prereqs argv none = pure (pos 0)
check_prereqs argv (some params) =
    if ltb (length argv) params.min_args || ltb params.max_args (length argv)
    then (do
      name ← arg argv 0
      complain (text "usage: " ++ (name ++ (text " " ++ (params.usage ++ text "\n"))))
      pure minus_one)
    else check_iopl params.iopl_needed

-- `_run_command`
unfoldable pub run_located : List Text → CmdInfo → M ℤ
unfolding check_prereqs
run_located argv cmd_info = do
  rc ← check_prereqs argv cmd_info.params
  if is_negative rc then pure minus_one else cmd_info.entry cmd_info.sizedata argv
