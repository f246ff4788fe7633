-- ===== src/Iotools/Main.antt =====
-- iotools.c: `main`, which ends with the exit status.
pub mod Laws
use iotools.Base.{ℕ, List, true, false, if◌then◌else◌}
use iotools.Base.Int.{ℤ, is_negative}
use iotools.Libc.Text.{Text}
use iotools.Kernel.{M}
use iotools.Kernel.Calls.{pure, ◌>>=◌}
use iotools.Command.{CmdGroup}
use iotools.Commands.Run.{run_command}

abbrev pub exit_success : ℕ
exit_success = 0

abbrev pub exit_failure : ℕ
exit_failure = 1

-- `main`: the status that is passed to exit.
unfoldable pub main : List CmdGroup → List Text → M ℕ
main groups argv = do
  rc ← run_command groups argv
  pure (if is_negative rc then exit_failure else exit_success)
