-- ===== src/Commands/Run.antt =====
-- commands.c: `run_command`, which finds the subcommand that the command line means.
pub mod Laws
use iotools.Base.{
  ℕ, Bool, true, false, List, [], ◌∷◌, Option, none, some, ltb, if◌then◌else◌, length, drop,
}
use iotools.Base.Int.{ℤ}
use iotools.Libc.Text.{Text, strrchr}
use iotools.Kernel.{M}
use iotools.Kernel.Calls.{◌>>=◌, arg}
use iotools.Command.{CmdInfo, CmdGroup}
use iotools.Commands.Locate.{locate_command}
use iotools.Commands.Prereqs.{run_located}
use iotools.Iotools.Fallback.{iotools_fallback}

-- What stands behind the last '/', or the whole path.
unfoldable pub base_name : Text → Text
base_name path = elim (strrchr b'/' path) [ none ↦ path | some t ↦ drop 1 t ]

-- The second half of `run_command`, for a run through a symbolic link.
unfoldable pub run_as_link : List CmdGroup → List Text → M ℤ
run_as_link groups argv = do
  path ← arg argv 0
  elim (locate_command groups (base_name path)) [
    | some cmd_info ↦ run_located argv cmd_info
    | none ↦ iotools_fallback groups argv
  ]

-- `run_command`
unfoldable pub run_command : List CmdGroup → List Text → M ℤ
run_command groups argv =
    if ltb 1 (length argv)
    then (do
      first ← arg argv 1
      elim (locate_command groups first) [
        | some cmd_info ↦ run_located (drop 1 argv) cmd_info
        | none ↦ run_as_link groups argv
      ])
    else run_as_link groups argv
