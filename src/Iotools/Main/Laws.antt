-- ===== src/Iotools/Main/Laws.antt =====
-- The exit status of a command line that names no command.
use iotools.Base.{◌≡◌, false, List, ◌∷◌, ◌++◌, none, arith}
use iotools.Libc.Text.{Text}
use iotools.Kernel.{Kernel, Log, done}
use iotools.Command.{CmdGroup}
use iotools.Commands.Locate.{locate_command}
use iotools.Commands.Run.{base_name}
use iotools.Commands.Run.Laws.{NoCommandFirst, run_command_fallback}
use iotools.Iotools.Fallback.Laws.{is_option_line, rejection, iotools_fallback_rejects}
use iotools.Iotools.Main.{main, exit_failure}

-- A line on which neither the first argument nor the name of the binary is a command, and whose
-- arguments are not one option of the binary, exits with EXIT_FAILURE; it makes no system call, and
-- writes the rejection on stderr.
pub main_rejects :
    (groups : List CmdGroup) (path : Text) (rest : List Text) (k : Kernel) (log : Log)
    → locate_command groups (base_name path) ≡ none
    → NoCommandFirst groups rest
    → is_option_line rest ≡ false
    → main groups (path ∷ rest) k log ≡ done exit_failure (rejection path rest ++ log)
unfolding main
main_rejects groups path rest k log e h o = ground (
  arith,
  run_command_fallback groups path rest k log e h,
  iotools_fallback_rejects groups path rest k log o,
)
