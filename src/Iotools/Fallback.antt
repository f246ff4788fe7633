-- ===== src/Iotools/Fallback.antt =====
-- iotools.c: `iotools_fallback`, which runs when no subcommand has the name.
pub mod Laws
use iotools.Base.{
  ℕ, suc, Bool, true, false, not, ◌||◌, List, [], ◌∷◌, ◌++◌, ◌==◌, if◌then◌else◌, length,
}
use iotools.Base.Int.{ℤ, pos, minus_one}
use iotools.Libc.Text.{Text, text, str_eq}
use iotools.Libc.Print.{dec}
use iotools.Kernel.{Event, printed, complained, M}
use iotools.Kernel.Calls.{pure, ◌>>=◌, ◌>>◌, arg, note, print, complain}
use iotools.Command.{CmdGroup}
use iotools.Commands.Links.{make_command_links, clean_command_links, list_commands}

-- VER_MAJOR and VER_MINOR of the Makefile
abbrev ver_major : ℕ
ver_major = 1

abbrev ver_minor : ℕ
ver_minor = 6

-- `usage`, to the stream that `out` stands for
unfoldable pub usage : Text → (Text → Event) → M (Unit {0})
usage bin_name out = do
  note (out (text "usage: " ++ (bin_name ++ text " COMMAND\n")))
  note (
      out (
        text
          "  COMMANDS:\n    --make-links\n    --clean-links\n    --list-cmds\n    -v --version\n"))

-- `version`
unfoldable pub version : Text → M (Unit {0})
unfolding dec
version progname = print (
    progname ++ (text " version " ++ (dec ver_major ++ (text "." ++ (dec ver_minor ++ text "\n")))))

-- The tests of argv[1], one after the other.
unfoldable pub run_option : List CmdGroup → Text → Text → M ℤ
unfolding usage version make_command_links clean_command_links list_commands
run_option groups name option =
    if str_eq option (text "--help")
    then usage name printed >> pure (pos 0)
    else if str_eq option (text "--make-links")
    then make_command_links groups
    else if str_eq option (text "--clean-links")
    then clean_command_links groups
    else if str_eq option (text "--list-cmds")
    then list_commands groups
    else if str_eq option (text "-v") || str_eq option (text "--version")
    then version name >> pure (pos 0)
    else (do
      complain (b'\'' ∷ (option ++ text "' sub-command not supported by iotools\n"))
      usage name complained
      pure minus_one)

-- `iotools_fallback`
unfoldable pub iotools_fallback : List CmdGroup → List Text → M ℤ
unfolding run_option
iotools_fallback groups argv = do
  name ← arg argv 0
  if length argv == 2
      then (arg argv 1 >>= run_option groups name)
      else (usage name complained >> pure minus_one)
