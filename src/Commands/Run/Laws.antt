-- ===== src/Commands/Run/Laws.antt =====
-- Which command a command line runs, and the exit status of a line that names none.
use iotools.Base.{◌≡◌, refl, ◌∙◌, ◌≢◌, List, [], ◌∷◌, ◌++◌, none, some, arith, All}
use iotools.Libc.Text.{Text, strrchr_absent, strrchr_last}
use iotools.Kernel.{Kernel, Log}
use iotools.Command.{CmdInfo, CmdGroup}
use iotools.Commands.Locate.{locate_command}
use iotools.Commands.Prereqs.{run_located}
use iotools.Commands.Run.{base_name, run_as_link, run_command}
use iotools.Iotools.Fallback.{iotools_fallback}

-- No path separator in a name.
abbrev pub IsPlain : Text → Type 0
IsPlain = All (λ x. x ≢ b'/')

base_name-plain : (name : Text) → IsPlain name → base_name name ≡ name
unfolding base_name
base_name-plain name h = rw (strrchr_absent b'/' name h, base_name)

base_name-path : (dir name : Text) → IsPlain name → base_name (dir ++ (b'/' ∷ name)) ≡ name
unfolding base_name
base_name-path dir name h = rw (strrchr_last b'/' dir name h, base_name)

-- The first argument, if there is one, is no command.
abbrev pub NoCommandFirst : List CmdGroup → List Text → Type 0
NoCommandFirst groups [] = Unit
NoCommandFirst groups (s ∷ rest) = locate_command groups s ≡ none

run_command-as_link :
    (groups : List CmdGroup) (path : Text) (args : List Text) (k : Kernel) (log : Log)
    → NoCommandFirst groups args
    → run_command groups (path ∷ args) k log ≡ run_as_link groups (path ∷ args) k log
unfolding run_command
run_command-as_link groups path [] k log h = refl
run_command-as_link groups path (s ∷ args) k log h = ground arith

pub run_command-named :
    (groups : List CmdGroup) (binary name : Text) (args : List Text) (c : CmdInfo) (k : Kernel)
    (log : Log)
    → locate_command groups name ≡ some c
    → run_command groups (binary ∷ name ∷ args) k log ≡ run_located (name ∷ args) c k log
unfolding run_command
run_command-named groups binary name args c k log e = ground arith

run_as_link-located :
    (groups : List CmdGroup) (path : Text) (args : List Text) (c : CmdInfo) (k : Kernel) (log : Log)
    → locate_command groups (base_name path) ≡ some c
    → run_as_link groups (path ∷ args) k log ≡ run_located (path ∷ args) c k log
unfolding run_as_link
run_as_link-located groups path args c k log e = ground arith

-- A command runs alike when it is named behind the binary, when it is called through its symbolic
-- link in any folder, and when the link is found by its name alone; only argv[0] differs. Through a
-- link this needs that the first argument is no command's name itself.
pub run_command_three_ways :
    (groups : List CmdGroup) (binary dir name : Text) (args : List Text) (c : CmdInfo) (k : Kernel)
    (log : Log)
    → IsPlain name
    → locate_command groups name ≡ some c
    → NoCommandFirst groups args
    → (run_command groups (binary ∷ name ∷ args) k log ≡ run_located (name ∷ args) c k log)
      × (run_command groups ((dir ++ (b'/' ∷ name)) ∷ args) k log
          ≡ run_located ((dir ++ (b'/' ∷ name)) ∷ args) c k log)
      × (run_command groups (name ∷ args) k log ≡ run_located (name ∷ args) c k log)
run_command_three_ways groups binary dir name args c k log plain e h = (
  run_command-named groups binary name args c k log e,
  run_command-as_link groups _ args k log h
      ∙ run_as_link-located groups (dir ++ (b'/' ∷ name)) args c k log
          (rw (base_name-path dir name plain) e),
  run_command-as_link groups name args k log h
      ∙ run_as_link-located groups name args c k log (rw (base_name-plain name plain) e),
)

-- A line that names no command is left to `iotools_fallback`.
pub run_command_fallback :
    (groups : List CmdGroup) (path : Text) (args : List Text) (k : Kernel) (log : Log)
    → locate_command groups (base_name path) ≡ none
    → NoCommandFirst groups args
    → run_command groups (path ∷ args) k log ≡ iotools_fallback groups (path ∷ args) k log
unfolding run_as_link
run_command_fallback groups path args k log e h =
    run_command-as_link groups path args k log h ∙ ground arith
