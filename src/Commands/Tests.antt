-- ===== src/Commands/Tests.antt =====
-- Runs of the command dispatch, and the theorems at concrete data.
use mathlib.Core.List.{reverse}
use iotools.Base.{All, ◌≡◌, refl, ◌↔◌, true, false, List, [], ◌∷◌, ◌++◌, none, some, map, arith}
use iotools.Base.Int.{pos, minus_one}
use iotools.Libc.Text.{text, str_eq, strrchr}
use iotools.Libc.Print.{hex}
use iotools.Libc.Strtoul.{strtoul}
use iotools.Kernel.{Kernel, Log, done, printed, complained, raised}
use iotools.Kernel.Calls.{pure}
use iotools.Kernel.Sample.{failing}
use iotools.Command.{CmdInfo, CmdGroup, fixed_args, make_cmd_with_params, make_cmd}
use iotools.Commands.Locate.{locate_command}
use iotools.Commands.Locate.Laws.{FirstNamed, all_commands, locate_command_iff}
use iotools.Commands.Prereqs.{run_located}
use iotools.Commands.Prereqs.Laws.{run_located_refused}
use iotools.Commands.Links.{make_command_links, clean_command_links}
use iotools.Commands.Links.Laws.{
  links_made, links_removed, link_path, Fits, make_command_links_lem, clean_command_links_lem,
}
use iotools.Commands.Run.{run_as_link, base_name, run_command}
use iotools.Commands.Run.Laws.{IsPlain, run_command_three_ways}
use iotools.Iotools.Fallback.Laws.{rejection}
use iotools.Iotools.Main.{main, exit_failure}
use iotools.Iotools.Main.Laws.{main_rejects}
use iotools.Logic.{logic_op, logic_group}

abbrev ports : CmdInfo
ports =
    make_cmd_with_params (text "ports") (λ size argv. pure (pos 0)) (fixed_args 2 (text "<n>") 3)

abbrev list_all : CmdInfo
list_all = make_cmd (text "list_all") (λ size argv. pure (pos 0))

abbrev own_group : CmdGroup
own_group = record { name = text "OWN"; description = none; commands = ports ∷ list_all ∷ [] }

abbrev groups : List CmdGroup
groups = logic_group ∷ own_group ∷ []

-- The privilege level is granted, and the binary is /sbin/iotools.
abbrev root : Kernel
root = record failing {
  iopl = λ log level. true;
  readlink = λ log path. some (text "/sbin/iotools");
}

or_by_name :
    main groups (text "./iotools" ∷ text "or" ∷ text "1" ∷ text "2" ∷ []) failing []
    ≡ done 0 (printed (text "0x3\n") ∷ [])
unfolding main run_command locate_command str_eq logic_group run_located logic_op hex strtoul
or_by_name = refl

or_by_link :
    main groups (text "/bin/or" ∷ text "1" ∷ text "2" ∷ []) failing []
    ≡ done 0 (printed (text "0x3\n") ∷ [])
unfolding main run_command run_as_link base_name strrchr locate_command str_eq logic_group
    run_located logic_op hex strtoul
or_by_link = refl

too_few :
    main groups (text "/bin/not" ∷ []) failing []
    ≡ done 1 (complained (text "usage: /bin/not <value>\n") ∷ [])
unfolding main run_command run_as_link base_name strrchr locate_command str_eq logic_group
    run_located
too_few = refl

list_all_found : locate_command groups (text "list_all") ≡ some list_all
unfolding locate_command str_eq logic_group
list_all_found = refl

not_found : locate_command groups (text "x") ≡ none
unfolding locate_command str_eq logic_group
not_found = refl

path_not_found : locate_command groups (base_name (text "/sbin/iotools")) ≡ none
unfolding locate_command str_eq logic_group base_name strrchr
path_not_found = refl

locate_command_iff_example :
    (locate_command groups (text "list_all") ≡ some list_all)
    ↔ FirstNamed (text "list_all") list_all (all_commands groups)
locate_command_iff_example = locate_command_iff groups (text "list_all") list_all

run_located_refused_example :
    run_located (text "ports" ∷ text "7" ∷ []) ports failing []
    ≡ done minus_one (complained (text "can't set io privilege level\n") ∷ raised 3 false ∷ [])
run_located_refused_example =
    run_located_refused failing [] (text "ports") (text "7" ∷ []) ports
      (fixed_args 2 (text "<n>") 3) refl refl

iotools-IsPlain : IsPlain (text "iotools")
iotools-IsPlain = omega arith

list_all-IsPlain : IsPlain (text "list_all")
list_all-IsPlain = omega arith

links_fit : All (Fits (text "/sbin")) (all_commands groups)
unfolding logic_group
links_fit = (
  omega arith,
  (
    omega arith,
    (
      omega arith,
      (
        omega arith,
        (
          omega arith,
          (omega arith, (omega arith, (omega arith, (omega arith, (omega arith, tt))))),
        ),
      ),
    ),
  ),
)

make_command_links_lem_example :
    (log' : Log) × (make_command_links groups root [] ≡ done (pos 0) log')
    × (links_made log'
        ≡ reverse (map (λ c. (text "iotools", link_path (text "/sbin") c)) (all_commands groups))
          ++ [])
make_command_links_lem_example =
    make_command_links_lem root [] (text "/sbin") (text "iotools") refl (omega arith)
      iotools-IsPlain groups links_fit

clean_command_links_lem_example :
    (log' : Log) × (clean_command_links groups root [] ≡ done (pos 0) log')
    × (links_removed log' ≡ reverse (map (link_path (text "/sbin")) (all_commands groups)) ++ [])
clean_command_links_lem_example =
    clean_command_links_lem root [] (text "/sbin") (text "iotools") refl (omega arith)
      iotools-IsPlain groups links_fit

run_command_three_ways_example :
    (run_command groups (text "./iotools" ∷ text "list_all" ∷ []) failing []
      ≡ run_located (text "list_all" ∷ []) list_all failing [])
    × (run_command groups (text "/bin/list_all" ∷ []) failing []
        ≡ run_located (text "/bin/list_all" ∷ []) list_all failing [])
    × (run_command groups (text "list_all" ∷ []) failing []
        ≡ run_located (text "list_all" ∷ []) list_all failing [])
run_command_three_ways_example =
    run_command_three_ways groups (text "./iotools") (text "/bin") (text "list_all") [] list_all
      failing [] list_all-IsPlain list_all_found tt

main_rejects_example :
    main groups (text "/sbin/iotools" ∷ text "x" ∷ []) failing []
    ≡ done exit_failure (rejection (text "/sbin/iotools") (text "x" ∷ []) ++ [])
unfolding str_eq
main_rejects_example =
    main_rejects groups (text "/sbin/iotools") (text "x" ∷ []) failing [] path_not_found not_found
      refl
