-- ===== src/Commands/Locate.antt =====
-- commands.c: the list of the registered groups, and the search in it.
pub mod Distinct
pub mod Laws
pub mod Found
use iotools.Base.{List, [], ◌∷◌, Option, none, some, if◌then◌else◌}
use iotools.Base.Int.{ℤ, pos}
use iotools.Libc.Text.{Text, str_eq}
use iotools.Command.{CmdInfo, CmdGroup}

-- The inner loop of `locate_command`, over the commands of one group.
unfoldable pub find_command : Text → List CmdInfo → Option CmdInfo
find_command cmd [] = none
find_command cmd (c ∷ cs) =
    let rest = find_command cmd cs in if str_eq cmd c.name then some c else rest

-- `locate_command`
unfoldable pub locate_command : List CmdGroup → Text → Option CmdInfo
unfolding find_command
locate_command [] cmd = none
locate_command (g ∷ gs) cmd = elim (find_command cmd g.commands) [
  | some c ↦ some c
  | none ↦ locate_command gs cmd
]

-- `register_command_group`: the new list, and the result.
unfoldable pub register_command_group : CmdGroup → List CmdGroup → List CmdGroup × ℤ
register_command_group group group_head = (group ∷ group_head, pos 0)
