-- ===== src/Commands/Locate/Found.antt =====
-- What holds of every command holds of the one that is located.
use iotools.Base.{◌≡◌, List, [], ◌∷◌, some, All, All-append}
use iotools.Libc.Text.{Text}
use iotools.Command.{CmdInfo, CmdGroup}
use iotools.Commands.Locate.{locate_command}
use iotools.Commands.Locate.Laws.{FirstNamed, all_commands, locate_command_iff}

module _ (P : CmdInfo → Type 0) where
  pub groups-All : (gs : List CmdGroup) → All (λ g. All P g.commands) gs → All P (all_commands gs)
  groups-All [] h = tt
  groups-All (g ∷ gs) h = All-append P g.commands (all_commands gs) h.0 (groups-All gs h.1)

  named-All :
      {cmd : Text} {c : CmdInfo} {cs : List CmdInfo}
      → FirstNamed cmd c cs
      → All P cs
      → P c × (cmd ≡ c.name)
  named-All (FirstNamed.here e) h = (h.0, e)
  named-All (FirstNamed.there ne f) h = named-All f h.1

  pub located-All :
      (gs : List CmdGroup) (cmd : Text) (c : CmdInfo)
      → All P (all_commands gs)
      → locate_command gs cmd ≡ some c
      → P c × (cmd ≡ c.name)
  located-All gs cmd c h e = named-All ((locate_command_iff gs cmd c).0 e) h
