-- ===== src/Program/Safety/Lines.antt =====
-- Whatever the line, the program does not come to undefined behaviour unless the line is risky.
use mathlib.Core.List.{Permᴰ}
use iotools.Base.{List, [], ◌∷◌, All}
use iotools.Libc.Text.{Text}
use iotools.Kernel.{Kernel}
use iotools.Command.{CmdGroup}
use iotools.Program.Safety.{IsCalm, IsSafeUnlessRisky}

abbrev IsSafeGroup : CmdGroup → Type 0
IsSafeGroup g = All IsSafeUnlessRisky g.commands

-- The command behind the name of the binary is calm with its arguments.
abbrev pub IsCalmBehind : List Text → Type 0
IsCalmBehind [] = Unit
IsCalmBehind (s ∷ args) = IsCalm s args
