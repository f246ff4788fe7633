-- ===== src/Commands/Prereqs/Laws.antt =====
-- The guard before every entry point.
use iotools.Base.{
  suc, ◌≡◌, Bool, true, false, not, ◌&&◌, ◌||◌, List, ◌∷◌, ◌++◌, some, arith, leb, ◌==◌,
  if◌then◌else◌, length,
}
use iotools.Base.Int.{minus_one}
use iotools.Libc.Text.{Text, text}
use iotools.Kernel.{Kernel, Log, done, complained, raised}
use iotools.Command.{PrereqParams, CmdInfo}
use iotools.Commands.Prereqs.{run_located}

abbrev pub usage_line : Text → PrereqParams → Text
usage_line name p = text "usage: " ++ (name ++ (text " " ++ (p.usage ++ text "\n")))

-- Whether an entry point with these prerequisites is called at all: the number of arguments lies
-- within the bounds, and the privilege level, if one is needed on this machine, was granted.
abbrev pub permitted : Kernel → Log → PrereqParams → List Text → Bool
permitted k log p argv =
    leb p.min_args (length argv)
    && (leb (length argv) p.max_args
        && (not k.arch_x86 || (p.iopl_needed == 0 || k.iopl log p.iopl_needed)))

-- Without permission the command ends with -1: after a usage line if the number of arguments was
-- wrong, and after the failed iopl call and a message otherwise.
pub run_located_refused :
    (k : Kernel) (log : Log) (name : Text) (args : List Text) (c : CmdInfo) (p : PrereqParams)
    → c.params ≡ some p
    → permitted k log p (name ∷ args) ≡ false
    → let refusal : Log =
        if leb p.min_args (suc (length args)) && leb (suc (length args)) p.max_args
        then complained (text "can't set io privilege level\n") ∷ raised p.iopl_needed false ∷ log
        else complained (usage_line name p) ∷ log in
      run_located (name ∷ args) c k log ≡ done minus_one refusal
unfolding run_located
run_located_refused k log name args c p e h = ground arith

-- With permission the entry point is called, on the same log but for a granted iopl call.
pub run_located-permitted :
    (k : Kernel) (log : Log) (argv : List Text) (c : CmdInfo) (p : PrereqParams)
    → c.params ≡ some p
    → permitted k log p argv ≡ true
    → let log' : Log =
        if k.arch_x86 && not (p.iopl_needed == 0) then raised p.iopl_needed true ∷ log else log in
      run_located argv c k log ≡ c.entry c.sizedata argv k log'
unfolding run_located
run_located-permitted k log argv c p e h = ground arith
