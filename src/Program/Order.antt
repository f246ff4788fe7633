-- ===== src/Program/Order.antt =====
-- The linker chooses in which order the groups are registered. Which command a line runs does not
-- depend on it.
use mathlib.Core.List.{Permᴰ}
use mathlib.Core.List.Permᴰ
use mathlib.Core.List.Permᴰ.{trans}
use iotools.Base.{append-nil, ◌≡◌, refl, sym, ℕ, true, false, List, [], ◌∷◌, ◌++◌, arith}
use iotools.Program.{Machine, x86, power, other, program_groups, register_all}
use iotools.Command.{CmdGroup}
use iotools.Kernel.{Kernel, Log}
use iotools.Commands.Run.{run_command, run_as_link, base_name}
use iotools.Iotools.Fallback.Laws.{is_option_line, iotools_fallback_rejects}
use iotools.Iotools.Main.{main}
use iotools.Commands.Locate.{locate_command, register_command_group}
use iotools.Scom.Cpu.{Locals, scom_group}
use iotools.Libc.Text.{Text, str_eq}
use iotools.Cmos.{cmos_group}
use iotools.IoPort.{io_group}
use iotools.Logic.{logic_group}
use iotools.Misc.{misc_group}
use iotools.Mmio.{mmio_group, mem_group}
use iotools.Msr.{msr_group}
use iotools.Pci.Listing.{pci_group}
use iotools.Smbus.Commands.{smbus_group}
use iotools.Commands.Locate.Laws.{locate_command-perm, all_commands, DistinctNames}
use iotools.Commands.Locate.Distinct.{distinct_names, distinct_names-DistinctNames}

names_distinct :
    (machine : Machine) (locals : Locals) (fuel : ℕ)
    → distinct_names (all_commands (program_groups machine locals fuel)) ≡ true
unfolding distinct_names str_eq program_groups cmos_group io_group logic_group misc_group mmio_group
    mem_group pci_group smbus_group msr_group scom_group iotools.Mmio.mmio_cmds
    iotools.Mmio.cacheable_mmio_cmds iotools.Smbus.Commands.smbus_cmds
names_distinct x86 locals fuel = refl
names_distinct power locals fuel = refl
names_distinct other locals fuel = refl

-- No two commands of the program have the same name, on any machine.
pub program_names-DistinctNames :
    (machine : Machine) (locals : Locals) (fuel : ℕ)
    → DistinctNames (all_commands (program_groups machine locals fuel))
program_names-DistinctNames machine locals fuel =
    distinct_names-DistinctNames (all_commands (program_groups machine locals fuel))
      (names_distinct machine locals fuel)

pub register_all-perm : (gs hs : List CmdGroup) → Permᴰ (gs ++ hs) (register_all gs hs)
unfolding register_all register_command_group
register_all-perm [] hs = Permᴰ.refl hs
register_all-perm (g ∷ gs) hs =
    trans (Permᴰ.symm (Permᴰ.middle g gs hs)) (register_all-perm gs (g ∷ hs))

pub locates_alike :
    (machine : Machine) (locals : Locals) (fuel : ℕ) (gs : List CmdGroup) (cmd : Text)
    → Permᴰ (program_groups machine locals fuel) gs
    → locate_command (register_all gs []) cmd
      ≡ locate_command (program_groups machine locals fuel) cmd
locates_alike machine locals fuel gs cmd p =
    let groups = program_groups machine locals fuel in
    sym (
      locate_command-perm groups (register_all gs []) cmd
        (trans p (rw (append-nil gs) at (register_all-perm gs [])))
        (program_names-DistinctNames machine locals fuel))

module _ (gs hs : List CmdGroup)
    (alike : (cmd : Text) → locate_command gs cmd ≡ locate_command hs cmd) (path : Text)
    (k : Kernel) (log : Log) where
  run_as_link-alike :
      (args : List Text)
      → is_option_line args ≡ false
      → run_as_link gs (path ∷ args) k log ≡ run_as_link hs (path ∷ args) k log
  unfolding run_as_link
  run_as_link-alike args h = ground (
    arith,
    alike (base_name path),
    iotools_fallback_rejects gs path args k log h,
    iotools_fallback_rejects hs path args k log h,
  )

  run_command-alike :
      (args : List Text)
      → is_option_line args ≡ false
      → run_command gs (path ∷ args) k log ≡ run_command hs (path ∷ args) k log
  unfolding run_command
  run_command-alike [] h = run_as_link-alike [] h
  run_command-alike (s ∷ args) h = ground (arith, alike s, run_as_link-alike (s ∷ args) h)

  main-alike :
      (args : List Text)
      → is_option_line args ≡ false
      → main gs (path ∷ args) k log ≡ main hs (path ∷ args) k log
  unfolding main
  main-alike args h = ground (arith, run_command-alike args h)

-- In whatever order the files register their groups, before `main` runs, a line does the same: the
-- same command on the same arguments, the same calls and the same exit status. Only a line of one
-- option of the binary itself is left out, since --list-cmds prints in that order.
pub main_in_any_order :
    (machine : Machine) (locals : Locals) (fuel : ℕ) (gs : List CmdGroup) (path : Text)
    (args : List Text) (k : Kernel) (log : Log)
    → Permᴰ (program_groups machine locals fuel) gs
    → is_option_line args ≡ false
    → main (register_all gs []) (path ∷ args) k log
      ≡ main (program_groups machine locals fuel) (path ∷ args) k log
main_in_any_order machine locals fuel gs path args k log p h =
    main-alike (register_all gs []) (program_groups machine locals fuel)
      (λ cmd. locates_alike machine locals fuel gs cmd p) path k log args h
