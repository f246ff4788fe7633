-- ===== src/Program.antt =====
-- The whole program: the groups that the files register, in a build for one machine, and the
-- binary that runs on them.
pub mod Order
pub mod Safety
pub mod Uses
pub mod Tests
use iotools.Base.{ℕ, Bool, true, false, List, [], ◌∷◌, ◌++◌}
use iotools.Command.{CmdGroup}
use iotools.Commands.Locate.{register_command_group}
use iotools.Cmos.{cmos_group}
use iotools.IoPort.{io_group}
use iotools.Logic.{logic_group}
use iotools.Misc.{misc_group}
use iotools.Mmio.{mmio_group, mem_group}
use iotools.Msr.{msr_group}
use iotools.Pci.Listing.{pci_group}
use iotools.Scom.Cpu.{Locals, scom_group}
use iotools.Smbus.Commands.{smbus_group}

-- What the preprocessor tells the machines apart by: msr.c is empty but under ARCH_X86, and scom.c
-- but on POWER.
pub data Machine : Type 0 where
  x86 power other : Machine

abbrev pub is_x86 : Machine → Bool
is_x86 x86 = true
is_x86 power = false
is_x86 other = false

abbrev pub machine_groups : Machine → Locals → List CmdGroup
machine_groups x86 locals = msr_group ∷ []
machine_groups power locals = scom_group locals ∷ []
machine_groups other locals = []

-- The groups that the files register with REGISTER_CMD_GROUP. `fuel` is what busy_loop has, and
-- `locals` what the local variables of scom.c hold before they are assigned.
unfoldable pub program_groups : Machine → Locals → ℕ → List CmdGroup
program_groups machine locals fuel =
    cmos_group
    ∷ io_group
    ∷ logic_group
    ∷ misc_group (is_x86 machine) fuel
    ∷ mmio_group
    ∷ mem_group
    ∷ pci_group
    ∷ smbus_group
    ∷ machine_groups machine locals

-- The constructors run one after the other, before `main`, and `group_head` starts as NULL.
unfoldable pub register_all : List CmdGroup → List CmdGroup → List CmdGroup
unfolding register_command_group
register_all [] group_head = group_head
register_all (g ∷ gs) group_head = register_all gs (register_command_group g group_head).0
