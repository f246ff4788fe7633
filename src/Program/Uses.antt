-- ===== src/Program/Uses.antt =====
-- No command uses a descriptor that is not open.
pub mod Devices
pub mod Others
pub mod Lists
pub mod Cpu
pub mod Transfer
pub mod Smbus
pub mod Tables
pub mod Lines
pub mod Dump
use iotools.Base.{◌≡◌, true, List}
use iotools.Libc.Text.{Text}
use iotools.Kernel.{Kernel, Log, M}
use iotools.Base.Int.{ℤ}
use iotools.Kernel.Uses.{uses_open, Orderly}
use iotools.Command.{CmdInfo, SizeParam}

-- On every list of arguments, and whatever the system answers.
abbrev pub IsOrderly : (SizeParam → List Text → M ℤ) → Type 0
IsOrderly entry =
    (size : SizeParam) (argv : List Text) (k : Kernel) (log : Log)
    → uses_open log ≡ true
    → Orderly (entry size argv k log)

abbrev pub IsOrderlyCmd : CmdInfo → Type 0
IsOrderlyCmd c = IsOrderly c.entry
