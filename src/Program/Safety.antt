-- ===== src/Program/Safety.antt =====
-- Which lines C leaves undefined, and what the system is relied on for.
pub mod Tables
pub mod Devices
pub mod Options
pub mod Lines
pub mod Sharp
use iotools.Base.{
  ℕ, ◌<◌, ◌^◌, ◌≡◌, Bool, true, false, ◌&&◌, ◌||◌, List, [], ◌∷◌, ◌++◌, some, leb, length,
}
use iotools.Libc.Text.{Text, text, str_eq}
use iotools.Libc.Print.{hex}
use iotools.Kernel.{Kernel, Log}
use iotools.Command.{CmdInfo}
use iotools.Commands.Links.{filename_max}
use iotools.Kernel.Bounds.{IsBounded}
use iotools.Commands.Balance.{IsModest}
use iotools.Commands.Prereqs.{run_located}
use iotools.Commands.Safety.{Defined}
use iotools.Commands.Safety.Entries.{bad_count}
use iotools.Logic.{value}
use iotools.Scom.Cpu.Laws.{pir_text}

-- A shift by the width or more of what is shifted, or a count of lines below -1, which busy_loop
-- would count up to until the counter overflows.
unfoldable pub is_risky : Text → List Text → Bool
unfolding str_eq
is_risky command (s ∷ t ∷ []) =
    ((str_eq command (text "shl") || str_eq command (text "shr")) && leb 64 (value t))
    || ((str_eq command (text "bts") || str_eq command (text "btr")) && leb 32 (value t))
is_risky command args = str_eq command (text "busy_loop") && bad_count args

-- What Linux documents: /proc/self/exe is an absolute path, shorter than FILENAME_MAX, and sysfs
-- shows a register in hexadecimal digits with a newline. Only cpu_to_pir reads 64 bytes. Pages and
-- SMBus replies are bounded.
pub record IsLinux (k : Kernel) : Type 0 where
  pub bounded : IsBounded k
  pub exe :
      (log : Log) (path : Text)
      → k.readlink log (text "/proc/self/exe") ≡ some path
      → (s : Text) × (path ≡ b'/' ∷ s) × (length path < filename_max)
  pub pir :
      (log : Log) (fd : ℕ) (bytes : List ℕ)
      → k.read log fd 64 ≡ some bytes
      → (n : ℕ) × (n < 2 ^ 64) × (bytes ≡ pir_text n)

-- The line is neither risky nor too long.
abbrev pub IsCalm : Text → List Text → Type 0
IsCalm command args = (is_risky command args ≡ false) × IsModest command args

-- The command is safe on every line that is calm.
abbrev pub IsSafeUnlessRisky : CmdInfo → Type 0
IsSafeUnlessRisky c =
    (k : Kernel)
    → IsLinux k
    → (log : Log) (name : Text) (args : List Text) → IsCalm c.name args
    → Defined (run_located (name ∷ args) c k log)
