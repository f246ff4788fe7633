-- ===== src/Pci.antt =====
-- pci_rw.c: the commands pci_read8 to pci_write32, on the config files of sysfs and procfs.
pub mod Listing
pub mod Laws
pub mod Tests
use iotools.Base.{
  ℕ, ◌+◌, ◌*◌, ◌%◌, ◌^◌, Bool, true, false, List, [], ◌∷◌, ◌++◌, Option, none, some, ltb, ◌==◌,
  if◌then◌else◌, length,
}
use iotools.Base.Int.{ℤ, pos, minus_one, is_negative, to_unsigned}
use iotools.Libc.Text.{Text, text}
use iotools.Libc.Print.{hex, hex_padded, dec}
use iotools.Libc.Strtoul.{strtoul, strtol}
use iotools.Kernel.{M}
use iotools.Kernel.Calls.{
  pure, ◌>>=◌, ◌>>◌, arg, print, complain, complain_errno, open_file, lseek, read, write, close,
  o_rdonly, o_wronly, big_endian,
}
use iotools.Platform.{native_word, native_bytes, le_to_host, host_to_le}
use iotools.Command.{SizeParam, PrereqParams, CmdInfo, var_args, make_cmd_with_params_size}

-- The arguments of `open_device`, as the words that printf's %x shows.
pub record PciDevice : Type 0 where
  pub segment : ℕ
  pub bus : ℕ
  pub device : ℕ
  pub function : ℕ

-- "%02x:%02x.%x" and "%02x/%02x.%x"
abbrev device_name : Text → PciDevice → Text
device_name separator d =
    hex_padded 2 d.bus ++ (separator ++ (hex_padded 2 d.device ++ (text "." ++ hex d.function)))

abbrev pub with_segment : Text → PciDevice → Text
with_segment separator d = hex_padded 4 d.segment ++ (text ":" ++ device_name separator d)

abbrev pub sysfs_file : PciDevice → Text
sysfs_file d = text "/sys/bus/pci/devices/" ++ (with_segment (text ":") d ++ text "/config")

abbrev pub procfs_file : PciDevice → Text
procfs_file d =
    text "/proc/bus/pci/"
    ++ (if d.segment == 0 then device_name (text "/") d else with_segment (text "/") d)

-- `open_device`: the descriptor, or none for -1. sysfs comes first, then procfs.
unfoldable pub open_device : PciDevice → ℕ → M (Option ℕ)
open_device d mode = do
  by_sysfs ← open_file (sysfs_file d) mode
  elim by_sysfs [
    | some fd ↦ pure (some fd)
    | none ↦ do
      by_procfs ← open_file (procfs_file d) mode
      elim by_procfs [
        | some fd ↦ pure (some fd)
        | none ↦ do
          complain_errno (
              text "Unable to open file to access PCI device '"
              ++ (with_segment (text ":") d ++ text "'"))
          pure none
      ]
  ]

-- The arguments from `argv[i]` on that name the register: the device, and the offset.
abbrev device_args : ℕ → ℕ → List Text → M (PciDevice × ℕ)
device_args segment i argv = do
  b ← arg argv i
  d ← arg argv (i + 1)
  f ← arg argv (i + 2)
  r ← arg argv (i + 3)
  pure (
    record {
      segment = segment;
      bus = to_unsigned 32 (strtol 0 b);
      device = (strtoul 0 d).0 % 2 ^ 32;
      function = (strtoul 0 f).0 % 2 ^ 32;
    },
    (strtoul 0 r).0 % 2 ^ 32,
  )

-- The number of arguments without a segment is `argc`; the index behind the arguments comes last.
unfoldable pub parse_args : ℕ → List Text → M ((PciDevice × ℕ) × ℕ)
parse_args argc argv =
    if ltb argc (length argv)
    then (do s ← arg argv 1; r ← device_args (to_unsigned 32 (strtol 0 s)) 2 argv; pure (r, 6))
    else (do r ← device_args 0 1 argv; pure (r, 5))

abbrev pub seek_failed : ℕ → M ℤ
seek_failed reg = complain_errno (text "lseek(" ++ (dec reg ++ text ")")) >> pure minus_one

-- The bytes of a size that the commands have.
abbrev pub width_of : SizeParam → Option ℕ
width_of none = none
width_of (some bits) =
    if bits == 8 then some 1 else if bits == 16 then some 2 else if bits == 32 then some 4 else none

-- Behind the read() of `DO_READ`; only a success closes the descriptor.
abbrev finish_read : ℕ → ℕ → Option (List ℕ) → M ℤ
finish_read fd n none = complain_errno (text "read()") >> pure minus_one
finish_read fd n (some bytes) =
    if length bytes == n
    then (do
      big ← big_endian
      print (
          text "0x" ++ (hex_padded (n * 2) (le_to_host big n (native_word big bytes)) ++ text "\n"))
      close fd
      pure (pos 0))
    else (complain_errno (text "read()") >> pure minus_one)

abbrev read_register : SizeParam → ℕ → ℕ → M ℤ
read_register size reg fd = do
  r ← lseek fd (pos reg)
  if is_negative r then seek_failed reg else elim (width_of size) [
    | none ↦ complain (text "invalid pci_read entry\n") >> pure minus_one
    | some n ↦ read fd n >>= finish_read fd n
  ]

-- `pci_read_x`
unfoldable pub pci_read_x : SizeParam → List Text → M ℤ
pci_read_x size argv = do
  ((d, reg), i) ← parse_args 5 argv
  opened ← open_device d o_rdonly
  elim opened [ none ↦ pure minus_one | some fd ↦ read_register size reg fd ]

-- Behind the write() of `DO_WRITE`; only a success closes the descriptor.
abbrev finish_write : ℕ → ℕ → Option ℕ → M ℤ
finish_write fd n none = complain_errno (text "write()") >> pure minus_one
finish_write fd n (some count) =
    if count == n
    then close fd >> pure (pos 0)
    else (complain_errno (text "write()") >> pure minus_one)

abbrev write_register : SizeParam → ℕ → ℕ → ℕ → M ℤ
write_register size reg ldata fd = do
  r ← lseek fd (pos reg)
  if is_negative r then seek_failed reg else elim (width_of size) [
    | none ↦ complain (text "invalid pci_read entry\n") >> pure minus_one
    | some n ↦ do
      big ← big_endian
      write fd (native_bytes big n (host_to_le big n (ldata % 256 ^ n))) >>= finish_write fd n
  ]

-- `pci_write_x`
unfoldable pub pci_write_x : SizeParam → List Text → M ℤ
pci_write_x size argv = do
  ((d, reg), i) ← parse_args 6 argv
  v ← arg argv i
  opened ← open_device d o_wronly
  elim opened [ none ↦ pure minus_one | some fd ↦ write_register size reg (strtoul 0 v).0 fd ]

abbrev pub rd_params : PrereqParams
rd_params = var_args 5 6 (text "[segment] <bus> <dev> <func> <reg>") 0

abbrev pub wr_params : PrereqParams
wr_params = var_args 6 7 (text "[segment] <bus> <dev> <func> <reg> <data>") 0

-- The entries of `pci_cmds` that access registers
unfoldable pub pci_rw_cmds : List CmdInfo
pci_rw_cmds =
    make_cmd_with_params_size (text "pci_read8") pci_read_x rd_params 8
    ∷ make_cmd_with_params_size (text "pci_write8") pci_write_x wr_params 8
    ∷ make_cmd_with_params_size (text "pci_read16") pci_read_x rd_params 16
    ∷ make_cmd_with_params_size (text "pci_write16") pci_write_x wr_params 16
    ∷ make_cmd_with_params_size (text "pci_read32") pci_read_x rd_params 32
    ∷ make_cmd_with_params_size (text "pci_write32") pci_write_x wr_params 32
    ∷ []
