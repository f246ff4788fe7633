-- ===== src/Msr.antt =====
-- msr.c: the commands rdmsr and wrmsr, on /dev/cpu/N/msr. The file is compiled for x86 only.
pub mod Laws
pub mod Refines
pub mod Tests
use iotools.Base.{
  ℕ, ◌+◌, Bool, true, false, List, [], ◌∷◌, ◌++◌, Option, none, some, ◌==◌, if◌then◌else◌, length,
}
use iotools.Base.Int.{ℤ, pos, minus_one, is_minus_one, to_int, to_off}
use iotools.Libc.Text.{Text, text}
use iotools.Libc.Print.{hex_padded, dec, dec_int}
use iotools.Libc.Strtoul.{strtoul, strtol}
use iotools.Kernel.{M}
use iotools.Kernel.Calls.{
  pure, ◌>>=◌, ◌>>◌, arg, print, complain_errno, open_file, lseek, read, write, close, o_rdonly,
  o_wronly, big_endian,
}
use iotools.Platform.{native_word, native_bytes}
use iotools.Command.{SizeParam, CmdInfo, CmdGroup, fixed_args, make_cmd_with_params}

-- The file name that `open_and_seek` builds; it fits `dev[512]`.
abbrev pub msr_device : ℤ → Text
msr_device cpu = text "/dev/cpu/" ++ (dec_int cpu ++ text "/msr")

abbrev seek_in : ℕ → Option ℕ → Text → M (Option ℕ)
seek_in msr none dev = complain_errno (text "open(\"" ++ (dev ++ text "\")")) >> pure none
seek_in msr (some fd) dev = do
  r ← lseek fd (to_off msr)
  if is_minus_one r
      then (do complain_errno (text "lseek(" ++ (dec msr ++ text ")")); close fd; pure none)
      else pure (some fd)

-- `open_and_seek`: the descriptor, or none for -1.
unfoldable pub open_and_seek : ℤ → ℕ → ℕ → M (Option ℕ)
open_and_seek cpu msr mode = do let dev = msr_device cpu; r ← open_file dev mode; seek_in msr r dev

abbrev read_failed : ℕ → M ℤ
read_failed fd = do complain_errno (text "read()"); close fd; pure minus_one

abbrev finish_read : ℕ → Option (List ℕ) → M ℤ
finish_read fd none = read_failed fd
finish_read fd (some bytes) =
    if length bytes == 8
    then (do
      close fd
      big ← big_endian
      print (text "0x" ++ (hex_padded 16 (native_word big bytes) ++ text "\n"))
      pure (pos 0))
    else read_failed fd

-- `rd_msr`
unfoldable pub rd_msr : SizeParam → List Text → M ℤ
rd_msr size argv = do
  s ← arg argv 1
  t ← arg argv 2
  opened ← open_and_seek (to_int (strtol 0 s)) (strtoul 0 t).0 o_rdonly
  elim opened [ none ↦ pure minus_one | some fd ↦ read fd 8 >>= finish_read fd ]

abbrev finish_write : ℕ → Option ℕ → M ℤ
finish_write fd none = do complain_errno (text "write()"); close fd; pure minus_one
finish_write fd (some n) =
    if n == 8
    then close fd >> pure (pos 0)
    else (do complain_errno (text "write()"); close fd; pure minus_one)

-- `wr_msr`
unfoldable pub wr_msr : SizeParam → List Text → M ℤ
wr_msr size argv = do
  s ← arg argv 1
  t ← arg argv 2
  u ← arg argv 3
  big ← big_endian
  let bytes = native_bytes big 8 (strtoul 0 u).0
  opened ← open_and_seek (to_int (strtol 0 s)) (strtoul 0 t).0 o_wronly
  elim opened [ none ↦ pure minus_one | some fd ↦ write fd bytes >>= finish_write fd ]

-- `msr_cmds`
unfoldable pub msr_cmds : List CmdInfo
msr_cmds =
    make_cmd_with_params (text "rdmsr") rd_msr (fixed_args 3 (text "<cpu> <msr>") 0)
    ∷ make_cmd_with_params (text "wrmsr") wr_msr (fixed_args 4 (text "<cpu> <msr> <data>") 0)
    ∷ []

-- `MSR_group`
unfoldable pub msr_group : CmdGroup
unfolding msr_cmds
msr_group = record {
  name = text "MSR";
  description = some (text "commands to access CPU model specific registers");
  commands = msr_cmds;
}
