-- ===== src/Scom.antt =====
-- scom.c: the commands getscom and putscom, on the SCOM files of debugfs. It is compiled for
-- POWER only.
pub mod Cpu
pub mod Laws
pub mod Tests
use iotools.Base.{
  ℕ, ◌+◌, ◌-◌, ◌*◌, ◌%◌, ◌^◌, bit_and, bit_or, Bool, true, false, List, [], ◌∷◌, ◌++◌, Option, none,
  some, ◌==◌, if◌then◌else◌, length,
}
use iotools.Base.Int.{ℤ, pos, minus_one, is_minus_one, to_unsigned, to_off}
use iotools.Libc.Text.{Text, text}
use iotools.Libc.Print.{hex_padded, dec_int}
use iotools.Libc.Strtoul.{strtoul, strtol}
use iotools.Kernel.{M}
use iotools.Kernel.Calls.{
  pure, ◌>>=◌, ◌>>◌, arg, print, complain_errno, open_file, lseek, read, write, close, o_rdonly,
  o_wronly, big_endian,
}
use iotools.Platform.{native_word, native_bytes}
use iotools.Command.{SizeParam, PrereqParams, CmdInfo, fixed_args, make_cmd_with_params}

-- The offset that `open_and_seek` computes: the address in units of 8 bytes without its high bit, and
-- bit 62 in place of that.
unfoldable pub scom_offset : ℕ → ℕ
scom_offset scom =
    let offset = bit_and scom (2 ^ 63 - 1) * 2 ^ 3 % 2 ^ 64 in
    if bit_and scom (2 ^ 63) == 0 then offset else bit_or offset (2 ^ 62)

-- The file name that `open_and_seek` builds; it fits `dev[512]`.
abbrev pub scom_device : ℕ → Text
scom_device chip = text "/sys/kernel/debug/powerpc/scom/" ++ (hex_padded 8 chip ++ text "/access")

abbrev seek_in : ℤ → Option ℕ → Text → M (Option ℕ)
seek_in offset none dev = complain_errno (text "open(\"" ++ (dev ++ text "\")")) >> pure none
seek_in offset (some fd) dev = do
  r ← lseek fd offset
  if is_minus_one r
      then (do complain_errno (text "lseek(" ++ (dec_int offset ++ text ")")); close fd; pure none)
      else pure (some fd)

-- `open_and_seek`: the descriptor, or none for -1. `chip` is the word of the int.
unfoldable pub open_and_seek : ℕ → ℕ → ℕ → M (Option ℕ)
open_and_seek chip scom mode = do
  r ← open_file (scom_device chip) mode
  seek_in (to_off (scom_offset scom)) r (scom_device chip)

abbrev read_failed : ℕ → M ℤ
read_failed fd = do complain_errno (text "read()"); close fd; pure minus_one

abbrev finish_read : ℕ → Option (List ℕ) → M ℤ
finish_read fd none = read_failed fd
finish_read fd (some bytes) =
    if length bytes == 8
    then (do
      close fd
      big ← big_endian
      print (text "0x" ++ (hex_padded 16 (native_word big bytes) ++ text "\n"))
      pure (pos 0))
    else read_failed fd

-- `rd_scom`
unfoldable pub rd_scom : SizeParam → List Text → M ℤ
rd_scom size argv = do
  s ← arg argv 1
  t ← arg argv 2
  opened ← open_and_seek (to_unsigned 32 (strtol 0 s)) (strtoul 0 t).0 o_rdonly
  elim opened [ none ↦ pure minus_one | some fd ↦ read fd 8 >>= finish_read fd ]

-- The result is -1 after a write() that failed or came short; the descriptor is closed in any case.
abbrev finish_write : ℕ → Option ℕ → M ℤ
finish_write fd none = do complain_errno (text "write()"); close fd; pure minus_one
finish_write fd (some n) =
    if n == 8
    then close fd >> pure (pos 0)
    else (do complain_errno (text "write()"); close fd; pure minus_one)

-- `wr_scom`
unfoldable pub wr_scom : SizeParam → List Text → M ℤ
wr_scom size argv = do
  s ← arg argv 1
  t ← arg argv 2
  u ← arg argv 3
  opened ← open_and_seek (to_unsigned 32 (strtol 0 s)) (strtoul 0 t).0 o_wronly
  elim opened [
    | none ↦ pure minus_one
    | some fd ↦ do
      big ← big_endian
      write fd (native_bytes big 8 (strtoul 0 u).0) >>= finish_write fd
  ]

-- The entries of `scom_cmds` for registers
unfoldable pub scom_rw_cmds : List CmdInfo
scom_rw_cmds =
    make_cmd_with_params (text "getscom") rd_scom (fixed_args 3 (text "<chipid> <scom>") 0)
    ∷ make_cmd_with_params (text "putscom") wr_scom (fixed_args 4 (text "<chipid> <scom> <data>") 0)
    ∷ []
