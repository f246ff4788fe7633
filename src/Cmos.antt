-- ===== src/Cmos.antt =====
-- cmos_rw.c: the commands cmos_read and cmos_write, on /dev/nvram.
pub mod Laws
pub mod Tests
use iotools.Base.{
  ℕ, ◌+◌, ◌-◌, ◌%◌, ◌^◌, Bool, true, false, List, [], ◌∷◌, ◌++◌, Option, none, some, ltb, ◌==◌,
  if◌then◌else◌,
}
use iotools.Base.Int.{ℤ, pos, minus_one, is_negative, to_off}
use iotools.Libc.Text.{Text, text}
use iotools.Libc.Print.{hex_padded, dec}
use iotools.Libc.Strtoul.{strtoul}
use iotools.Kernel.{M}
use iotools.Kernel.Calls.{
  pure, ◌>>=◌, ◌>>◌, arg, print, complain, complain_errno, open_file, lseek, read, write, close,
  o_rdonly, o_wronly,
}
use iotools.Command.{SizeParam, CmdInfo, CmdGroup, fixed_args, make_cmd_with_params}

-- `DEVICE`
abbrev pub nvram : Text
nvram = text "/dev/nvram"

-- `NVRAM_OFFSET`: the bytes below are the clock's.
abbrev pub nvram_offset : ℕ
nvram_offset = 14

abbrev open_failed : M ℤ
open_failed = complain_errno (text "open(\"/dev/nvram\")") >> pure minus_one

abbrev seek_failed : ℕ → ℕ → M ℤ
seek_failed fd index = do
  complain_errno (text "lseek(" ++ (dec index ++ text ")"))
  close fd
  pure minus_one

abbrev read_failed : ℕ → M ℤ
read_failed fd = do complain_errno (text "read()"); close fd; pure minus_one

abbrev write_failed : ℕ → M ℤ
write_failed fd = do complain_errno (text "write()"); close fd; pure minus_one

abbrev below_offset : M ℤ
below_offset = complain (text "can't read bytes below 14\n") >> pure minus_one

-- `read(fd, &data, 1) != 1`, and what follows.
abbrev finish_read : ℕ → Option (List ℕ) → M ℤ
finish_read fd (some (data_byte ∷ [])) = do
  close fd
  print (text "0x" ++ (hex_padded 2 data_byte ++ text "\n"))
  pure (pos 0)
finish_read fd (some []) = read_failed fd
finish_read fd (some (a ∷ b ∷ bytes)) = read_failed fd
finish_read fd none = read_failed fd

abbrev read_at : ℕ → Option ℕ → M ℤ
read_at index none = open_failed
read_at index (some fd) = do
  r ← lseek fd (to_off index)
  if is_negative r then seek_failed fd index else (read fd 1 >>= finish_read fd)

-- `cmos_rd`
unfoldable pub cmos_rd : SizeParam → List Text → M ℤ
cmos_rd size argv = do
  s ← arg argv 1
  let index = (strtoul 0 s).0
  if ltb index nvram_offset
      then below_offset
      else (open_file nvram o_rdonly >>= read_at (index - nvram_offset))

abbrev finish_write : ℕ → Option ℕ → M ℤ
finish_write fd none = write_failed fd
finish_write fd (some n) = if n == 1 then close fd >> pure (pos 0) else write_failed fd

abbrev write_at : ℕ → ℕ → Option ℕ → M ℤ
write_at index value none = open_failed
write_at index value (some fd) = do
  r ← lseek fd (to_off index)
  if is_negative r then seek_failed fd index else (write fd (value ∷ []) >>= finish_write fd)

-- `cmos_wr`
unfoldable pub cmos_wr : SizeParam → List Text → M ℤ
cmos_wr size argv = do
  s ← arg argv 1
  let index = (strtoul 0 s).0
  if ltb index nvram_offset then below_offset else (do
    t ← arg argv 2
    let value = (strtoul 0 t).0 % 2 ^ 8
    open_file nvram o_wronly >>= write_at (index - nvram_offset) value)

-- `cmos_cmds`
unfoldable pub cmos_cmds : List CmdInfo
cmos_cmds =
    make_cmd_with_params (text "cmos_read") cmos_rd (fixed_args 2 (text "<index>") 0)
    ∷ make_cmd_with_params (text "cmos_write") cmos_wr (fixed_args 3 (text "<index> <data>") 0)
    ∷ []

-- `CMOS_group`
unfoldable pub cmos_group : CmdGroup
unfolding cmos_cmds
cmos_group = record {
  name = text "CMOS";
  description = some (text "commands to access the CMOS registers");
  commands = cmos_cmds;
}
