-- ===== src/IoPort.antt =====
-- io_rw.c: the commands io_read8 to io_write32. On x86 they use the port instructions, elsewhere
-- the file /dev/port.
pub mod Laws
pub mod Tests
use iotools.Base.{
  ℕ, ◌+◌, ◌-◌, ◌*◌, ◌%◌, ◌^◌, Bool, true, false, List, [], ◌∷◌, ◌++◌, Option, none, some, ◌==◌,
  if◌then◌else◌, length, drop,
}
use iotools.Base.Int.{ℤ, pos, minus_one, is_minus_one, to_int}
use iotools.Libc.Text.{Text, text}
use iotools.Libc.Print.{hex_padded, dec_int}
use iotools.Libc.Strtoul.{strtoul}
use iotools.Kernel.{M}
use iotools.Kernel.Calls.{
  pure, ◌>>=◌, ◌>>◌, arg, print, complain, complain_errno, open_file, lseek, read, write, close,
  o_rdonly, o_wronly, port_in, port_out, arch_x86, big_endian,
}
use iotools.Platform.{native_word, native_bytes, overwrite}
use iotools.Command.{
  SizeParam, PrereqParams, CmdInfo, CmdGroup, fixed_args, make_cmd_with_params_size,
}

-- The first half of `io_in` and `io_out`: /dev/port at the port's offset, or none for -1.
unfoldable pub open_port : ℤ → ℕ → M (Option ℕ)
open_port iobase mode = do
  r ← open_file (text "/dev/port") mode
  elim r [
    | none ↦ complain_errno (text "open(\"/dev/port\")") >> pure none
    | some fd ↦ do
      r ← lseek fd iobase
      if is_minus_one r
          then (do
            complain_errno (text "lseek(" ++ (dec_int iobase ++ text ")"))
            close fd
            pure none)
          else pure (some fd)
  ]

-- `io_in`, on the memory of a variable; the descriptor is not closed after read().
unfoldable pub io_in : ℤ → ℕ → List ℕ → M (List ℕ)
unfolding open_port
io_in iobase size memory = do
  opened ← open_port iobase o_rdonly
  elim opened [
    | none ↦ pure memory
    | some fd ↦ do
      r ← read fd size
      elim r [ none ↦ pure memory | some bytes ↦ pure (overwrite bytes memory) ]
  ]

-- The value that `inb`, `inw` and `inl` start from where they are not the machine's.
abbrev pub unread : ℕ → ℕ
unread bytes = if bytes == 1 then 0xff else 0xffff

-- `inb`, `inw` and `inl`, by the number of bytes. The instructions take a 16-bit port, the functions
-- an int.
unfoldable pub port_read : ℕ → ℕ → M ℕ
unfolding io_in
port_read bytes iobase = do
  x86 ← arch_x86
  if x86 then port_in bytes (iobase % 2 ^ 16) else (do
    big ← big_endian
    memory ← io_in (to_int (pos iobase)) bytes (native_bytes big bytes (unread bytes))
    pure (native_word big memory))

-- `io_out`; the descriptor is not closed after write().
unfoldable pub io_out : ℤ → List ℕ → M (Unit {0})
unfolding open_port
io_out iobase bytes = do
  opened ← open_port iobase o_wronly
  elim opened [ none ↦ pure tt | some fd ↦ write fd bytes >> pure tt ]

-- `outb`, `outw` and `outl`, by the number of bytes
unfoldable pub port_write : ℕ → ℕ → ℕ → M (Unit {0})
unfolding io_out
port_write bytes value iobase = do
  x86 ← arch_x86
  if x86
      then port_out bytes (iobase % 2 ^ 16) value
      else (big_endian >>= λ big. io_out (to_int (pos iobase)) (native_bytes big bytes value))

-- `DO_READ` of `io_read_x`
abbrev do_read : ℕ → ℕ → M ℤ
do_read bytes iobase = do
  value ← port_read bytes iobase
  print (text "0x" ++ (hex_padded (bytes * 2) value ++ text "\n"))
  pure (pos 0)

-- `io_read_x`
unfoldable pub io_read_x : SizeParam → List Text → M ℤ
io_read_x size argv = do
  s ← arg argv 1
  let iobase = (strtoul 0 s).0
  elim size [
    | none ↦ complain (text "invalid io_read entry\n") >> pure minus_one
    | some bits ↦
        if bits == 8
        then do_read 1 iobase
        else if bits == 16
        then do_read 2 iobase
        else if bits == 32
        then do_read 4 iobase
        else (complain (text "invalid io_read entry\n") >> pure minus_one)
  ]

-- `DO_WRITE` of `io_write_x`
abbrev do_write : ℕ → ℕ → ℕ → M ℤ
do_write bytes ldata iobase = port_write bytes (ldata % 256 ^ bytes) iobase >> pure (pos 0)

-- `io_write_x`
unfoldable pub io_write_x : SizeParam → List Text → M ℤ
io_write_x size argv = do
  s ← arg argv 1
  t ← arg argv 2
  let iobase = (strtoul 0 s).0
  let ldata = (strtoul 0 t).0
  elim size [
    | none ↦ complain (text "invalid io_write entry\n") >> pure minus_one
    | some bits ↦
        if bits == 8
        then do_write 1 ldata iobase
        else if bits == 16
        then do_write 2 ldata iobase
        else if bits == 32
        then do_write 4 ldata iobase
        else (complain (text "invalid io_write entry\n") >> pure minus_one)
  ]

abbrev pub rd_params : PrereqParams
rd_params = fixed_args 2 (text "<io_addr>") 3

abbrev pub wr_params : PrereqParams
wr_params = fixed_args 3 (text "<io_addr> <data>") 3

-- `io_cmds`
unfoldable pub io_cmds : List CmdInfo
io_cmds =
    make_cmd_with_params_size (text "io_read8") io_read_x rd_params 8
    ∷ make_cmd_with_params_size (text "io_write8") io_write_x wr_params 8
    ∷ make_cmd_with_params_size (text "io_read16") io_read_x rd_params 16
    ∷ make_cmd_with_params_size (text "io_write16") io_write_x wr_params 16
    ∷ make_cmd_with_params_size (text "io_read32") io_read_x rd_params 32
    ∷ make_cmd_with_params_size (text "io_write32") io_write_x wr_params 32
    ∷ []

-- `IO_group`
unfoldable pub io_group : CmdGroup
unfolding io_cmds
io_group = record {
  name = text "IO";
  description = some (text "commands to access registers in the IO address space");
  commands = io_cmds;
}
