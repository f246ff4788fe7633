-- ===== src/Smbus/Commands.antt =====
-- smbus_rw.c: the entry points and their table.
pub mod Laws
pub mod WriteRead
use iotools.Base.{
  ℕ, Bool, true, false, not, ◌||◌, List, [], ◌∷◌, ◌++◌, Option, none, some, ltb, if◌then◌else◌,
}
use iotools.Base.Int.{ℤ, pos, minus_one}
use iotools.Libc.Text.{Text, text}
use iotools.Libc.Print.{dec}
use iotools.Kernel.{M}
use iotools.Kernel.Calls.{
  pure, ◌>>=◌, ◌>>◌, arg, complain, complain_errno, error_text, open_file, close, slave, o_rdwr,
}
use iotools.Command.{SizeParam, PrereqParams, CmdInfo, CmdGroup, fixed_args, make_cmd_with_params}
use iotools.Smbus.{
  SmbusSize, size_8, size_16, size_32, size_64, size_block, size_byte, quick, proc_call,
  block_proc_call, write_read, SmbusOpParams, SmbusOp, block_max, zeroed,
}
use iotools.Smbus.Parse.{parse_uint8, parse_io_width}
use iotools.Smbus.Transfer.{
  has_no_register, smbus_read_op, smbus_write_op, smbus_process_call_op,
  smbus_block_process_call_op, smbus_writeread_op,
}

-- The file name that `open_i2c_slave` builds; for a byte it fits `devfile[15]`.
abbrev pub i2c_device : ℕ → Text
i2c_device i2c_bus = text "/dev/i2c-" ++ dec i2c_bus

abbrev attach : ℕ → ℕ → ℕ → M (Option ℕ)
attach i2c_bus slave_address fd = do
  set ← slave fd false slave_address
  if set then pure (some fd) else (do
    e ← error_text
    complain (
        text "Could not attach to i2c bus "
        ++ (dec i2c_bus
            ++ (text " slave address " ++ (dec slave_address ++ (text ": " ++ (e ++ text "\n"))))))
    close fd
    pure none)

-- `open_i2c_slave`: the descriptor, or none for -1
unfoldable pub open_i2c_slave : ℕ → ℕ → M (Option ℕ)
open_i2c_slave i2c_bus slave_address = do
  r ← open_file (i2c_device i2c_bus) o_rdwr
  elim r [
    | none ↦ complain_errno (text "Couldn't open i2c device file") >> pure none
    | some fd ↦ attach i2c_bus slave_address fd
  ]

-- The params before a field is assigned: the memset of `smbus_writeread`. Elsewhere the fields start
-- with what the stack holds, and none is read before it is assigned.
abbrev pub no_params : SmbusOpParams
no_params = record {
  fd = 0;
  reg = 0;
  i2c_bus = 0;
  address = 0;
  read_count = 0;
  len = 0;
  memory = zeroed;
}

-- The sizes for which `smbus_prologue` parses no register.
abbrev pub skips_register : SmbusSize → Bool
skips_register size_byte = true
skips_register quick = true
skips_register write_read = true
skips_register _ = false

-- A byte on the command line, and the message if it is none.
abbrev pub byte_arg : List Text → ℕ → Text → M (Option ℕ)
byte_arg argv i what = do
  s ← arg argv i
  r ← parse_uint8 s
  elim r [
    | none ↦ complain (text "invalid " ++ (what ++ text " value\n")) >> pure none
    | some v ↦ pure (some v)
  ]

abbrev pub open_slave : SmbusOpParams → M (Option SmbusOpParams)
open_slave params = do
  r ← open_i2c_slave params.i2c_bus params.address
  elim r [
    | none ↦ complain (text "can't open slave\n") >> pure none
    | some fd ↦ pure (some (record params { fd = fd }))
  ]

-- `smbus_prologue` from the register on.
abbrev pub with_register : List Text → SmbusSize → SmbusOpParams → M (Option SmbusOpParams)
with_register argv op_size params = if skips_register op_size then open_slave params else (do
  reg ← byte_arg argv 3 (text "register")
  elim reg [ none ↦ pure none | some r ↦ open_slave (record params { reg = r }) ])

-- `smbus_prologue` from the address on.
abbrev pub with_address : List Text → SmbusSize → ℕ → M (Option SmbusOpParams)
with_address argv op_size i2c_bus = do
  addr ← byte_arg argv 2 (text "address")
  elim addr [
    | none ↦ pure none
    | some address ↦
        with_register argv op_size (record no_params { i2c_bus = i2c_bus; address = address })
  ]

-- `smbus_prologue`: the params, or none for -1
unfoldable pub smbus_prologue : List Text → SmbusSize → M (Option SmbusOpParams)
unfolding parse_uint8 open_i2c_slave
smbus_prologue argv op_size = do
  bus ← byte_arg argv 1 (text "adapter")
  elim bus [ none ↦ pure none | some i2c_bus ↦ with_address argv op_size i2c_bus ]

-- `perform_op`, and what the entry points do behind it.
abbrev pub perform : SmbusOp → SmbusOpParams → M ℤ
perform op params = do ret ← op.perform_op params op.size; close params.fd; pure ret

-- `smbus_read`
unfoldable pub smbus_read : SmbusOp → SizeParam → List Text → M ℤ
smbus_read op info argv = do
  r ← smbus_prologue argv op.size
  elim r [ none ↦ pure minus_one | some params ↦ perform op params ]

-- "%s: %s: invalid value to write\n", and the end of the command
abbrev pub invalid_value : List Text → Text → SmbusOpParams → M ℤ
invalid_value argv value params = do
  name ← arg argv 0
  complain (name ++ (text ": " ++ (value ++ text ": invalid value to write\n")))
  close params.fd
  pure minus_one

-- The value in `argv[i]` is parsed, and the operation performed.
abbrev pub write_value : SmbusOp → ℕ → List Text → SmbusOpParams → M ℤ
write_value op i argv params = do
  s ← arg argv i
  r ← parse_io_width s op.size params
  elim r [ none ↦ invalid_value argv s params | some params' ↦ perform op params' ]

-- `smbus_write`
unfoldable pub smbus_write : SmbusOp → SizeParam → List Text → M ℤ
smbus_write op info argv = do
  r ← smbus_prologue argv op.size
  elim r [
    | none ↦ pure minus_one
    | some params ↦ write_value op (if has_no_register op.size then 3 else 4) argv params
  ]

-- `smbus_process_call`
unfoldable pub smbus_process_call : SmbusOp → SizeParam → List Text → M ℤ
smbus_process_call op info argv = do
  r ← smbus_prologue argv op.size
  elim r [ none ↦ pure minus_one | some params ↦ write_value op 4 argv params ]

-- `smbus_writeread` behind `parse_io_width`; a bad count leaves the descriptor open.
abbrev pub read_back : SmbusOp → List Text → SmbusOpParams → M ℤ
read_back op argv params = do
  s ← arg argv 4
  r ← parse_uint8 s
  elim r [
    | none ↦ complain (text "invalid read count " ++ (s ++ text ".\n")) >> pure minus_one
    | some read_count ↦
        if ltb block_max read_count
        then (do
          t ← arg argv 3
          complain (text "read count " ++ (t ++ text " > 32.\n"))
          pure minus_one)
        else perform op (record params { read_count = read_count })
  ]

-- `smbus_writeread`
unfoldable pub smbus_writeread : SmbusOp → SizeParam → List Text → M ℤ
smbus_writeread op info argv = do
  r ← smbus_prologue argv op.size
  elim r [
    | none ↦ pure minus_one
    | some params ↦ do
      s ← arg argv 3
      v ← parse_io_width s op.size params
      elim v [ none ↦ invalid_value argv s params | some params' ↦ read_back op argv params' ]
  ]

-- `MAKE_SMBUS_OP`
abbrev pub make_smbus_op : SmbusSize → (SmbusOpParams → SmbusSize → M ℤ) → SmbusOp
make_smbus_op op_size perform_op = record { size = op_size; perform_op = perform_op }

abbrev smbus_read_params : PrereqParams
smbus_read_params = fixed_args 4 (text "<adapter> <address> <register>") 0

abbrev smbus_write_params : PrereqParams
smbus_write_params = fixed_args 5 (text "<adapter> <address> <register> <value>") 0

abbrev smbus_receive_byte_params : PrereqParams
smbus_receive_byte_params = fixed_args 3 (text "<adapter> <address>") 0

abbrev smbus_send_byte_params : PrereqParams
smbus_send_byte_params = fixed_args 4 (text "<adapter> <address> <value>") 0

abbrev smbus_quick_params : PrereqParams
smbus_quick_params = fixed_args 4 (text "<adapter> <address> <0|1>") 0

abbrev pub smbus_writeread_params : PrereqParams
smbus_writeread_params = fixed_args 5 (text "<adapter> <address> <write_value> <read_count>") 0

-- `MAKE_SMBUS_RW_CMDS`
abbrev pub smbus_rw_cmds : Text → SmbusSize → List CmdInfo
smbus_rw_cmds name op_size =
    make_cmd_with_params (text "smbus_read" ++ name)
      (smbus_read (make_smbus_op op_size smbus_read_op)) smbus_read_params
    ∷ make_cmd_with_params (text "smbus_write" ++ name)
        (smbus_write (make_smbus_op op_size smbus_write_op)) smbus_write_params
    ∷ []

-- The entries of `smbus_cmds` behind the pairs
abbrev pub smbus_other_cmds : List CmdInfo
smbus_other_cmds =
    make_cmd_with_params (text "smbus_receive_byte")
      (smbus_read (make_smbus_op size_byte smbus_read_op)) smbus_receive_byte_params
    ∷ make_cmd_with_params (text "smbus_send_byte")
        (smbus_write (make_smbus_op size_byte smbus_write_op)) smbus_send_byte_params
    ∷ make_cmd_with_params (text "smbus_quick") (smbus_write (make_smbus_op quick smbus_write_op))
        smbus_quick_params
    ∷ make_cmd_with_params (text "smbus_process_call")
        (smbus_process_call (make_smbus_op proc_call smbus_process_call_op)) smbus_write_params
    ∷ make_cmd_with_params (text "smbus_block_process_call")
        (smbus_process_call (make_smbus_op block_proc_call smbus_block_process_call_op))
        smbus_write_params
    ∷ make_cmd_with_params (text "smbus_writeread")
        (smbus_writeread (make_smbus_op write_read smbus_writeread_op)) smbus_writeread_params
    ∷ []

-- `smbus_cmds`
unfoldable pub smbus_cmds : List CmdInfo
smbus_cmds =
    smbus_rw_cmds (text "8") size_8
    ++ (smbus_rw_cmds (text "16") size_16
        ++ (smbus_rw_cmds (text "32") size_32
            ++ (smbus_rw_cmds (text "64") size_64
                ++ (smbus_rw_cmds (text "block") size_block ++ smbus_other_cmds))))

-- `SMBus_group`
unfoldable pub smbus_group : CmdGroup
smbus_group = record {
  name = text "SMBus";
  description = some (text "commands to access the system management bus");
  commands = smbus_cmds;
}
