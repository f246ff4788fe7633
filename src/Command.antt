-- ===== src/Command.antt =====
-- commands.h: how a subcommand and a group of them are described. The pointer `info` that an
-- entry point receives is read for two things only: `privdata`, to which an entry is already
-- applied in a table here, and `sizedata`, which the entry receives.
use iotools.Base.{ℕ, ◌^◌, ◌-◌, List, Option, none, some}
use iotools.Base.Int.{ℤ, pos, minus_one}
use iotools.Libc.Text.{Text}
use iotools.Kernel.{M}

-- `min_args` and `max_args` count argv[0].
pub record PrereqParams : Type 0 where
  pub min_args : ℕ
  pub max_args : ℕ
  pub usage : Text
  pub iopl_needed : ℕ

abbrev pub var_args : ℕ → ℕ → Text → ℕ → PrereqParams
var_args min_args max_args usage iopl = record {
  min_args = min_args;
  max_args = max_args;
  usage = usage;
  iopl_needed = iopl;
}

abbrev pub fixed_args : ℕ → Text → ℕ → PrereqParams
fixed_args nargs usage iopl = var_args nargs nargs usage iopl

abbrev pub int_max : ℕ
int_max = 2 ^ 31 - 1

-- `sizedata`: the bits of the operation, if the command has a size.
abbrev pub SizeParam : Type 0
SizeParam = Option ℕ

pub record CmdInfo : Type 0 where
  pub name : Text
  pub entry : SizeParam → List Text → M ℤ
  pub params : Option PrereqParams
  pub sizedata : SizeParam

pub record CmdGroup : Type 0 where
  pub name : Text
  pub description : Option Text
  pub commands : List CmdInfo

-- `get_command_size(info)`: -1 without a size.
abbrev pub get_command_size : SizeParam → ℤ
get_command_size none = minus_one
get_command_size (some size) = pos size

-- The commands of a table: MAKE_CMD, MAKE_CMD_WITH_PARAMS and MAKE_CMD_WITH_PARAMS_SIZE.
abbrev pub make_cmd : Text → (SizeParam → List Text → M ℤ) → CmdInfo
make_cmd name entry = record { name = name; entry = entry; params = none; sizedata = none }

abbrev pub make_cmd_with_params : Text → (SizeParam → List Text → M ℤ) → PrereqParams → CmdInfo
make_cmd_with_params name entry params = record {
  name = name;
  entry = entry;
  params = some params;
  sizedata = none;
}

abbrev pub make_cmd_with_params_size :
    Text → (SizeParam → List Text → M ℤ) → PrereqParams → ℕ → CmdInfo
make_cmd_with_params_size name entry params size = record {
  name = name;
  entry = entry;
  params = some params;
  sizedata = some size;
}
