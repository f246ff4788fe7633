-- ===== src/Smbus.antt =====
-- smbus_rw.c: the commands smbus_read8 to smbus_writeread, on i2c devices. The calls of
-- linux-i2c-dev.h are the kernel's.
pub mod Parse
pub mod Transfer
pub mod Blocks
pub mod Commands
pub mod Registers
pub mod Tests
use iotools.Base.{ℕ, ◌+◌, Bool, List, take, replicate}
use iotools.Base.Int.{ℤ}
use iotools.Kernel.{M}
use iotools.Platform.{native_word, native_bytes, overwrite}

-- `SMBUS_SIZE`
pub data SmbusSize : Type 0 where
  size_8 size_16 size_32 size_64 size_block size_byte : SmbusSize
  quick proc_call block_proc_call write_read : SmbusSize

-- `I2C_SMBUS_BLOCK_MAX`
abbrev pub block_max : ℕ
block_max = 32

-- The bytes of `array` in `SMBUS_DTYPE`.
abbrev pub array_size : ℕ
array_size = block_max + 2

-- `smbus_op_params`; `memory` is the array of the union `data`.
pub record SmbusOpParams : Type 0 where
  pub fd : ℕ
  pub reg : ℕ
  pub i2c_bus : ℕ
  pub address : ℕ
  pub read_count : ℕ
  pub len : ℕ
  pub memory : List ℕ

-- The member of `data.fixed` of `n` bytes.
abbrev pub fixed : Bool → ℕ → List ℕ → ℕ
fixed big n memory = native_word big (take n memory)

-- An assignment to the member of `data.fixed` of `n` bytes, which keeps the low bits.
abbrev pub set_fixed : Bool → ℕ → ℕ → List ℕ → List ℕ
set_fixed big n v memory = overwrite (native_bytes big n v) memory

-- memset(array, 0, sizeof(array))
abbrev pub zeroed : List ℕ
zeroed = replicate array_size 0

-- `smbus_op`. Of the operation that `perform_op` receives it reads the size.
pub record SmbusOp : Type 0 where
  pub size : SmbusSize
  pub perform_op : SmbusOpParams → SmbusSize → M ℤ
