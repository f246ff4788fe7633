-- ===== src/Smbus/Registers.antt =====
-- A device on the bus whose registers keep what is written to them.
pub mod Laws
pub mod RoundTrip
pub mod Tests
use iotools.Base.{
  ℕ, ◌≡◌, Bool, true, false, ◌&&◌, List, [], ◌∷◌, Option, none, some, ◌==◌, if◌then◌else◌, length,
}
use iotools.Base.Int.{ℤ, pos}
use iotools.Kernel.{
  Kernel, Log, transferred, I2cCall, read_byte_data, read_word_data, read_i2c_block_data,
  write_byte_data, write_word_data, write_i2c_block_data,
}
use iotools.Kernel.Calls.{o_rdwr}
use iotools.Smbus.Commands.{i2c_device}

-- What reading gives if this was the last write; none if the write was of something else.
abbrev pub reply_after : I2cCall → I2cCall → Option (ℤ × List ℕ)
reply_after (write_byte_data reg v) (read_byte_data reg') =
    if reg == reg' then some (pos v, []) else none
reply_after (write_word_data reg v) (read_word_data reg') =
    if reg == reg' then some (pos v, []) else none
reply_after (write_i2c_block_data reg bytes) (read_i2c_block_data reg' n) =
    if reg == reg' && length bytes == n then some (pos n, bytes) else none
reply_after _ _ = none

-- The reply by the last write in the log that stored what the call reads.
unfoldable pub last_stored : ℕ → I2cCall → Log → Option (ℤ × List ℕ)
last_stored fd call [] = none
last_stored fd call (transferred fd' write result bytes ∷ log) =
    let rest = last_stored fd call log in
    if fd == fd' then (elim (reply_after write call) [ some r ↦ some r | none ↦ rest ]) else rest
last_stored fd call (e ∷ log) = last_stored fd call log

abbrev pub is_store : I2cCall → Bool
is_store (write_byte_data reg v) = true
is_store (write_word_data reg v) = true
is_store (write_i2c_block_data reg bytes) = true
is_store _ = false

-- On this bus and at this address stands such a device, and `fd` is what opening the bus gives.
pub record IsRegisters (k : Kernel) (i2c_bus address fd : ℕ) : Type 0 where
  pub opens : (log : Log) → k.open_file log (i2c_device i2c_bus) o_rdwr ≡ some fd
  pub answers : (log : Log) (forced : Bool) → k.slave log fd forced address ≡ true
  pub stores : (log : Log) (call : I2cCall) → is_store call ≡ true → k.i2c log fd call ≡ (pos 0, [])
  pub gives :
      (log : Log) (call : I2cCall) (r : ℤ × List ℕ)
      → is_store call ≡ false
      → last_stored fd call log ≡ some r
      → k.i2c log fd call ≡ r
