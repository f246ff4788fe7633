-- ===== src/Kernel/Bounds.antt =====
-- What Linux bounds.
use iotools.Base.{ℕ, ◌≤◌, ◌^◌, length}
use iotools.Kernel.{Kernel, Log, I2cCall}

-- A page has 64 KiB at most, and the reply to a call on an SMBus at most I2C_SMBUS_BLOCK_MAX bytes.
pub record IsBounded (k : Kernel) : Type 0 where
  pub pages : k.page_size ≤ 2 ^ 16
  pub replies : (log : Log) (fd : ℕ) (call : I2cCall) → length (k.i2c log fd call).1 ≤ 32
