-- ===== src/Smbus/Transfer.antt =====
-- smbus_rw.c: the operations `perform_op`, and what they print.
pub mod Laws
use iotools.Base.{
  ℕ, ◌+◌, ◌%◌, ◌^◌, Bool, true, false, List, [], ◌∷◌, ◌++◌, Option, none, some, ltb, ◌==◌,
  if◌then◌else◌, take, length,
}
use iotools.Base.Int.{ℤ, pos, minus_one, is_negative, to_unsigned, int_eq}
use iotools.Libc.Text.{Text, text}
use iotools.Libc.Print.{upper_hex_padded}
use iotools.Kernel.{
  M, I2cCall, read_byte, read_byte_data, read_word_data, read_block_data, read_i2c_block_data,
  write_quick, write_byte, write_byte_data, write_word_data, write_block_data, write_i2c_block_data,
  process_call, block_process_call, rdwr,
}
use iotools.Kernel.Calls.{
  pure, fault, ◌>>=◌, ◌>>◌, for_each, print, complain, complain_errno, error_text, big_endian,
  slave, i2c,
}
use iotools.Platform.{overwrite}
use iotools.Smbus.{
  SmbusSize, size_8, size_16, size_32, size_64, size_block, size_byte, quick, proc_call,
  block_proc_call, write_read, SmbusOpParams, block_max, array_size, fixed, set_fixed, zeroed,
}

-- The number of bytes of a block that are printed.
abbrev pub clamp_block : ℤ → ℕ
clamp_block (pos n) = if ltb block_max n then block_max else n
clamp_block n = 0

abbrev print_fixed : ℕ → List ℕ → M (Unit {0})
print_fixed n memory = big_endian >>= λ big.
    print (text "0x" ++ (upper_hex_padded (n + n) (fixed big n memory) ++ text "\n"))

-- `print_read_data`
unfoldable pub print_read_data : SmbusSize → ℤ → List ℕ → M (Unit {0})
unfolding for_each
print_read_data size_byte n memory = print_fixed 1 memory
print_read_data size_8 n memory = print_fixed 1 memory
print_read_data size_16 n memory = print_fixed 2 memory
print_read_data size_32 n memory = print_fixed 4 memory
print_read_data size_64 n memory = print_fixed 8 memory
print_read_data size_block n memory =
    for_each (take (clamp_block n) memory) (λ b. print (upper_hex_padded 2 b)) >> print (text "\n")
print_read_data quick n memory = pure tt
print_read_data proc_call n memory = pure tt
print_read_data block_proc_call n memory = pure tt
print_read_data write_read n memory = pure tt

-- The messages "…, %s\n" with strerror(errno).
abbrev complain_reason : Text → ℕ → M (Unit {0})
complain_reason what number = error_text >>= λ e.
    complain
      (what ++ (text " 0x" ++ (upper_hex_padded 2 number ++ (text ", " ++ (e ++ text "\n")))))

-- The bytes of a reply, copied into the array.
abbrev pub store_reply : List ℕ → List ℕ → M (List ℕ)
store_reply bytes memory =
    if ltb array_size (length bytes) then fault else pure (overwrite bytes memory)

-- A call that returns a number, assigned to the member of `data.fixed` of `n` bytes.
abbrev read_fixed : SmbusOpParams → ℕ → I2cCall → M (Option (ℤ × List ℕ))
read_fixed params n call = do
  (result, bytes) ← i2c params.fd call
  big ← big_endian
  pure (some (result, set_fixed big n (to_unsigned 32 result) zeroed))

-- The cases for 4 and 8 bytes, in which the bytes come as a block.
abbrev read_wide : SmbusOpParams → ℕ → M (Option (ℤ × List ℕ))
read_wide params n = do
  (result, bytes) ← i2c params.fd (read_i2c_block_data params.reg n)
  memory ← store_reply bytes zeroed
  pure (some (if int_eq result (pos n) then result else minus_one, memory))

-- The `switch` of `smbus_read_op`: `result` and the data, or none in the default case
unfoldable pub read_transfer : SmbusSize → SmbusOpParams → M (Option (ℤ × List ℕ))
read_transfer size_8 params = read_fixed params 1 (read_byte_data params.reg)
read_transfer size_16 params = read_fixed params 2 (read_word_data params.reg)
read_transfer size_32 params = read_wide params 4
read_transfer size_64 params = read_wide params 8
read_transfer size_block params = do
  (result, bytes) ← i2c params.fd (read_block_data params.reg)
  memory ← store_reply bytes zeroed
  pure (some (result, memory))
read_transfer size_byte params = read_fixed params 1 read_byte
read_transfer quick params = pure none
read_transfer proc_call params = pure none
read_transfer block_proc_call params = pure none
read_transfer write_read params = pure none

-- `op->size != SMBUS_SIZE_BYTE`
abbrev is_size_byte : SmbusSize → Bool
is_size_byte size_byte = true
is_size_byte _ = false

abbrev read_failed : SmbusSize → SmbusOpParams → M ℤ
read_failed op_size params =
    (if is_size_byte op_size
      then complain_reason (text "can't read from device") params.address
      else complain_reason (text "can't read register") params.reg)
    >> pure minus_one

-- `smbus_read_op`
unfoldable pub smbus_read_op : SmbusOpParams → SmbusSize → M ℤ
unfolding read_transfer print_read_data
smbus_read_op params op_size = do
  transfer ← read_transfer op_size params
  elim transfer [
    | none ↦ complain (text "Illegal SMBus size for read operation.\n") >> pure minus_one
    | some (result, memory) ↦
        if is_negative result
        then read_failed op_size params
        else (print_read_data op_size result memory >> pure (pos 0))
  ]

-- The ioctl that begins the operations that write
unfoldable pub force_address : SmbusOpParams → M Bool
force_address params = do
  set ← slave params.fd true params.address
  if set
      then pure true
      else (complain_reason (text "can't set address") params.address >> pure false)

-- The calls in the `switch` of `smbus_write_op`; none in the default case
unfoldable pub write_call : Bool → SmbusSize → SmbusOpParams → Option I2cCall
write_call big size_8 params = some (write_byte_data params.reg (fixed big 1 params.memory))
write_call big size_16 params = some (write_word_data params.reg (fixed big 2 params.memory))
write_call big size_32 params = some (write_i2c_block_data params.reg (take 4 params.memory))
write_call big size_64 params = some (write_i2c_block_data params.reg (take 8 params.memory))
write_call big size_block params =
    some (write_block_data params.reg (take (params.len % 2 ^ 8) params.memory))
write_call big size_byte params = some (write_byte (fixed big 1 params.memory))
write_call big quick params = some (write_quick (fixed big 1 params.memory))
write_call big proc_call params = none
write_call big block_proc_call params = none
write_call big write_read params = none

abbrev pub has_no_register : SmbusSize → Bool
has_no_register size_byte = true
has_no_register quick = true
has_no_register _ = false

abbrev write_failed : SmbusSize → SmbusOpParams → M ℤ
write_failed op_size params =
    (if has_no_register op_size
      then complain_reason (text "can't write to device") params.address
      else complain_reason (text "can't write register") params.reg)
    >> pure minus_one

-- `smbus_write_op`
unfoldable pub smbus_write_op : SmbusOpParams → SmbusSize → M ℤ
unfolding force_address write_call
smbus_write_op params op_size = do
  ready ← force_address params
  big ← big_endian
  if ready
      then elim (write_call big op_size params) [
        | none ↦ complain (text "Illegal SMBus size for write operation.\n") >> pure minus_one
        | some call ↦ do
          (result, bytes) ← i2c params.fd call
          if is_negative result then write_failed op_size params else pure (pos 0)
      ]
      else pure minus_one

abbrev call_failed : M ℤ
call_failed = error_text >>= λ e.
    complain (text "SMBUS Process call failed: " ++ (e ++ text ".\n")) >> pure minus_one

-- `smbus_process_call_op`
unfoldable pub smbus_process_call_op : SmbusOpParams → SmbusSize → M ℤ
unfolding force_address print_read_data
smbus_process_call_op params op_size = do
  ready ← force_address params
  big ← big_endian
  if ready
      then (do
        (result, bytes) ← i2c params.fd (process_call params.reg (fixed big 2 params.memory))
        if is_negative result
            then call_failed
            else (print_read_data size_16 (pos 0) params.memory >> pure (pos 0)))
      else pure minus_one

-- `smbus_block_process_call_op`
unfoldable pub smbus_block_process_call_op : SmbusOpParams → SmbusSize → M ℤ
unfolding force_address print_read_data
smbus_block_process_call_op params op_size = do
  ready ← force_address params
  if ready
      then (do
        (result, bytes) ←
            i2c params.fd (block_process_call params.reg (take (params.len % 2 ^ 8) params.memory))
        memory ← store_reply bytes params.memory
        if is_negative result
            then call_failed
            else (print_read_data size_block result memory >> pure (pos 0)))
      else pure minus_one

-- `smbus_writeread_op`
unfoldable pub smbus_writeread_op : SmbusOpParams → SmbusSize → M ℤ
unfolding print_read_data
smbus_writeread_op params op_size = do
  (rv, bytes) ←
      i2c params.fd (rdwr params.address (take params.len params.memory) params.read_count)
  if is_negative rv
      then complain_errno (text "I2C_RDWR failed") >> pure minus_one
      else (print_read_data size_block (pos params.read_count) (overwrite bytes params.memory)
          >> pure (pos 0))
