-- ===== src/Smbus/Transfer/Laws.antt =====
-- The operations of the SMBus commands return, and leave the descriptors as they are.
use iotools.Base.{
  false, true, ◌∷◌, ◌%◌, ◌^◌, ℕ, ◌≡◌, refl, arith, length, ltb, Bool-cases, inl, inr, List, take,
}
use iotools.Base.Int.{ℤ, pos, is_negative}
use iotools.Kernel.{
  block_process_call, transferred, addressed, I2cCall, read_i2c_block_data, read_block_data, rdwr,
  Kernel, Log,
}
use iotools.Kernel.Calls.{pure, ◌>>◌, for_each, print}
use iotools.Libc.Print.{upper_hex_padded}
use iotools.Libc.Text.{text}
use iotools.Platform.{overwrite}
use iotools.Kernel.Devices.{open_count}
use iotools.Kernel.Bounds.{IsBounded}
use iotools.Kernel.Balance.{Returns, Returns-bind, IsSame, for_each-print-IsSame}
use iotools.Smbus.{
  array_size, zeroed, SmbusSize, size_8, size_16, size_32, size_64, size_block, size_byte, quick,
  proc_call, block_proc_call, write_read, SmbusOpParams,
}
use iotools.Smbus.Transfer.{
  clamp_block, print_read_data, smbus_read_op, smbus_write_op, smbus_process_call_op,
  smbus_block_process_call_op, smbus_writeread_op,
}

pub smbus_write_op-IsSame :
    (params : SmbusOpParams) (op_size : SmbusSize) (k : Kernel) (log : Log) (fd : ℕ)
    → Returns (IsSame fd log) (smbus_write_op params op_size k log)
unfolding smbus_write_op open_count
smbus_write_op-IsSame params size_8 k log fd = ground arith
smbus_write_op-IsSame params size_16 k log fd = ground arith
smbus_write_op-IsSame params size_32 k log fd = ground arith
smbus_write_op-IsSame params size_64 k log fd = ground arith
smbus_write_op-IsSame params size_block k log fd = ground arith
smbus_write_op-IsSame params size_byte k log fd = ground arith
smbus_write_op-IsSame params quick k log fd = ground arith
smbus_write_op-IsSame params proc_call k log fd = ground arith
smbus_write_op-IsSame params block_proc_call k log fd = ground arith
smbus_write_op-IsSame params write_read k log fd = ground arith

pub print_read_data-IsSame :
    (op_size : SmbusSize) (n : ℤ) (memory : List ℕ) (k : Kernel) (log : Log) (fd : ℕ)
    → Returns (IsSame fd log) (print_read_data op_size n memory k log)
print_read_data-IsSame size_block n memory k log fd =
    unfold print_read_data in
    Returns-bind (IsSame fd log) (IsSame fd log)
      (for_each (take (clamp_block n) memory) (λ b. print (upper_hex_padded 2 b)))
      (λ _. print (text "\n")) k log
      (for_each-print-IsSame (upper_hex_padded 2) (take (clamp_block n) memory) k log fd)
      (λ a log' same. unfold open_count in same)
print_read_data-IsSame size_8 n memory k log fd =
    unfold print_read_data in unfold open_count in refl
print_read_data-IsSame size_16 n memory k log fd =
    unfold print_read_data in unfold open_count in refl
print_read_data-IsSame size_32 n memory k log fd =
    unfold print_read_data in unfold open_count in refl
print_read_data-IsSame size_64 n memory k log fd =
    unfold print_read_data in unfold open_count in refl
print_read_data-IsSame size_byte n memory k log fd =
    unfold print_read_data in unfold open_count in refl
print_read_data-IsSame quick n memory k log fd = unfold print_read_data in refl
print_read_data-IsSame proc_call n memory k log fd = unfold print_read_data in refl
print_read_data-IsSame block_proc_call n memory k log fd = unfold print_read_data in refl
print_read_data-IsSame write_read n memory k log fd = unfold print_read_data in refl

-- The end of an operation that succeeded.
printed-IsSame :
    (n : ℤ) (memory : List ℕ) (k : Kernel) (log : Log) (fd : ℕ)
    → Returns (IsSame fd log) ((print_read_data size_block n memory >> pure (pos 0)) k log)
printed-IsSame n memory k log fd =
    Returns-bind (IsSame fd log) (IsSame fd log) (print_read_data size_block n memory)
      (λ _. pure (pos 0)) k log (print_read_data-IsSame size_block n memory k log fd)
      (λ a log' same. same)

-- There is room for a reply in the array.
reply-fits :
    (k : Kernel) (log : Log) (fd : ℕ) (call : I2cCall)
    → IsBounded k
    → ltb array_size (length (k.i2c log fd call).1) ≡ false
reply-fits k log fd call bounds = let h = bounds.replies log fd call in ground arith

pub smbus_read_op-IsSame :
    (params : SmbusOpParams) (op_size : SmbusSize) (k : Kernel) (log : Log) (fd : ℕ)
    → IsBounded k
    → Returns (IsSame fd log) (smbus_read_op params op_size k log)
unfolding smbus_read_op open_count
smbus_read_op-IsSame params size_8 k log fd bounds = ground arith
smbus_read_op-IsSame params size_16 k log fd bounds = ground arith
smbus_read_op-IsSame params size_32 k log fd bounds =
    let fits = reply-fits k log params.fd (read_i2c_block_data params.reg 4) bounds in ground arith
smbus_read_op-IsSame params size_64 k log fd bounds =
    let fits = reply-fits k log params.fd (read_i2c_block_data params.reg 8) bounds in ground arith
smbus_read_op-IsSame params size_block k log fd bounds =
    let r = k.i2c log params.fd (read_block_data params.reg) in
    let fits = reply-fits k log params.fd (read_block_data params.reg) bounds in
    rw (Returns, fits)
      (elim (Bool-cases (is_negative r.0)) [
        | inl e ↦ rw e refl
        | inr e ↦ rw e (
            printed-IsSame r.0 (overwrite r.1 zeroed) k
              (transferred params.fd (read_block_data params.reg) r.0 r.1 ∷ log) fd)
      ])
smbus_read_op-IsSame params size_byte k log fd bounds = ground arith
smbus_read_op-IsSame params quick k log fd bounds = ground arith
smbus_read_op-IsSame params proc_call k log fd bounds = ground arith
smbus_read_op-IsSame params block_proc_call k log fd bounds = ground arith
smbus_read_op-IsSame params write_read k log fd bounds = ground arith

pub smbus_process_call_op-IsSame :
    (params : SmbusOpParams) (op_size : SmbusSize) (k : Kernel) (log : Log) (fd : ℕ)
    → Returns (IsSame fd log) (smbus_process_call_op params op_size k log)
unfolding smbus_process_call_op open_count
smbus_process_call_op-IsSame params op_size k log fd = ground arith

pub smbus_block_process_call_op-IsSame :
    (params : SmbusOpParams) (op_size : SmbusSize) (k : Kernel) (log : Log) (fd : ℕ)
    → IsBounded k
    → Returns (IsSame fd log) (smbus_block_process_call_op params op_size k log)
unfolding smbus_block_process_call_op open_count
smbus_block_process_call_op-IsSame params op_size k log fd bounds =
    let log1 = addressed params.fd true params.address true ∷ log in
    let call = block_process_call params.reg (take (params.len % 2 ^ 8) params.memory) in
    let r = k.i2c log1 params.fd call in
    let fits = reply-fits k log1 params.fd call bounds in
    elim (Bool-cases (k.slave log params.fd true params.address)) [
      | inr refused ↦ rw (Returns, refused) refl
      | inl ready ↦
          rw (Returns, ready)
            (rw fits (elim (Bool-cases (is_negative r.0)) [
              | inl e ↦ rw e refl
              | inr e ↦ rw e (
                  printed-IsSame r.0 (overwrite r.1 params.memory) k
                    (transferred params.fd call r.0 r.1 ∷ log1) fd)
            ]))
    ]

pub smbus_writeread_op-IsSame :
    (params : SmbusOpParams) (op_size : SmbusSize) (k : Kernel) (log : Log) (fd : ℕ)
    → Returns (IsSame fd log) (smbus_writeread_op params op_size k log)
unfolding smbus_writeread_op open_count
smbus_writeread_op-IsSame params op_size k log fd =
    let call = rdwr params.address (take params.len params.memory) params.read_count in
    let r = k.i2c log params.fd call in
    elim (Bool-cases (is_negative r.0)) [
      | inl e ↦ rw e refl
      | inr e ↦ rw e (
          printed-IsSame (pos params.read_count) (overwrite r.1 params.memory) k
            (transferred params.fd call r.0 r.1 ∷ log) fd)
    ]
