-- ===== src/Program/Uses/Transfer.antt =====
-- The SMBus operations.
use iotools.Base.{
  ℕ, ◌%◌, ◌^◌, List, ◌∷◌, take, refl, arith, true, ltb, length, Bool-cases, inl, inr,
}
use iotools.Base.Int.{ℤ, pos, is_negative}
use iotools.Platform.{overwrite}
use iotools.Kernel.{
  Kernel, Log, M, addressed, transferred, read_block_data, block_process_call, rdwr,
}
use iotools.Kernel.Calls.{◌>>◌, pure, for_each, print}
use iotools.Libc.Text.{text}
use iotools.Libc.Print.{upper_hex_padded}
use iotools.Kernel.Devices.{open_count}
use iotools.Kernel.Uses.{
  uses_open, Leaves, InUse, Stays, Stays-bind, Quietly, Quietly-Stays, Quietly-bind,
  Quietly-for_each,
}
use iotools.Smbus.{
  SmbusSize, size_8, size_16, size_32, size_64, size_block, size_byte, quick, proc_call,
  block_proc_call, write_read, SmbusOpParams, array_size, zeroed,
}
use iotools.Smbus.Transfer.{
  clamp_block, print_read_data, read_transfer, smbus_read_op, force_address, write_call,
  smbus_write_op, smbus_process_call_op, smbus_block_process_call_op, smbus_writeread_op,
}

print_read_data-Quietly :
    (op_size : SmbusSize) (n : ℤ) (memory : List ℕ) (k : Kernel) (log : Log) (fd : ℕ)
    → Quietly fd log (print_read_data op_size n memory k log)
unfolding print_read_data open_count uses_open
print_read_data-Quietly size_byte n memory k log fd = (refl, refl)
print_read_data-Quietly size_8 n memory k log fd = (refl, refl)
print_read_data-Quietly size_16 n memory k log fd = (refl, refl)
print_read_data-Quietly size_32 n memory k log fd = (refl, refl)
print_read_data-Quietly size_64 n memory k log fd = (refl, refl)
print_read_data-Quietly size_block n memory k log fd =
    let bytes = take (clamp_block n) memory in
    Quietly-bind (for_each bytes (λ b. print (upper_hex_padded 2 b))) (λ _. print (text "\n")) k log
      fd
      (Quietly-for_each (λ b. print (upper_hex_padded 2 b)) bytes k log fd (λ b log'. (refl, refl)))
      (λ _ log'. (refl, refl))
print_read_data-Quietly quick n memory k log fd = (refl, refl)
print_read_data-Quietly proc_call n memory k log fd = (refl, refl)
print_read_data-Quietly block_proc_call n memory k log fd = (refl, refl)
print_read_data-Quietly write_read n memory k log fd = (refl, refl)

-- The end of an operation that succeeded.
printed-Stays :
    (n : ℤ) (memory : List ℕ) (k : Kernel) (log : Log) (fd : ℕ)
    → InUse fd log
    → Stays fd ((print_read_data size_block n memory >> pure (pos 0)) k log)
printed-Stays n memory k log fd h =
    Stays-bind (print_read_data size_block n memory) (λ _. pure (pos 0)) k log fd
      (Quietly-Stays fd log (print_read_data size_block n memory k log)
        (print_read_data-Quietly size_block n memory k log fd) h)
      (λ _ log' h'. h')

-- An operation of `perform_op`, on the descriptor of the params.
abbrev pub IsStaying : (SmbusOpParams → SmbusSize → M ℤ) → Type 0
IsStaying op =
    (params : SmbusOpParams) (op_size : SmbusSize) (k : Kernel) (log : Log)
    → InUse params.fd log
    → Stays params.fd (op params op_size k log)

pub smbus_write_op-IsStaying : IsStaying smbus_write_op
unfolding smbus_write_op force_address write_call open_count uses_open
smbus_write_op-IsStaying params size_block k log h = ground arith
smbus_write_op-IsStaying params size_8 k log h = ground arith
smbus_write_op-IsStaying params size_16 k log h = ground arith
smbus_write_op-IsStaying params size_32 k log h = ground arith
smbus_write_op-IsStaying params size_64 k log h = ground arith
smbus_write_op-IsStaying params size_byte k log h = ground arith
smbus_write_op-IsStaying params quick k log h = ground arith
smbus_write_op-IsStaying params proc_call k log h = ground arith
smbus_write_op-IsStaying params block_proc_call k log h = ground arith
smbus_write_op-IsStaying params write_read k log h = ground arith

pub smbus_read_op-IsStaying : IsStaying smbus_read_op
unfolding smbus_read_op read_transfer open_count uses_open
smbus_read_op-IsStaying params size_8 k log h = unfold print_read_data in ground arith
smbus_read_op-IsStaying params size_16 k log h = unfold print_read_data in ground arith
smbus_read_op-IsStaying params size_32 k log h = unfold print_read_data in ground arith
smbus_read_op-IsStaying params size_64 k log h = unfold print_read_data in ground arith
smbus_read_op-IsStaying params size_byte k log h = unfold print_read_data in ground arith
smbus_read_op-IsStaying params quick k log h = unfold print_read_data in ground arith
smbus_read_op-IsStaying params proc_call k log h = unfold print_read_data in ground arith
smbus_read_op-IsStaying params block_proc_call k log h = unfold print_read_data in ground arith
smbus_read_op-IsStaying params write_read k log h = unfold print_read_data in ground arith
smbus_read_op-IsStaying params size_block k log h =
    let r = k.i2c log params.fd (read_block_data params.reg) in
    let log' = transferred params.fd (read_block_data params.reg) r.0 r.1 ∷ log in
    let kept : InUse params.fd log' = ground arith in
    elim (Bool-cases (ltb array_size (length r.1))) [
      | inl over ↦ rw (Leaves, over) tt
      | inr fits ↦
          rw (Leaves, fits)
            (elim (Bool-cases (is_negative r.0)) [
              | inl e ↦ rw (Leaves, e) kept
              | inr e ↦
                  rw (Leaves, e) (printed-Stays r.0 (overwrite r.1 zeroed) k log' params.fd kept)
            ])
    ]

pub smbus_process_call_op-IsStaying : IsStaying smbus_process_call_op
unfolding smbus_process_call_op force_address print_read_data open_count uses_open
smbus_process_call_op-IsStaying params op_size k log h = ground arith

pub smbus_block_process_call_op-IsStaying : IsStaying smbus_block_process_call_op
unfolding smbus_block_process_call_op force_address open_count uses_open
smbus_block_process_call_op-IsStaying params op_size k log h =
    let log1 = addressed params.fd true params.address true ∷ log in
    let call = block_process_call params.reg (take (params.len % 2 ^ 8) params.memory) in
    let r = k.i2c log1 params.fd call in
    let log2 = transferred params.fd call r.0 r.1 ∷ log1 in
    let kept : InUse params.fd log2 = ground arith in
    elim (Bool-cases (k.slave log params.fd true params.address)) [
      | inr refused ↦ rw (Leaves, refused) (ground arith)
      | inl ready ↦
          rw (Leaves, ready)
            (elim (Bool-cases (ltb array_size (length r.1))) [
              | inl over ↦ rw (Leaves, over) tt
              | inr room ↦
                  rw (Leaves, room)
                    (elim (Bool-cases (is_negative r.0)) [
                      | inl e ↦ rw (Leaves, e) kept
                      | inr e ↦
                          rw (Leaves, e)
                            (printed-Stays r.0 (overwrite r.1 params.memory) k log2 params.fd kept)
                    ])
            ])
    ]

pub smbus_writeread_op-IsStaying : IsStaying smbus_writeread_op
unfolding smbus_writeread_op open_count uses_open
smbus_writeread_op-IsStaying params op_size k log h =
    let call = rdwr params.address (take params.len params.memory) params.read_count in
    let r = k.i2c log params.fd call in
    let log' = transferred params.fd call r.0 r.1 ∷ log in
    let kept : InUse params.fd log' = ground arith in
    elim (Bool-cases (is_negative r.0)) [
      | inl e ↦ rw (Leaves, e) kept
      | inr e ↦
          rw (Leaves, e)
            (printed-Stays (pos params.read_count) (overwrite r.1 params.memory) k log' params.fd
              kept)
    ]
