-- ===== src/Smbus/Registers/RoundTrip.antt =====
-- smbus_write8 to smbus_write64, and smbus_read8 to smbus_read64 behind them.
use iotools.Base.{ℕ, ◌+◌, ◌<◌, ◌^◌, ◌≡◌, refl, ◌∙◌, false, [], ◌∷◌, ◌++◌, none, some, if◌then◌else◌}
use iotools.Base.Int.{ℤ, pos, minus_one}
use iotools.Libc.Text.{Text, text}
use iotools.Libc.Print.{upper_hex_padded}
use iotools.Libc.Strtoul.{strtoul}
use iotools.Kernel.{Kernel, Log, M, done, closed, printed}
use iotools.Kernel.Calls.{pure, ◌>>◌, close}
use iotools.Kernel.Loops.{bind_done}
use iotools.Smbus.{SmbusSize, SmbusOpParams, SmbusOp, set_fixed, zeroed}
use iotools.Smbus.Parse.{parse_io_width}
use iotools.Smbus.Transfer.{smbus_read_op, smbus_write_op, has_no_register}
use iotools.Smbus.Commands.{
  smbus_prologue, smbus_read, smbus_write, write_value, invalid_value, perform, make_smbus_op,
  skips_register,
}
use iotools.Smbus.Registers.{IsRegisters}
use iotools.Smbus.Registers.Laws.IsNumber.{one, two, four, eight}
use iotools.Smbus.Registers.Laws.{
  IsNumber, bound_params, bound_log, stored_log, read_call, reply, smbus_prologue-opens,
  parse_io_width-number, smbus_write_op-stores, smbus_read_op-prints, last_stored-stored_log,
  is_store-read_call,
}

has_register :
    {size : SmbusSize} {n : ℕ}
    → IsNumber size n
    → (skips_register size ≡ false) × (has_no_register size ≡ false)
has_register one = (refl, refl)
has_register two = (refl, refl)
has_register four = (refl, refl)
has_register eight = (refl, refl)

perform-closes :
    (op : SmbusOp) (params : SmbusOpParams) (k : Kernel) (log log' : Log) (ret : ℤ)
    → op.perform_op params op.size k log ≡ done ret log'
    → perform op params k log ≡ done ret (closed params.fd ∷ log')
perform-closes op params k log log' ret e =
    bind_done (op.perform_op params op.size) (λ r. close params.fd >> pure r) k e

-- On a bus where a device keeps its registers, a number that smbus_write8, 16, 32 or 64 writes to a
-- register and that fits its width is what smbus_read of the same width prints for that register,
-- with all its hexadecimal digits, in either byte order of the machine; both commands return 0 and
-- close the bus.
pub smbus_write-smbus_read :
    {size : SmbusSize} {n : ℕ} (num : IsNumber size n) (i2c_bus address reg v fd : ℕ)
    (writer reader a b c value : Text) (k : Kernel) (log : Log)
    → IsRegisters k i2c_bus address fd
    → strtoul 0 a ≡ (i2c_bus, [])
    → i2c_bus < 256
    → strtoul 0 b ≡ (address, [])
    → address < 256
    → strtoul 0 c ≡ (reg, [])
    → reg < 256
    → strtoul 0 value ≡ (v, [])
    → v < 256 ^ n
    → (log1 log2 : Log) × (smbus_write
          (make_smbus_op size smbus_write_op)
          none
          (writer ∷ a ∷ b ∷ c ∷ value ∷ [])
          k
          log
        ≡ done (pos 0) (closed fd ∷ log1))
      × (smbus_read
            (make_smbus_op size smbus_read_op)
            none
            (reader ∷ a ∷ b ∷ c ∷ [])
            k
            (closed fd ∷ log1)
          ≡ done
              (pos 0)
              (closed fd ∷ printed (text "0x" ++ (upper_hex_padded (n + n) v ++ text "\n")) ∷ log2))
unfolding smbus_write smbus_read
smbus_write-smbus_read {size} {n} num i2c_bus address reg v fd writer reader a b c value k log
      device ea sa eb sb ec sc ev sv =
    let argv = writer ∷ a ∷ b ∷ c ∷ value ∷ [] in
    let params = bound_params i2c_bus address reg fd k in
    let started = bound_log i2c_bus address reg fd k log in
    let log1 = stored_log i2c_bus address reg fd k num v started in
    let again = bound_log i2c_bus address reg fd k (closed fd ∷ log1) in
    let writing = make_smbus_op size smbus_write_op in
    let reading = make_smbus_op size smbus_read_op in
    let params' : SmbusOpParams = record params { memory = set_fixed k.big_endian n v zeroed } in
    let came =
      device.gives again (read_call i2c_bus address reg fd k device num)
        (reply i2c_bus address reg fd k device num v)
        (is_store-read_call i2c_bus address reg fd k device num)
        (last_stored-stored_log i2c_bus address reg fd k device num v started) in
    (
      log1,
      _,
      bind_done (smbus_prologue argv size)
            (λ r. elim r as (λ _. M ℤ) [
              | none ↦ pure minus_one
              | some ps ↦ write_value writing (if has_no_register size then 3 else 4) argv ps
            ])
            k
            (smbus_prologue-opens i2c_bus address reg fd k size writer a b c (value ∷ []) log
              (has_register num).0 ea sa eb sb ec sc device)
          ∙ rw (has_register num).1 (
              bind_done (parse_io_width value size params)
                (λ r. elim r as (λ _. M ℤ) [
                  | none ↦ invalid_value argv value params
                  | some ps ↦ perform writing ps
                ])
                k (parse_io_width-number i2c_bus address reg fd k num value v params started ev sv)
              ∙ perform-closes writing params' k started log1 (pos 0)
                  (smbus_write_op-stores i2c_bus address reg fd k device num v started sv)),
      bind_done (smbus_prologue (reader ∷ a ∷ b ∷ c ∷ []) size)
            (λ r. elim r as (λ _. M ℤ) [ none ↦ pure minus_one | some ps ↦ perform reading ps ]) k
            (smbus_prologue-opens i2c_bus address reg fd k size reader a b c [] (closed fd ∷ log1)
              (has_register num).0 ea sa eb sb ec sc device)
          ∙ perform-closes reading params k again _ (pos 0)
              (smbus_read_op-prints i2c_bus address reg fd k device num v again sv came),
    )
