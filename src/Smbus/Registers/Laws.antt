-- ===== src/Smbus/Registers/Laws.antt =====
-- What smbus_write8, 16, 32 and 64 put into a register, smbus_read8, 16, 32 and 64 print.
use iotools.Base.{
  ◌%◌, ℕ, ◌+◌, ◌<◌, ◌^◌, ◌≡◌, refl, ◌∙◌, Bool, true, false, List, [], ◌∷◌, ◌++◌, Option, none, some,
  arith, ltb, length, take, drop, get_elem?, take-length_append,
}
use iotools.Base.Int.{ℤ, pos}
use iotools.Libc.Text.{Text, text}
use iotools.Libc.Print.{upper_hex_padded}
use iotools.Libc.Strtoul.{strtoul}
use iotools.Kernel.{
  Kernel, Log, M, done, opened, closed, addressed, transferred, printed, I2cCall, read_byte_data,
  read_word_data, read_i2c_block_data, write_byte_data, write_word_data, write_i2c_block_data,
}
use mathlib.Core.Path.{subst}
use iotools.Kernel.Calls.{arg, pure, ◌>>=◌, ◌>>◌, complain, o_rdwr}
use iotools.Kernel.Loops.{bind_done}
use iotools.Platform.{native_bytes}
use iotools.Platform.Laws.{native_word-native_bytes, length-native_bytes}
use iotools.Smbus.{
  SmbusSize, size_8, size_16, size_32, size_64, SmbusOpParams, array_size, fixed, set_fixed, zeroed,
}
use iotools.Smbus.Parse.{
  parse_uint8, parse_number, parse_io_width, is_max_or_trailing_junk, is_trailing_junk,
}
use iotools.Smbus.Parse.Bytes.{parse_uint8_base-accepts}
use iotools.Smbus.Transfer.{smbus_read_op, smbus_write_op}
use iotools.Smbus.Commands.{
  i2c_device, open_i2c_slave, open_slave, byte_arg, with_register, with_address, smbus_prologue,
  no_params, skips_register,
}
use iotools.Smbus.Registers.{is_store, last_stored, IsRegisters}

-- The operations on numbers, with the number of their bytes.
pub data IsNumber : SmbusSize → ℕ → Type 0 where
  one : IsNumber size_8 1
  two : IsNumber size_16 2
  four : IsNumber size_32 4
  eight : IsNumber size_64 8

take-native_bytes :
    (big : Bool) (n v : ℕ) (memory : List ℕ)
    → take n (set_fixed big n v memory) ≡ native_bytes big n v
take-native_bytes big n v memory =
    let bytes = native_bytes big n v in
    let long : length bytes ≡ n = length-native_bytes big n v in
    let all : take (length bytes) (bytes ++ drop (length bytes) memory) ≡ bytes =
      take-length_append bytes (drop (length bytes) memory) in
    subst (λ (m : ℕ). take m (bytes ++ drop (length bytes) memory) ≡ bytes) long all

-- A number that was assigned to its member of the union.
fixed-set_fixed :
    (big : Bool) (n v : ℕ) (memory : List ℕ)
    → v < 256 ^ n
    → fixed big n (set_fixed big n v memory) ≡ v
fixed-set_fixed big n v memory h =
    rw (take-native_bytes big n v memory) (native_word-native_bytes big n v h)

module _ (i2c_bus address reg fd : ℕ) (k : Kernel) where
  abbrev pub bound_params : SmbusOpParams
  bound_params = record no_params { i2c_bus = i2c_bus; address = address; reg = reg; fd = fd }

  abbrev pub bound_log : Log → Log
  bound_log log =
      addressed fd false address true ∷ opened (i2c_device i2c_bus) o_rdwr (some fd) ∷ log

  byte_arg-accepts :
      (argv : List Text) (i v : ℕ) (s what : Text) (log : Log)
      → get_elem? argv i ≡ some s
      → strtoul 0 s ≡ (v, [])
      → v < 256
      → byte_arg argv i what k log ≡ done (some v) log
  byte_arg-accepts argv i v s what log e parsed small =
      let came : parse_uint8 s k log ≡ done (some v) log =
        unfold parse_uint8 in parse_uint8_base-accepts s 0 v k log parsed small in
      let judge : Option ℕ → M (Option ℕ) = λ r. elim r [
        | none ↦ complain (text "invalid " ++ (what ++ text " value\n")) >> pure none
        | some v ↦ pure (some v)
      ] in
      bind_done (arg argv i) (λ s'. parse_uint8 s' >>= judge) k (rw (e, arg) refl)
      ∙ bind_done (parse_uint8 s) judge k came

  -- With good numbers the commands come to open the device.
  pub smbus_prologue-opens :
      (size : SmbusSize) (name a b c : Text) (rest : List Text) (log : Log)
      → skips_register size ≡ false
      → strtoul 0 a ≡ (i2c_bus, [])
      → i2c_bus < 256
      → strtoul 0 b ≡ (address, [])
      → address < 256
      → strtoul 0 c ≡ (reg, [])
      → reg < 256
      → IsRegisters k i2c_bus address fd
      → smbus_prologue (name ∷ a ∷ b ∷ c ∷ rest) size k log
        ≡ done (some bound_params) (bound_log log)
  unfolding smbus_prologue open_i2c_slave
  smbus_prologue-opens size name a b c rest log has ea sa eb sb ec sc device =
      let argv = name ∷ a ∷ b ∷ c ∷ rest in
      let start : SmbusOpParams = record no_params { i2c_bus = i2c_bus; address = address } in
      let opens : open_slave bound_params k log ≡ done (some bound_params) (bound_log log) =
        rw (device.opens, device.answers) refl in
      bind_done (byte_arg argv 1 (text "adapter"))
        (λ r. elim r as (λ _. M (Option SmbusOpParams)) [
          | none ↦ pure none
          | some v ↦ with_address argv size v
        ])
        k (byte_arg-accepts argv 1 i2c_bus a (text "adapter") log refl ea sa)
      ∙ bind_done (byte_arg argv 2 (text "address"))
          (λ r. elim r as (λ _. M (Option SmbusOpParams)) [
            | none ↦ pure none
            | some v ↦ with_register argv size (record no_params { i2c_bus = i2c_bus; address = v })
          ])
          k (byte_arg-accepts argv 2 address b (text "address") log refl eb sb)
      ∙ rw has (
          bind_done (byte_arg argv 3 (text "register"))
            (λ r. elim r as (λ _. M (Option SmbusOpParams)) [
              | none ↦ pure none
              | some v ↦ open_slave (record start { reg = v })
            ])
            k (byte_arg-accepts argv 3 reg c (text "register") log refl ec sc)
          ∙ opens)

  -- A number that fits is taken; one of less than four bytes may not be LONG_MAX.
  pub parse_io_width-number :
      {size : SmbusSize} {n : ℕ}
      → IsNumber size n
      → (value : Text) (v : ℕ) (params : SmbusOpParams) (log : Log) → strtoul 0 value ≡ (v, [])
      → v < 256 ^ n
      → parse_io_width value size params k log
        ≡ done (some (record params { memory = set_fixed k.big_endian n v zeroed })) log
  unfolding parse_io_width parse_number is_trailing_junk is_max_or_trailing_junk
  parse_io_width-number one value v params log e small = rw e (ground arith)
  parse_io_width-number two value v params log e small = rw e (ground arith)
  parse_io_width-number four value v params log e small = rw e refl
  parse_io_width-number eight value v params log e small = rw e refl

  -- The calls that store a number and read it.
  abbrev pub store_call : {size : SmbusSize} {n : ℕ} → IsNumber size n → ℕ → I2cCall
  store_call one v = write_byte_data reg v
  store_call two v = write_word_data reg v
  store_call four v = write_i2c_block_data reg (native_bytes k.big_endian 4 v)
  store_call eight v = write_i2c_block_data reg (native_bytes k.big_endian 8 v)

  abbrev pub stored_log : {size : SmbusSize} {n : ℕ} → IsNumber size n → ℕ → Log → Log
  stored_log num v log =
      transferred fd (store_call num v) (pos 0) [] ∷ addressed fd true address true ∷ log

  module _ (device : IsRegisters k i2c_bus address fd) where
    pub smbus_write_op-stores :
        {size : SmbusSize} {n : ℕ} (num : IsNumber size n) (v : ℕ) (log : Log)
        → v < 256 ^ n
        → smbus_write_op
            (record bound_params { memory = set_fixed k.big_endian n v zeroed })
            size
            k
            log
          ≡ done (pos 0) (stored_log num v log)
    unfolding smbus_write_op
    smbus_write_op-stores one v log small =
        rw
          (
            ◌>>=◌,
            device.answers log true,
            fixed-set_fixed k.big_endian 1 v zeroed small,
            device.stores,
          )
          refl
    smbus_write_op-stores two v log small =
        rw
          (
            ◌>>=◌,
            device.answers log true,
            fixed-set_fixed k.big_endian 2 v zeroed small,
            device.stores,
          )
          refl
    smbus_write_op-stores four v log small =
        rw
          (◌>>=◌, device.answers log true, take-native_bytes k.big_endian 4 v zeroed, device.stores)
          refl
    smbus_write_op-stores eight v log small =
        rw
          (◌>>=◌, device.answers log true, take-native_bytes k.big_endian 8 v zeroed, device.stores)
          refl

    abbrev pub read_call : {size : SmbusSize} {n : ℕ} → IsNumber size n → I2cCall
    read_call one = read_byte_data reg
    read_call two = read_word_data reg
    read_call four = read_i2c_block_data reg 4
    read_call eight = read_i2c_block_data reg 8

    abbrev pub reply : {size : SmbusSize} {n : ℕ} → IsNumber size n → ℕ → ℤ × List ℕ
    reply one v = (pos v, [])
    reply two v = (pos v, [])
    reply four v = (pos 4, native_bytes k.big_endian 4 v)
    reply eight v = (pos 8, native_bytes k.big_endian 8 v)

    pub last_stored-stored_log :
        {size : SmbusSize} {n : ℕ} (num : IsNumber size n) (v : ℕ) (log : Log)
        → last_stored fd (read_call num) (bound_log (closed fd ∷ stored_log num v log))
          ≡ some (reply num v)
    unfolding last_stored
    last_stored-stored_log one v log = ground arith
    last_stored-stored_log two v log = ground arith
    last_stored-stored_log four v log = ground (arith, length-native_bytes k.big_endian 4 v)
    last_stored-stored_log eight v log = ground (arith, length-native_bytes k.big_endian 8 v)

    pub is_store-read_call :
        {size : SmbusSize} {n : ℕ} (num : IsNumber size n) → is_store (read_call num) ≡ false
    is_store-read_call one = refl
    is_store-read_call two = refl
    is_store-read_call four = refl
    is_store-read_call eight = refl

    pub smbus_read_op-prints :
        {size : SmbusSize} {n : ℕ} (num : IsNumber size n) (v : ℕ) (log : Log)
        → v < 256 ^ n
        → k.i2c log fd (read_call num) ≡ reply num v
        → smbus_read_op bound_params size k log
          ≡ done (pos 0) (
              printed (text "0x" ++ (upper_hex_padded (n + n) v ++ text "\n"))
              ∷ transferred fd (read_call num) (reply num v).0 (reply num v).1
              ∷ log)
    unfolding smbus_read_op
    smbus_read_op-prints one v log small came =
        let word : v % 2 ^ 32 ≡ v = omega arith in
        rw (◌>>=◌, came, word, fixed-set_fixed k.big_endian 1 v zeroed small) refl
    smbus_read_op-prints two v log small came =
        let word : v % 2 ^ 32 ≡ v = omega arith in
        rw (◌>>=◌, came, word, fixed-set_fixed k.big_endian 2 v zeroed small) refl
    smbus_read_op-prints four v log small came =
        let bytes = native_bytes k.big_endian 4 v in
        let fits : ltb array_size (length bytes) ≡ false =
          ground (arith, length-native_bytes k.big_endian 4 v) in
        rw (◌>>=◌, came, fits, came, fixed-set_fixed k.big_endian 4 v zeroed small) refl
    smbus_read_op-prints eight v log small came =
        let bytes = native_bytes k.big_endian 8 v in
        let fits : ltb array_size (length bytes) ≡ false =
          ground (arith, length-native_bytes k.big_endian 8 v) in
        rw (◌>>=◌, came, fits, came, fixed-set_fixed k.big_endian 8 v zeroed small) refl
