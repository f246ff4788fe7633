-- ===== src/Program/Uses/Smbus.antt =====
-- The SMBus commands.
use iotools.Base.{
  ℕ, ◌≡◌, refl, true, List, ◌++◌, Option, none, some, ltb, arith, if◌then◌else◌, Bool-cases, inl,
  inr,
}
use iotools.Base.Int.{ℤ, minus_one}
use iotools.Libc.Text.{Text, text}
use iotools.Kernel.{Kernel, Log, M}
use iotools.Kernel.Calls.{◌>>=◌, ◌>>◌, pure, arg, close, complain}
use iotools.Kernel.Devices.{open_count}
use iotools.Kernel.Uses.{
  uses_open, Leaves, Leaves-bind, Orderly, InUse, Stays-Orderly, Quietly, Quietly-bind,
  Quietly-Orderly, Quietly-Stays,
}
use iotools.Smbus.{SmbusSize, SmbusOpParams, SmbusOp, block_max}
use iotools.Smbus.Parse.{parse_uint8, parse_io_width}
use iotools.Smbus.Transfer.{has_no_register}
use iotools.Smbus.Commands.{
  open_i2c_slave, no_params, skips_register, byte_arg, open_slave, with_register, with_address,
  smbus_prologue, perform, smbus_read, invalid_value, write_value, smbus_write, smbus_process_call,
  read_back, smbus_writeread,
}
use iotools.Program.Uses.{IsOrderly}
use iotools.Smbus.Parse.Quiet.{parse_uint8_base-Quietly, Held, parse_io_width-IsKeeping}
use iotools.Program.Uses.Transfer.{IsStaying}

-- Params come with their descriptor open.
abbrev Opened : Option SmbusOpParams → Log → Type 0
Opened none log = uses_open log ≡ true
Opened (some params) log = InUse params.fd log

open_slave-Opened :
    (params : SmbusOpParams) (k : Kernel) (log : Log)
    → uses_open log ≡ true
    → Leaves Opened (open_slave params k log)
unfolding open_i2c_slave open_count uses_open
open_slave-Opened params k log h = ground arith

arg-Quietly :
    (argv : List Text) (i : ℕ) (k : Kernel) (log : Log) (fd : ℕ) → Quietly fd log (arg argv i k log)
arg-Quietly argv i k log fd = ground arith

parse_uint8-Quietly :
    (s : Text) (k : Kernel) (log : Log) (fd : ℕ) → Quietly fd log (parse_uint8 s k log)
unfolding parse_uint8
parse_uint8-Quietly s k log fd = parse_uint8_base-Quietly s 0 k log fd

byte_arg-Quietly :
    (argv : List Text) (i : ℕ) (what : Text) (k : Kernel) (log : Log) (fd : ℕ)
    → Quietly fd log (byte_arg argv i what k log)
byte_arg-Quietly argv i what k log fd =
    Quietly-bind (arg argv i) (λ s. parse_uint8 s >>= judge) k log fd (arg-Quietly argv i k log fd)
      (λ s log'.
        Quietly-bind (parse_uint8 s) judge k log' fd (parse_uint8-Quietly s k log' fd) judged)
  where
    judge : Option ℕ → M (Option ℕ)
    judge r = elim r [
      | none ↦ complain (text "invalid " ++ (what ++ text " value\n")) >> pure none
      | some v ↦ pure (some v)
    ]

    judged : (r : Option ℕ) (log' : Log) → Quietly fd log' (judge r k log')
    judged none log' = unfold open_count in unfold uses_open in (refl, refl)
    judged (some v) log' = (refl, refl)

-- Behind a number that was parsed, the function goes on to open the device.
Opened-after :
    (argv : List Text) (i : ℕ) (what : Text) (f : ℕ → M (Option SmbusOpParams)) (k : Kernel)
    (log : Log)
    → uses_open log ≡ true
    → ((v : ℕ) (log' : Log) → uses_open log' ≡ true → Leaves Opened (f v k log'))
    → Leaves Opened
        ((byte_arg argv i what >>= λ r. elim r [ none ↦ pure none | some v ↦ f v ]) k log)
Opened-after argv i what f k log h rest =
    Leaves-bind (byte_arg argv i what) (λ r. elim r [ none ↦ pure none | some v ↦ f v ]) k log
      (λ _ log'. uses_open log' ≡ true) Opened
      (Quietly-Orderly log (byte_arg argv i what k log) (byte_arg-Quietly argv i what k log 0) h) go
  where
    go :
        (r : Option ℕ) (log' : Log)
        → uses_open log' ≡ true
        → Leaves Opened
            (elim r as (λ _. M (Option SmbusOpParams)) [ none ↦ pure none | some v ↦ f v ] k log')
    go none log' h' = h'
    go (some v) log' h' = rest v log' h'

with_register-Opened :
    (argv : List Text) (op_size : SmbusSize) (params : SmbusOpParams) (k : Kernel) (log : Log)
    → uses_open log ≡ true
    → Leaves Opened (with_register argv op_size params k log)
with_register-Opened argv op_size params k log h = elim (Bool-cases (skips_register op_size)) [
  | inl e ↦ rw e (open_slave-Opened params k log h)
  | inr e ↦ rw e (
      Opened-after argv 3 (text "register") (λ r. open_slave (record params { reg = r })) k log h
        (λ r log' h'. open_slave-Opened (record params { reg = r }) k log' h'))
]

smbus_prologue-Opened :
    (argv : List Text) (op_size : SmbusSize) (k : Kernel) (log : Log)
    → uses_open log ≡ true
    → Leaves Opened (smbus_prologue argv op_size k log)
unfolding smbus_prologue
smbus_prologue-Opened argv op_size k log h =
    Opened-after argv 1 (text "adapter") (with_address argv op_size) k log h (λ i2c_bus log1 h1.
      Opened-after argv 2 (text "address")
        (λ address.
          with_register argv op_size (record no_params { i2c_bus = i2c_bus; address = address }))
        k log1 h1
        (λ address log2 h2.
          with_register-Opened argv op_size
            (record no_params { i2c_bus = i2c_bus; address = address }) k log2 h2))

perform-Orderly :
    (op : SmbusOp) (params : SmbusOpParams) (k : Kernel) (log : Log)
    → IsStaying op.perform_op
    → InUse params.fd log
    → Orderly (perform op params k log)
perform-Orderly op params k log staying h =
    Stays-Orderly (op.perform_op params op.size) (λ ret. close params.fd >>= λ _. pure ret) k log
      params.fd (staying params op.size k log h)
      (λ ret log' h'. unfold open_count in unfold uses_open in ground arith)

invalid_value-Orderly :
    (argv : List Text) (value : Text) (params : SmbusOpParams) (k : Kernel) (log : Log)
    → InUse params.fd log
    → Orderly (invalid_value argv value params k log)
unfolding open_count uses_open
invalid_value-Orderly argv value params k log h = ground arith

-- An argument is parsed as a value, and the command goes on with the params that hold it.
value-Orderly :
    (op_size : SmbusSize) (i : ℕ) (argv : List Text) (params : SmbusOpParams)
    (f : SmbusOpParams → M ℤ) (k : Kernel) (log : Log)
    → InUse params.fd log
    → ((params' : SmbusOpParams) (log' : Log) → InUse params'.fd log' → Orderly (f params' k log'))
    → Orderly (
        (arg argv i >>= λ s. parse_io_width s op_size params >>= λ r. elim r as (λ _. M ℤ) [
          | none ↦ invalid_value argv s params
          | some params' ↦ f params'
        ])
          k log)
value-Orderly op_size i argv params f k log h rest =
    Stays-Orderly (arg argv i) (λ s. parse_io_width s op_size params >>= judge s) k log params.fd
      (Quietly-Stays params.fd log (arg argv i k log) (arg-Quietly argv i k log params.fd) h)
      (λ s log' h'.
        Leaves-bind (parse_io_width s op_size params) (judge s) k log' (Held params.fd)
          (λ _ log''. uses_open log'' ≡ true) (parse_io_width-IsKeeping op_size s params k log' h')
          (judged s))
  where
    judge : Text → Option SmbusOpParams → M ℤ
    judge s r = elim r [ none ↦ invalid_value argv s params | some params' ↦ f params' ]

    judged :
        (s : Text) (r : Option SmbusOpParams) (log' : Log)
        → Held params.fd r log'
        → Orderly (judge s r k log')
    judged s none log' h' = invalid_value-Orderly argv s params k log' h'
    judged s (some params') log' h' = rest params' log' h'

-- A command that begins with `smbus_prologue` goes on with the device open.
prologue-Orderly :
    (argv : List Text) (op_size : SmbusSize) (f : SmbusOpParams → M ℤ) (k : Kernel) (log : Log)
    → uses_open log ≡ true
    → ((params : SmbusOpParams) (log' : Log) → InUse params.fd log' → Orderly (f params k log'))
    → Orderly (
        (smbus_prologue argv op_size >>= λ r. elim r as (λ _. M ℤ) [
          | none ↦ pure minus_one
          | some params ↦ f params
        ])
          k log)
prologue-Orderly argv op_size f k log h rest =
    Leaves-bind (smbus_prologue argv op_size)
      (λ r. elim r as (λ _. M ℤ) [ none ↦ pure minus_one | some params ↦ f params ]) k log Opened
      (λ _ log'. uses_open log' ≡ true) (smbus_prologue-Opened argv op_size k log h) go
  where
    go :
        (r : Option SmbusOpParams) (log' : Log)
        → Opened r log'
        → Orderly (elim r as (λ _. M ℤ) [ none ↦ pure minus_one | some params ↦ f params ] k log')
    go none log' h' = h'
    go (some params) log' h' = rest params log' h'

module _ (op : SmbusOp) (staying : IsStaying op.perform_op) where
  pub smbus_read-IsOrderly : IsOrderly (smbus_read op)
  unfolding smbus_read
  smbus_read-IsOrderly size argv k log h =
      prologue-Orderly argv op.size (perform op) k log h
        (λ params log' h'. perform-Orderly op params k log' staying h')

  write_value-Orderly :
      (i : ℕ) (argv : List Text) (params : SmbusOpParams) (k : Kernel) (log : Log)
      → InUse params.fd log
      → Orderly (write_value op i argv params k log)
  write_value-Orderly i argv params k log h =
      value-Orderly op.size i argv params (perform op) k log h
        (λ params' log' h'. perform-Orderly op params' k log' staying h')

  pub smbus_write-IsOrderly : IsOrderly (smbus_write op)
  unfolding smbus_write
  smbus_write-IsOrderly size argv k log h =
      let i : ℕ = if has_no_register op.size then 3 else 4 in
      prologue-Orderly argv op.size (write_value op i argv) k log h
        (λ params log' h'. write_value-Orderly i argv params k log' h')

  pub smbus_process_call-IsOrderly : IsOrderly (smbus_process_call op)
  unfolding smbus_process_call
  smbus_process_call-IsOrderly size argv k log h =
      prologue-Orderly argv op.size (write_value op 4 argv) k log h
        (λ params log' h'. write_value-Orderly 4 argv params k log' h')

  read_back-Orderly :
      (argv : List Text) (params : SmbusOpParams) (k : Kernel) (log : Log)
      → InUse params.fd log
      → Orderly (read_back op argv params k log)
  read_back-Orderly argv params k log h =
      Stays-Orderly (arg argv 4) (λ s. parse_uint8 s >>= judge s) k log params.fd
        (Quietly-Stays params.fd log (arg argv 4 k log) (arg-Quietly argv 4 k log params.fd) h)
        (λ s log' h'.
          Stays-Orderly (parse_uint8 s) (judge s) k log' params.fd
            (Quietly-Stays params.fd log' (parse_uint8 s k log')
              (parse_uint8-Quietly s k log' params.fd) h')
            (judged s))
    where
      judge : Text → Option ℕ → M ℤ
      judge s r = elim r [
        | none ↦ complain (text "invalid read count " ++ (s ++ text ".\n")) >> pure minus_one
        | some read_count ↦
            if ltb block_max read_count
            then (do
              t ← arg argv 3
              complain (text "read count " ++ (t ++ text " > 32.\n"))
              pure minus_one)
            else perform op (record params { read_count = read_count })
      ]

      judged :
          (s : Text) (r : Option ℕ) (log' : Log) → InUse params.fd log' → Orderly (judge s r k log')
      judged s none log' h' = unfold uses_open in h'.1
      judged s (some n) log' h' = elim (Bool-cases (ltb block_max n)) [
        | inl e ↦ rw e (unfold uses_open in ground arith)
        | inr e ↦ rw e (perform-Orderly op (record params { read_count = n }) k log' staying h')
      ]

  pub smbus_writeread-IsOrderly : IsOrderly (smbus_writeread op)
  unfolding smbus_writeread
  smbus_writeread-IsOrderly size argv k log h =
      prologue-Orderly argv op.size
        (λ params. arg argv 3 >>= λ s. parse_io_width s op.size params >>= λ v.
          elim v as (λ _. M ℤ) [
            | none ↦ invalid_value argv s params
            | some params' ↦ read_back op argv params'
          ])
        k log h
        (λ params log' h'.
          value-Orderly op.size 3 argv params (read_back op argv) k log' h'
            (λ params' log'' h''. read_back-Orderly argv params' k log'' h''))
