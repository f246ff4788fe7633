-- ===== src/Smbus/Commands/Laws.antt =====
-- What the SMBus commands leave open.
use iotools.Base.{
  ◌≤◌, ◌<◌, ap, ℕ, ◌≡◌, refl, sym, ◌∙◌, Bool, true, List, [], ◌∷◌, ◌++◌, Option, none, some, arith,
  if◌then◌else◌, Bool-cases, inl, inr, get_elem?, length, ◌^◌,
}
use iotools.Base.Int.{minus_one, ℤ}
use iotools.Libc.Text.{Text, text}
use iotools.Libc.Strtoul.{strtoul}
use iotools.Kernel.{undefined, running, replaced, Kernel, Log, Outcome, done, M}
use iotools.Kernel.Calls.{◌>>=◌, ◌>>◌, pure, close, complain}
use iotools.Kernel.Devices.{open_count, Keeps}
use iotools.Kernel.Balance.{held, closes, Returns, Returns-bind, IsSame, Returns-Keeps}
use iotools.Command.{SizeParam}
use iotools.Smbus.{block_max, SmbusSize, SmbusOpParams, SmbusOp}
use iotools.Smbus.Parse.{parse_uint8_base, parse_uint8, parse_io_width}
use iotools.Smbus.Parse.Bytes.{Parses, parse_uint8_base-Parses}
use iotools.Smbus.Parse.Laws.{block_len, parse_io_width-Parses, IsParsed}
use iotools.Smbus.Commands.{
  has_no_register, open_i2c_slave, with_register, with_address, byte_arg, open_slave,
  smbus_prologue, skips_register, perform, no_params, write_value, invalid_value, smbus_read,
  smbus_write, smbus_process_call,
}

-- What `smbus_prologue` needs behind the address.
abbrev pub has_arguments : SmbusSize → List Text → Bool
has_arguments op_size [] = skips_register op_size
has_arguments op_size (s ∷ rest) = true

-- Params come with their descriptor open once more; a failure leaves all as it was.
abbrev pub Takes : ℕ → Log → Option SmbusOpParams → Log → Type 0
Takes fd log none log' = open_count fd log' ≡ open_count fd log
Takes fd log (some params) log' = open_count fd log' ≡ held fd params.fd (open_count fd log)

open_slave-Takes :
    (params : SmbusOpParams) (k : Kernel) (log : Log) (fd : ℕ)
    → Returns (Takes fd log) (open_slave params k log)
unfolding open_i2c_slave open_count
open_slave-Takes params k log fd = ground arith

parse_uint8-IsSame :
    (s : Text) (k : Kernel) (log : Log) (fd : ℕ) → Returns (IsSame fd log) (parse_uint8 s k log)
unfolding parse_uint8
parse_uint8-IsSame s k log fd = go (parse_uint8_base s 0 k log) (parse_uint8_base-Parses s 0 k log)
  where
    go :
        (o : Outcome (Option ℕ))
        → Parses (λ v. (strtoul 0 s ≡ (v, [])) × (v < 256)) log o
        → Returns (IsSame fd log) o
    go (done none log') h = h fd
    go (done (some v) log') h = h.1 fd
    go (replaced log') h = absurd h
    go (running log') h = absurd h
    go undefined h = absurd h

byte_arg-IsSame :
    (argv : List Text) (i : ℕ) (s what : Text) (k : Kernel) (log : Log) (fd : ℕ)
    → get_elem? argv i ≡ some s
    → Returns (IsSame fd log) (byte_arg argv i what k log)
byte_arg-IsSame argv i s what k log fd e =
    rw (Returns, e)
      (Returns-bind (IsSame fd log) (IsSame fd log) (parse_uint8 s)
        (λ r. elim r [
          | none ↦ complain (text "invalid " ++ (what ++ text " value\n")) >> pure none
          | some v ↦ pure (some v)
        ])
        k log (parse_uint8-IsSame s k log fd) go)
  where
    go :
        (r : Option ℕ) (log' : Log)
        → open_count fd log' ≡ open_count fd log
        → Returns (IsSame fd log) (
            elim r as (λ _. M (Option ℕ)) [
              | none ↦ complain (text "invalid " ++ (what ++ text " value\n")) >> pure none
              | some v ↦ pure (some v)
            ]
              k log')
    go none log' same = unfold open_count in same
    go (some v) log' same = same

-- Behind a number that was parsed, the function goes on to open the device.
Takes-after :
    (m : M (Option ℕ)) (f : ℕ → M (Option SmbusOpParams)) (k : Kernel) (log : Log) (fd : ℕ)
    → Returns (IsSame fd log) (m k log)
    → ((v : ℕ) (log' : Log) → Returns (Takes fd log') (f v k log'))
    → Returns (Takes fd log) ((m >>= λ r. elim r [ none ↦ pure none | some v ↦ f v ]) k log)
Takes-after m f k log fd first next =
    Returns-bind (IsSame fd log) (Takes fd log) m (λ r. elim r [ none ↦ pure none | some v ↦ f v ])
      k log first go
  where
    widen :
        (log' : Log) (o : Outcome (Option SmbusOpParams))
        → open_count fd log' ≡ open_count fd log
        → Returns (Takes fd log') o
        → Returns (Takes fd log) o
    widen log' (done none log'') same h = h ∙ same
    widen log' (done (some params) log'') same h = h ∙ ap (held fd params.fd) same
    widen log' (replaced log'') same h = absurd h
    widen log' (running log'') same h = absurd h
    widen log' undefined same h = absurd h

    go :
        (r : Option ℕ) (log' : Log)
        → open_count fd log' ≡ open_count fd log
        → Returns
            (Takes fd log)
            (elim r as (λ _. M (Option SmbusOpParams)) [ none ↦ pure none | some v ↦ f v ] k log')
    go none log' same = same
    go (some v) log' same = widen log' (f v k log') same (next v log')

with_register-Takes :
    (name a b : Text) (rest : List Text) (op_size : SmbusSize) (params : SmbusOpParams) (k : Kernel)
    (log : Log) (fd : ℕ)
    → has_arguments op_size rest ≡ true
    → Returns (Takes fd log) (with_register (name ∷ a ∷ b ∷ rest) op_size params k log)
with_register-Takes name a b [] op_size params k log fd h = rw h (open_slave-Takes params k log fd)
with_register-Takes name a b (c ∷ rest) op_size params k log fd h =
    elim (Bool-cases (skips_register op_size)) [
      | inl e ↦ rw e (open_slave-Takes params k log fd)
      | inr e ↦ rw e (
          Takes-after (byte_arg (name ∷ a ∷ b ∷ c ∷ rest) 3 (text "register"))
            (λ r. open_slave (record params { reg = r })) k log fd
            (byte_arg-IsSame (name ∷ a ∷ b ∷ c ∷ rest) 3 c (text "register") k log fd refl)
            (λ r log'. open_slave-Takes (record params { reg = r }) k log' fd))
    ]

-- With an adapter and an address, and a register where the operation has one, `smbus_prologue`
-- returns, and keeps a device open exactly if it succeeds.
pub smbus_prologue-Takes :
    (name a b : Text) (rest : List Text) (op_size : SmbusSize) (k : Kernel) (log : Log) (fd : ℕ)
    → has_arguments op_size rest ≡ true
    → Returns (Takes fd log) (smbus_prologue (name ∷ a ∷ b ∷ rest) op_size k log)
smbus_prologue-Takes name a b rest op_size k log fd h =
    let argv = name ∷ a ∷ b ∷ rest in
    unfold smbus_prologue in
    Takes-after (byte_arg argv 1 (text "adapter")) (with_address argv op_size) k log fd
      (byte_arg-IsSame argv 1 a (text "adapter") k log fd refl)
      (λ i2c_bus log1.
        Takes-after (byte_arg argv 2 (text "address"))
          (λ address.
            with_register argv op_size (record no_params { i2c_bus = i2c_bus; address = address }))
          k log1 fd (byte_arg-IsSame argv 2 b (text "address") k log1 fd refl)
          (λ address log2.
            with_register-Takes name a b rest op_size
              (record no_params { i2c_bus = i2c_bus; address = address }) k log2 fd h))

-- The operation returns, and leaves every descriptor as it is.
abbrev pub IsKeeper : Kernel → SmbusOp → Type 0
IsKeeper k op =
    (params : SmbusOpParams) (log : Log) (fd : ℕ)
    → Returns (IsSame fd log) (op.perform_op params op.size k log)

pub perform-IsSame :
    (op : SmbusOp) (params : SmbusOpParams) (k : Kernel) (log log' : Log) (fd : ℕ)
    → IsKeeper k op
    → open_count fd log' ≡ held fd params.fd (open_count fd log)
    → Returns (IsSame fd log) (perform op params k log')
perform-IsSame op params k log log' fd keeps h =
    Returns-bind (IsSame fd log') (IsSame fd log) (op.perform_op params op.size)
      (λ ret. close params.fd >> pure ret) k log' (keeps params log' fd)
      (λ ret log'' same.
        unfold open_count in
        closes fd params.fd (open_count fd log) (open_count fd log'') (same ∙ h))

invalid_value-IsSame :
    (name : Text) (args : List Text) (value : Text) (params : SmbusOpParams) (k : Kernel)
    (log log' : Log) (fd : ℕ)
    → open_count fd log' ≡ held fd params.fd (open_count fd log)
    → Returns (IsSame fd log) (invalid_value (name ∷ args) value params k log')
unfolding open_count
invalid_value-IsSame name args value params k log log' fd h =
    closes fd params.fd (open_count fd log) (open_count fd log') h

-- Behind a value that was parsed, the descriptor that was opened is the one that is closed.
pub after_value :
    (op_size : SmbusSize) (name value : Text) (args : List Text) (params : SmbusOpParams)
    (next : SmbusOpParams → M ℤ) (k : Kernel) (log log' : Log) (fd : ℕ)
    → length value < 2 ^ 31
    → open_count fd log' ≡ held fd params.fd (open_count fd log)
    → ((params' : SmbusOpParams) (log'' : Log)
        → open_count fd log'' ≡ held fd params'.fd (open_count fd log)
        → Returns (IsSame fd log) (next params' k log''))
    → Returns (IsSame fd log) (
        (parse_io_width value op_size params >>= λ r. elim r [
          | none ↦ invalid_value (name ∷ args) value params
          | some params' ↦ next params'
        ])
          k log')
after_value op_size name value args params next k log log' fd short h after =
    go (parse_io_width value op_size params k log')
      (parse_io_width-Parses value op_size params k log' short)
  where
    go :
        (o : Outcome (Option SmbusOpParams))
        → Parses
            (λ params'. IsParsed params params' × (block_len op_size params' ≤ block_max))
            log'
            o
        → Returns (IsSame fd log) (elim o [
          | done r log'' ↦
              elim r as (λ _. M ℤ) [
                | none ↦ invalid_value (name ∷ args) value params
                | some params' ↦ next params'
              ]
                k log''
          | replaced log'' ↦ replaced log''
          | running log'' ↦ running log''
          | undefined ↦ undefined
        ])
    go (done none log'') same =
        invalid_value-IsSame name args value params k log log'' fd (same fd ∙ h)
    go (done (some params') log'') (p, same) =
        after params' log''
          (same fd ∙ (h ∙ ap (λ (x : ℕ). held fd x (open_count fd log)) (sym p.0.1)))
    go (replaced log'') p = absurd p
    go (running log'') p = absurd p
    go undefined p = absurd p

-- A command goes on only if the device was opened.
pub after_prologue :
    (name a b : Text) (rest : List Text) (op_size : SmbusSize) (next : SmbusOpParams → M ℤ)
    (k : Kernel) (log : Log) (fd : ℕ)
    → has_arguments op_size rest ≡ true
    → ((params : SmbusOpParams) (log' : Log)
        → open_count fd log' ≡ held fd params.fd (open_count fd log)
        → Returns (IsSame fd log) (next params k log'))
    → Returns (IsSame fd log) (
        (smbus_prologue (name ∷ a ∷ b ∷ rest) op_size >>= λ r. elim r [
          | none ↦ pure minus_one
          | some params ↦ next params
        ])
          k log)
after_prologue name a b rest op_size next k log fd h after =
    Returns-bind (Takes fd log) (IsSame fd log) (smbus_prologue (name ∷ a ∷ b ∷ rest) op_size)
      (λ r. elim r [ none ↦ pure minus_one | some params ↦ next params ]) k log
      (smbus_prologue-Takes name a b rest op_size k log fd h) go
  where
    go :
        (r : Option SmbusOpParams) (log' : Log)
        → Takes fd log r log'
        → Returns
            (IsSame fd log)
            (elim r as (λ _. M ℤ) [ none ↦ pure minus_one | some params ↦ next params ] k log')
    go none log' same = same
    go (some params) log' t = after params log' t

module _ (op : SmbusOp) (k : Kernel) (keeps : IsKeeper k op) (fd : ℕ) where
  write_value-IsSame :
      (i : ℕ) (name value : Text) (args : List Text) (params : SmbusOpParams) (log log' : Log)
      → get_elem? (name ∷ args) i ≡ some value
      → length value < 2 ^ 31
      → open_count fd log' ≡ held fd params.fd (open_count fd log)
      → Returns (IsSame fd log) (write_value op i (name ∷ args) params k log')
  write_value-IsSame i name value args params log log' e short h =
      rw (Returns, e)
        (after_value op.size name value args params (perform op) k log log' fd short h
          (λ params' log''. perform-IsSame op params' k log log'' fd keeps))

  -- Whatever the system answers, a read with an adapter and an address, and a register where it has
  -- one, returns, and every descriptor is left open or closed as it was before.
  pub smbus_read-Keeps :
      (info : SizeParam) (name a b : Text) (rest : List Text) (log : Log)
      → has_arguments op.size rest ≡ true
      → Keeps fd log (smbus_read op info (name ∷ a ∷ b ∷ rest) k log)
  unfolding smbus_read
  smbus_read-Keeps info name a b rest log h =
      Returns-Keeps fd log (smbus_read op info (name ∷ a ∷ b ∷ rest) k log) (
        after_prologue name a b rest op.size (perform op) k log fd h
          (λ params log'. perform-IsSame op params k log log' fd keeps))

  -- Likewise for a write with its value, if an int can count its characters.
  pub smbus_write-Keeps :
      (info : SizeParam) (name a b c value : Text) (rest : List Text) (log : Log)
      → get_elem? (name ∷ a ∷ b ∷ c ∷ rest) (if has_no_register op.size then 3 else 4) ≡ some value
      → length value < 2 ^ 31
      → Keeps fd log (smbus_write op info (name ∷ a ∷ b ∷ c ∷ rest) k log)
  unfolding smbus_write
  smbus_write-Keeps info name a b c value rest log e short =
      let i = if has_no_register op.size then 3 else 4 in
      Returns-Keeps fd log (smbus_write op info (name ∷ a ∷ b ∷ c ∷ rest) k log) (
        after_prologue name a b (c ∷ rest) op.size (write_value op i (name ∷ a ∷ b ∷ c ∷ rest)) k
          log fd refl
          (λ params log'.
            write_value-IsSame i name value (a ∷ b ∷ c ∷ rest) params log log' e short))

  -- Likewise for a process call.
  pub smbus_process_call-Keeps :
      (info : SizeParam) (name a b c d : Text) (rest : List Text) (log : Log)
      → length d < 2 ^ 31
      → Keeps fd log (smbus_process_call op info (name ∷ a ∷ b ∷ c ∷ d ∷ rest) k log)
  unfolding smbus_process_call
  smbus_process_call-Keeps info name a b c d rest log short =
      Returns-Keeps fd log (smbus_process_call op info (name ∷ a ∷ b ∷ c ∷ d ∷ rest) k log) (
        after_prologue name a b (c ∷ d ∷ rest) op.size
          (write_value op 4 (name ∷ a ∷ b ∷ c ∷ d ∷ rest)) k log fd refl
          (λ params log'.
            write_value-IsSame 4 name d (a ∷ b ∷ c ∷ d ∷ rest) params log log' refl short))
