-- ===== src/Commands/Safety/WriteRead.antt =====
-- smbus_writeread never comes to undefined behaviour, though it leaves its device open after a bad
-- count.
use iotools.Base.{
  ◌≡◌, ℕ, suc, ◌≤◌, refl, false, List, [], ◌∷◌, Option, none, some, arith, Bool-cases, inl, inr,
  ◌==◌, ◌<◌, ◌^◌, length,
}
use iotools.Base.Int.{ℤ, minus_one}
use iotools.Libc.Text.{Text}
use iotools.Kernel.{Kernel, Log, Outcome, done, replaced, running, undefined, M}
use iotools.Kernel.Calls.{◌>>=◌, pure}
use iotools.Kernel.Balance.{IsSame}
use iotools.Command.{SizeParam}
use iotools.Smbus.{SmbusOpParams, write_read, block_max}
use iotools.Smbus.Parse.{parse_io_width}
use iotools.Smbus.Parse.Bytes.{Parses}
use iotools.Smbus.Parse.Laws.{IsParsed, block_len, parse_io_width-Parses}
use iotools.Smbus.Commands.{smbus_prologue, invalid_value, read_back, smbus_writeread}
use iotools.Smbus.Commands.Laws.{Takes, smbus_prologue-Takes}
use iotools.Smbus.Commands.WriteRead.{
  writeread, writeread-IsKeeper, is_bad_count, read_back-IsSame, read_back-leaks,
}
use iotools.Commands.Safety.{Defined}
use iotools.Commands.Safety.Steps.{Defined-bind, Defined-then, Returns-Defined}

Parses-Defined :
    {A : Type 0} (P : A → Type 0) (log : Log) (o : Outcome (Option A)) → Parses P log o → Defined o
Parses-Defined P log (done none log') h = tt
Parses-Defined P log (done (some a) log') h = tt
Parses-Defined P log (replaced log') h = absurd h
Parses-Defined P log (running log') h = absurd h
Parses-Defined P log undefined h = absurd h

module _ (name a b value count : Text) (short : length value < 2 ^ 31) (k : Kernel) where
  abbrev argv : List Text
  argv = name ∷ a ∷ b ∷ value ∷ count ∷ []

  read_back-Defined :
      (params : SmbusOpParams) (log : Log) → Defined (read_back writeread argv params k log)
  read_back-Defined params log = elim (Bool-cases (is_bad_count count)) [
    | inl bad ↦ Returns-Defined (IsSame 0 log) (read_back writeread argv params k log) (
        read_back-leaks writeread name a b value count [] params k (writeread-IsKeeper k) log 0 log
          bad)
    | inr good ↦
        let fd : ℕ = suc params.fd in
        let other : (fd == params.fd) ≡ false = ground arith in
        Returns-Defined (IsSame fd log) (read_back writeread argv params k log) (
          read_back-IsSame writeread name a b value count [] params k (writeread-IsKeeper k) log fd
            log (rw other refl) good)
  ]

  abbrev with_value : SmbusOpParams → Option SmbusOpParams → M ℤ
  with_value params none = invalid_value argv value params
  with_value params (some params') = read_back writeread argv params'

  abbrev with_device : Option SmbusOpParams → M ℤ
  with_device none = pure minus_one
  with_device (some params) = parse_io_width value write_read params >>= with_value params

  with_device-Defined : (r : Option SmbusOpParams) (log : Log) → Defined (with_device r k log)
  with_device-Defined none log = tt
  with_device-Defined (some params) log =
      Defined-then (parse_io_width value write_read params) (with_value params) k log
        (Parses-Defined
          (λ params'. IsParsed params params' × (block_len write_read params' ≤ block_max)) log
          (parse_io_width value write_read params k log)
          (parse_io_width-Parses value write_read params k log short))
        go
    where
      go : (v : Option SmbusOpParams) (log' : Log) → Defined (with_value params v k log')
      go none log' = tt
      go (some params') log' = read_back-Defined params' log'

  pub smbus_writeread-Defined :
      (info : SizeParam) (log : Log) → Defined (smbus_writeread writeread info argv k log)
  unfolding smbus_writeread
  smbus_writeread-Defined info log =
      Defined-bind (Takes 0 log) (smbus_prologue argv write_read) with_device k log
        (smbus_prologue-Takes name a b (value ∷ count ∷ []) write_read k log 0 refl)
        (λ r log' h. with_device-Defined r log')
