-- ===== src/Smbus/Commands/WriteRead.antt =====
-- smbus_writeread: what a bad count leaves open.
use cubical.Cubical.Data.Sigma.Properties.{≡-×}
use mathlib.Core.Path.{subst}
use iotools.Base.{
  ◌&&◌, ℕ, ◌+◌, ◌<◌, ◌≡◌, refl, sym, ◌∙◌, ap, Bool, true, false, not, ◌||◌, List, [], ◌∷◌, ◌++◌,
  Option, none, some, arith, ltb, ◌==◌, if◌then◌else◌, Bool-cases, inl, inr,
}
use iotools.Base.Int.{ℤ, minus_one}
use iotools.Libc.Text.{Text, text, str_eq, str_eq_iff}
use iotools.Libc.Strtoul.{strtoul}
use iotools.Kernel.{Kernel, Log, Outcome, done, replaced, running, undefined, M}
use iotools.Kernel.Calls.{arg, ◌>>=◌, ◌>>◌, pure, complain}
use iotools.Kernel.Devices.{Gains, open_count}
use iotools.Kernel.Balance.{held, Returns-weaken, Returns, IsSame}
use iotools.Smbus.{write_read, SmbusOpParams, SmbusOp, block_max}
use iotools.Smbus.Parse.{parse_uint8, parse_uint8_base}
use iotools.Smbus.Parse.Bytes.{Parses, parse_uint8_base-Parses, parse_uint8_base-accepts}
use iotools.Smbus.Parse.Quiet.{parsed-block}
use iotools.Smbus.Commands.{
  invalid_value, smbus_writeread, parse_io_width, smbus_writeread_op, smbus_prologue, SizeParam,
  make_smbus_op, perform, read_back,
}
use iotools.Smbus.Transfer.Laws.{smbus_writeread_op-IsSame}
use iotools.Kernel.Loops.{bind_done}
use iotools.Smbus.Commands.Laws.{smbus_prologue-Takes, Takes, IsKeeper, perform-IsSame}

-- The count is no number of bytes that a block can hold.
unfoldable pub is_bad_count : Text → Bool
is_bad_count s = let (v, end) = strtoul 0 s in not (str_eq end []) || ltb block_max v

good_count :
    (count : Text)
    → is_bad_count count ≡ false
    → (strtoul 0 count ≡ ((strtoul 0 count).0, [])) × (ltb block_max (strtoul 0 count).0 ≡ false)
unfolding is_bad_count
good_count count h = elim (Bool-cases (str_eq (strtoul 0 count).1 [])) [
  | inl e ↦ (≡-× refl ((str_eq_iff (strtoul 0 count).1 []).0 e), ground arith)
  | inr e ↦ absurd (ground arith)
]

bad_count :
    (count : Text) (v : ℕ)
    → is_bad_count count ≡ true
    → strtoul 0 count ≡ (v, [])
    → ltb block_max v ≡ true
unfolding is_bad_count str_eq
bad_count count v h e =
    subst (λ (r : ℕ × Text). (not (str_eq r.1 []) || ltb block_max r.0) ≡ true) e h

module _ (op : SmbusOp) (name a b value count : Text) (rest : List Text) (params : SmbusOpParams)
    (k : Kernel) (keeps : IsKeeper k op) (log : Log) (fd : ℕ) where
  abbrev argv : List Text
  argv = name ∷ a ∷ b ∷ value ∷ count ∷ rest

  -- A good count leaves nothing open.
  pub read_back-IsSame :
      (log' : Log)
      → open_count fd log' ≡ held fd params.fd (open_count fd log)
      → is_bad_count count ≡ false
      → Returns (IsSame fd log) (read_back op argv params k log')
  read_back-IsSame log' h good =
      let (e, small) = good_count count good in
      let came : parse_uint8 count k log' ≡ done (some (strtoul 0 count).0) log' =
        unfold parse_uint8 in
        parse_uint8_base-accepts count 0 (strtoul 0 count).0 k log' e (ground arith) in
      rw (Returns, came)
        (rw (Returns, small)
          (perform-IsSame op (record params { read_count = (strtoul 0 count).0 }) k log log' fd
            keeps h))

  -- A bad one leaves the device open.
  pub read_back-leaks :
      (log' : Log)
      → is_bad_count count ≡ true
      → Returns (IsSame fd log') (read_back op argv params k log')
  read_back-leaks log' bad =
      unfold parse_uint8 in
      go (parse_uint8_base count 0 k log') (parse_uint8_base-Parses count 0 k log')
    where
      refuse : Option ℕ → M ℤ
      refuse r = elim r as (λ _. M ℤ) [
        | none ↦ complain (text "invalid read count " ++ (count ++ text ".\n")) >> pure minus_one
        | some read_count ↦
            if ltb block_max read_count
            then (do
              t ← arg argv 3
              complain (text "read count " ++ (t ++ text " > 32.\n"))
              pure minus_one)
            else perform op (record params { read_count = read_count })
      ]

      go :
          (o : Outcome (Option ℕ))
          → Parses (λ v. (strtoul 0 count ≡ (v, [])) × (v < 256)) log' o
          → Returns (IsSame fd log') (elim o [
            | done r log'' ↦ refuse r k log''
            | replaced log'' ↦ replaced log''
            | running log'' ↦ running log''
            | undefined ↦ undefined
          ])
      go (done none log'') same = unfold open_count in same fd
      go (done (some v) log'') (p, same) =
          rw (Returns, bad_count count v bad p.0) (unfold open_count in same fd)
      go (replaced log'') h = absurd h
      go (running log'') h = absurd h
      go undefined h = absurd h

-- The operation of the table's entry.
abbrev pub writeread : SmbusOp
writeread = make_smbus_op write_read smbus_writeread_op

pub writeread-IsKeeper : (k : Kernel) → IsKeeper k writeread
writeread-IsKeeper k params log fd = smbus_writeread_op-IsSame params write_read k log fd

Gains-Returns :
    {A : Type 0} (fd n : ℕ) (log : Log) (o : Outcome A)
    → Returns (λ _ log'. open_count fd log' ≡ n + open_count fd log) o
    → Gains fd n log o
Gains-Returns fd n log (done a log') h = h
Gains-Returns fd n log (replaced log') h = absurd h
Gains-Returns fd n log (running log') h = absurd h
Gains-Returns fd n log undefined h = absurd h

-- With a device and a value, the command comes to its count.
smbus_writeread-read_back :
    (info : SizeParam) (name a b value count : Text) (rest : List Text)
    (params params' : SmbusOpParams) (k : Kernel) (log log1 log2 : Log)
    → let argv = name ∷ a ∷ b ∷ value ∷ count ∷ rest in
      smbus_prologue argv write_read k log ≡ done (some params) log1
      → parse_io_width value write_read params k log1 ≡ done (some params') log2
      → smbus_writeread writeread info argv k log ≡ read_back writeread argv params' k log2
unfolding smbus_writeread
smbus_writeread-read_back info name a b value count rest params params' k log log1 log2 e1 e2 =
    let argv = name ∷ a ∷ b ∷ value ∷ count ∷ rest in
    bind_done (smbus_prologue argv write_read)
      (λ r. elim r as (λ _. M ℤ) [
        | none ↦ pure minus_one
        | some ps ↦ arg argv 3 >>= λ s. parse_io_width s write_read ps >>= λ v.
            elim v as (λ _. M ℤ) [
              | none ↦ invalid_value argv s ps
              | some ps' ↦ read_back writeread argv ps'
            ]
      ])
      k e1
    ∙ bind_done (parse_io_width value write_read params)
        (λ v. elim v as (λ _. M ℤ) [
          | none ↦ invalid_value argv value params
          | some ps' ↦ read_back writeread argv ps'
        ])
        k e2

one_more : (fd fd' n m : ℕ) → m ≡ held fd fd' n → m ≡ (if fd == fd' then 1 else 0) + n
one_more fd fd' n m h = ground arith

-- Once the device was opened and the value parsed, smbus_writeread closes the device again if the
-- count is a number up to 32; with any other count it returns, and the descriptor is open once
-- more than before.
pub smbus_writeread_leaks :
    (info : SizeParam) (name a b value count : Text) (rest : List Text)
    (params params' : SmbusOpParams) (k : Kernel) (log log1 log2 : Log) (fd : ℕ)
    → smbus_prologue (name ∷ a ∷ b ∷ value ∷ count ∷ rest) write_read k log
      ≡ done (some params) log1
    → parse_io_width value write_read params k log1 ≡ done (some params') log2
    → Gains fd
        (if is_bad_count count && (fd == params.fd) then 1 else 0)
        log
        (smbus_writeread writeread info (name ∷ a ∷ b ∷ value ∷ count ∷ rest) k log)
smbus_writeread_leaks info name a b value count rest params params' k log log1 log2 fd e1 e2 =
    let argv = name ∷ a ∷ b ∷ value ∷ count ∷ rest in
    let taken : open_count fd log1 ≡ held fd params.fd (open_count fd log) =
      subst (Returns (Takes fd log)) e1
        (smbus_prologue-Takes name a b (value ∷ count ∷ rest) write_read k log fd refl) in
    let (quiet, same_fd) = parsed-block value params params' k log1 log2 e2 in
    let kept : open_count fd log2 ≡ held fd params'.fd (open_count fd log) =
      quiet fd ∙ (taken ∙ ap (λ (x : ℕ). held fd x (open_count fd log)) (sym same_fd)) in
    let taken' : open_count fd log2 ≡ held fd params.fd (open_count fd log) = quiet fd ∙ taken in
    Gains-Returns fd (if is_bad_count count && (fd == params.fd) then 1 else 0) log
      (smbus_writeread writeread info argv k log)
      (subst
        (Returns (λ _ log'.
          open_count fd log'
          ≡ (if is_bad_count count && (fd == params.fd) then 1 else 0) + open_count fd log))
        (sym (
          smbus_writeread-read_back info name a b value count rest params params' k log log1 log2 e1
            e2))
        (elim (Bool-cases (is_bad_count count)) [
          | inl bad ↦ rw bad (
              Returns-weaken (IsSame fd log2)
                (λ _ log'.
                  open_count fd log' ≡ (if fd == params.fd then 1 else 0) + open_count fd log)
                (λ ret log' same.
                  one_more fd params.fd (open_count fd log) (open_count fd log') (same ∙ taken'))
                (read_back writeread argv params' k log2)
                (read_back-leaks writeread name a b value count rest params' k
                  (writeread-IsKeeper k) log fd log2 bad))
          | inr good ↦ rw good (
              Returns-weaken (IsSame fd log) (λ _ log'. open_count fd log' ≡ 0 + open_count fd log)
                (λ ret log' same. omega (arith, same)) (read_back writeread argv params' k log2)
                (read_back-IsSame writeread name a b value count rest params' k
                  (writeread-IsKeeper k) log fd log2 kept good))
        ]))
