-- ===== src/Smbus/Parse/Quiet.antt =====
-- The parsers of the values use no descriptor, and keep that of the params.
use iotools.Base.{
  ℕ, ◌≡◌, ◌+◌, ◌-◌, ◌^◌, ◌/◌, ◌%◌, List, [], ◌∷◌, Option, none, some, ltb, arith, length, drop,
  refl, Bool-cases, inl, inr,
}
use iotools.Libc.Text.{Text}
use mathlib.Core.Path.{subst}
use iotools.Kernel.{Kernel, Log, M, Outcome, done, replaced, running, undefined}
use iotools.Kernel.Calls.{◌>>=◌, fault, pure}
use iotools.Kernel.Devices.{open_count}
use iotools.Kernel.Uses.{
  uses_open, Leaves, Leaves-bind, InUse, Quietly, Quietly-Stays, Quietly-bind,
}
use iotools.Smbus.{
  SmbusSize, size_8, size_16, size_32, size_64, size_block, size_byte, quick, proc_call,
  block_proc_call, write_read, SmbusOpParams, block_max, zeroed,
}
use iotools.Smbus.Parse.{
  is_trailing_junk, is_max_or_trailing_junk, parse_uint8_base, parse_uint8_hex, store_byte,
  store_pairs, has_prefix, is_zero_or_odd, parse_pairs, parse_block, parse_number, parse_quick,
  parse_io_width,
}

pub parse_uint8_base-Quietly :
    (s : Text) (base : ℕ) (k : Kernel) (log : Log) (fd : ℕ)
    → Quietly fd log (parse_uint8_base s base k log)
unfolding parse_uint8_base is_max_or_trailing_junk is_trailing_junk open_count uses_open
parse_uint8_base-Quietly s base k log fd = ground arith

-- The loop over pairs of digits.
store_pairs-Quietly :
    (src : Text) (dest : ℕ) (memory : List ℕ) (k : Kernel) (log : Log) (fd : ℕ)
    → Quietly fd log (store_pairs src dest memory k log)
unfolding store_pairs
store_pairs-Quietly [] dest memory k log fd = (refl, refl)
store_pairs-Quietly (a ∷ []) dest memory k log fd =
    Quietly-bind (parse_uint8_hex (a ∷ []))
      (λ r. elim r as (λ _. M (Option (List ℕ))) [ none ↦ pure none | some v ↦ fault ]) k log fd
      (unfold parse_uint8_hex in parse_uint8_base-Quietly (a ∷ []) 16 k log fd)
      (λ r log'.
        elim r
          as (λ r.
            Quietly fd log' (
              (elim r as (λ _. M (Option (List ℕ))) [ none ↦ pure none | some v ↦ fault ]) k
                log')) [ none ↦ (refl, refl) | some v ↦ tt ])
store_pairs-Quietly (a ∷ b ∷ src) dest memory k log fd =
    Quietly-bind (parse_uint8_hex (a ∷ b ∷ []))
      (λ r. elim r as (λ _. M (Option (List ℕ))) [
        | none ↦ pure none
        | some v ↦ store_byte dest v memory >>= store_pairs src (dest + 1)
      ])
      k log fd (unfold parse_uint8_hex in parse_uint8_base-Quietly (a ∷ b ∷ []) 16 k log fd)
      (λ r log'.
        elim r
          as (λ r. Quietly fd log' (
            (elim r as (λ _. M (Option (List ℕ))) [
              | none ↦ pure none
              | some v ↦ store_byte dest v memory >>= store_pairs src (dest + 1)
            ])
              k log')) [
                | none ↦ (refl, refl)
                | some v ↦
                    Quietly-bind (store_byte dest v memory) (store_pairs src (dest + 1)) k log' fd
                      (unfold store_byte in ground arith)
                      (λ memory' log''. store_pairs-Quietly src (dest + 1) memory' k log'' fd)
              ])

-- The descriptor stays open, be it that of the new params or, on a failure, the given one.
abbrev pub Held : ℕ → Option SmbusOpParams → Log → Type 0
Held fd none log = InUse fd log
Held fd (some params) log = InUse params.fd log

parse_pairs-Held :
    (src : Text) (len : ℕ) (params : SmbusOpParams) (k : Kernel) (log : Log)
    → InUse params.fd log
    → Leaves (Held params.fd) (parse_pairs src len params k log)
unfolding parse_pairs uses_open
parse_pairs-Held src len params k log h = elim (Bool-cases (ltb block_max (len / 2))) [
  | inl e ↦ rw e h
  | inr e ↦ rw e (
      Leaves-bind (store_pairs src 0 zeroed)
        (λ r. elim r as (λ _. M (Option SmbusOpParams)) [
          | none ↦ pure none
          | some memory ↦ pure (some (record params { memory = memory; len = len / 2 }))
        ])
        k log (λ _ log'. InUse params.fd log') (Held params.fd)
        (Quietly-Stays params.fd log (store_pairs src 0 zeroed k log)
          (store_pairs-Quietly src 0 zeroed k log params.fd) h)
        stored)
]
  where
    stored :
        (r : Option (List ℕ)) (log' : Log)
        → InUse params.fd log'
        → Leaves (Held params.fd) (
            elim r as (λ _. M (Option SmbusOpParams)) [
              | none ↦ pure none
              | some memory ↦ pure (some (record params { memory = memory; len = len / 2 }))
            ]
              k log')
    stored none log' h' = h'
    stored (some memory) log' h' = h'

-- The parsers of a value keep the descriptor of the params open.
abbrev IsKeeping : (Text → SmbusOpParams → M (Option SmbusOpParams)) → Type 0
IsKeeping parse =
    (s : Text) (params : SmbusOpParams) (k : Kernel) (log : Log)
    → InUse params.fd log
    → Leaves (Held params.fd) (parse s params k log)

parse_block-IsKeeping : IsKeeping parse_block
unfolding parse_block uses_open
parse_block-IsKeeping s params k log h =
    let len = length s % 2 ^ 32 in
    elim (Bool-cases (is_zero_or_odd len)) [
      | inl bad ↦ rw bad h
      | inr good ↦ rw good (elim (Bool-cases (has_prefix s)) [
        | inl p ↦ rw p (parse_pairs-Held (drop 2 s) (len - 2) params k log h)
        | inr n ↦ rw n (parse_pairs-Held s len params k log h)
      ])
    ]

parse_number-IsKeeping : (n : ℕ) → IsKeeping (λ s. parse_number s n)
unfolding parse_number is_max_or_trailing_junk is_trailing_junk open_count uses_open
parse_number-IsKeeping n s params k log h = ground arith

parse_quick-IsKeeping : IsKeeping parse_quick
unfolding parse_quick is_max_or_trailing_junk is_trailing_junk open_count uses_open
parse_quick-IsKeeping s params k log h = ground arith

pub parse_io_width-IsKeeping : (op_size : SmbusSize) → IsKeeping (λ s. parse_io_width s op_size)
unfolding parse_io_width
parse_io_width-IsKeeping quick = parse_quick-IsKeeping
parse_io_width-IsKeeping size_byte = parse_number-IsKeeping 1
parse_io_width-IsKeeping size_8 = parse_number-IsKeeping 1
parse_io_width-IsKeeping size_16 = parse_number-IsKeeping 2
parse_io_width-IsKeeping proc_call = parse_number-IsKeeping 2
parse_io_width-IsKeeping size_32 = parse_number-IsKeeping 4
parse_io_width-IsKeeping size_64 = parse_number-IsKeeping 8
parse_io_width-IsKeeping size_block = parse_block-IsKeeping
parse_io_width-IsKeeping block_proc_call = parse_block-IsKeeping
parse_io_width-IsKeeping write_read = parse_block-IsKeeping

-- A result has the property, if there is one.
abbrev Gives : {A : Type 0} → (A → Type 0) → Outcome A → Type 0
Gives P (done a log) = P a
Gives P (replaced log) = Unit
Gives P (running log) = Unit
Gives P undefined = Unit

Gives-bind :
    {A B : Type 0} (P : B → Type 0) (m : M A) (f : A → M B) (k : Kernel) (log : Log)
    → ((a : A) (log' : Log) → Gives P (f a k log'))
    → Gives P ((m >>= f) k log)
Gives-bind {A} {B} P m f k log rest = go (m k log)
  where
    go :
        (o : Outcome A)
        → Gives P (elim o as (λ _. Outcome B) [
          | done a log' ↦ f a k log'
          | replaced log' ↦ replaced log'
          | running log' ↦ running log'
          | undefined ↦ undefined
        ])
    go (done a log') = rest a log'
    go (replaced log') = tt
    go (running log') = tt
    go undefined = tt

abbrev HasFd : ℕ → Option SmbusOpParams → Type 0
HasFd fd none = Unit
HasFd fd (some params) = params.fd ≡ fd

-- What `parse_pairs` does with the array.
abbrev finish_pairs : ℕ → SmbusOpParams → Option (List ℕ) → M (Option SmbusOpParams)
finish_pairs len params r = elim r as (λ _. M (Option SmbusOpParams)) [
  | none ↦ pure none
  | some memory ↦ pure (some (record params { memory = memory; len = len / 2 }))
]

finish_pairs-Quietly :
    (len : ℕ) (params : SmbusOpParams) (k : Kernel) (fd : ℕ) (r : Option (List ℕ)) (log : Log)
    → Quietly fd log (finish_pairs len params r k log)
finish_pairs-Quietly len params k fd none log = (refl, refl)
finish_pairs-Quietly len params k fd (some memory) log = (refl, refl)

finish_pairs-Gives :
    (len : ℕ) (params : SmbusOpParams) (k : Kernel) (r : Option (List ℕ)) (log : Log)
    → Gives (HasFd params.fd) (finish_pairs len params r k log)
finish_pairs-Gives len params k none log = tt
finish_pairs-Gives len params k (some memory) log = refl

-- The function opens and closes nothing, and the params that it gives have the descriptor of those
-- before.
abbrev Spares : SmbusOpParams → Kernel → Log → M (Option SmbusOpParams) → Type 0
Spares params k log m = ((fd : ℕ) → Quietly fd log (m k log)) × Gives (HasFd params.fd) (m k log)

parse_pairs-Spares :
    (src : Text) (len : ℕ) (params : SmbusOpParams) (k : Kernel) (log : Log)
    → Spares params k log (parse_pairs src len params)
unfolding parse_pairs open_count uses_open
parse_pairs-Spares src len params k log = elim (Bool-cases (ltb block_max (len / 2))) [
  | inl big ↦ rw big ((λ fd. (refl, refl)), tt)
  | inr fits ↦ rw fits (
    (λ fd.
        Quietly-bind (store_pairs src 0 zeroed) (finish_pairs len params) k log fd
          (store_pairs-Quietly src 0 zeroed k log fd) (finish_pairs-Quietly len params k fd)),
    Gives-bind (HasFd params.fd) (store_pairs src 0 zeroed) (finish_pairs len params) k log
        (finish_pairs-Gives len params k),
  )
]

parse_block-Spares :
    (s : Text) (params : SmbusOpParams) (k : Kernel) (log : Log)
    → Spares params k log (parse_block s params)
unfolding parse_block open_count uses_open
parse_block-Spares s params k log =
    let len = length s % 2 ^ 32 in
    elim (Bool-cases (is_zero_or_odd len)) [
      | inl bad ↦ rw bad ((λ fd. (refl, refl)), tt)
      | inr good ↦ rw good (elim (Bool-cases (has_prefix s)) [
        | inl p ↦ rw p (parse_pairs-Spares (drop 2 s) (len - 2) params k log)
        | inr n ↦ rw n (parse_pairs-Spares s len params k log)
      ])
    ]

-- A block that was parsed, however long its text.
pub parsed-block :
    (s : Text) (params params' : SmbusOpParams) (k : Kernel) (log log' : Log)
    → parse_io_width s write_read params k log ≡ done (some params') log'
    → ((fd : ℕ) → open_count fd log' ≡ open_count fd log) × (params'.fd ≡ params.fd)
unfolding parse_io_width
parsed-block s params params' k log log' e =
    let (quiet, given) = parse_block-Spares s params k log in
    ((λ fd. (subst (Quietly fd log) e (quiet fd)).0), subst (Gives (HasFd params.fd)) e given)
