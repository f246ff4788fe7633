-- ===== src/Smbus/Parse/Laws.antt =====
-- What `parse_io_width` accepts, and what it stores.
use iotools.Base.{
  ℕ, ◌+◌, ◌-◌, ◌^◌, ◌/◌, ◌%◌, ◌≤◌, ◌<◌, ◌≡◌, refl, ◌∙◌, inl, inr, Bool, true, false, List, [], ◌∷◌,
  ◌++◌, Option, none, some, arith, ltb, leb, if◌then◌else◌, Bool-cases, length, drop, set,
  length-set, All, All-set,
}
use iotools.Libc.Text.{Text, text}
use iotools.Libc.Strtoul.{strtoul}
use iotools.Kernel.{Kernel, Log, Outcome, done, replaced, running, undefined, M}
use iotools.Kernel.Calls.{complain, pure, ◌>>=◌, ◌>>◌}
use iotools.Kernel.Devices.{open_count}
use iotools.Platform.{native_bytes}
use iotools.Platform.Laws.{
  length-native_bytes, length-overwrite, IsBytes-overwrite, IsBytes-native_bytes,
}
use iotools.Smbus.{
  SmbusSize, SmbusOpParams, size_block, size_8, size_16, size_32, size_64, size_byte, quick,
  proc_call, block_proc_call, write_read, block_max, array_size, set_fixed, zeroed,
}
use iotools.Smbus.Parse.{
  store_number, is_trailing_junk, is_max_or_trailing_junk, parse_uint8_hex, store_byte, parse_pairs,
  store_pairs, has_prefix, is_zero_or_odd, parse_block, parse_number, parse_quick, parse_io_width,
}
use iotools.Smbus.Parse.Bytes.{
  Parses, is_trailing_junk-Judges, is_max_or_trailing_junk-Judges, after_Judges,
  parse_uint8_base-Parses,
}

-- The bytes that the array has room for, and that the loop has stored.
abbrev pub IsStored : ℕ → List ℕ → Type 0
IsStored size memory = (length memory ≡ size) × All (λ b. b < 256) memory

after_Parses :
    {A B : Type 0} (P : A → Type 0) (Q : B → Type 0) (log : Log) (m : M (Option A))
    (next : A → M (Option B)) (k : Kernel)
    → Parses P log (m k log)
    → ((a : A) (log' : Log) → P a → Parses Q log' (next a k log'))
    → Parses Q log ((m >>= λ r. elim r [ none ↦ pure none | some a ↦ next a ]) k log)
after_Parses {A} {B} P Q log m next k h keeps = go (m k log) h
  where
    widen :
        (log' : Log) (o : Outcome (Option B))
        → ((fd : ℕ) → open_count fd log' ≡ open_count fd log)
        → Parses Q log' o
        → Parses Q log o
    widen log' (done none log'') same h' = λ fd. h' fd ∙ same fd
    widen log' (done (some b) log'') same (q, h') = (q, λ fd. h' fd ∙ same fd)
    widen log' (replaced log'') same h' = absurd h'
    widen log' (running log'') same h' = absurd h'
    widen log' undefined same h' = absurd h'

    go :
        (o : Outcome (Option A))
        → Parses P log o
        → Parses Q log (elim o [
          | done r log' ↦
              elim r as (λ _. M (Option B)) [ none ↦ pure none | some a ↦ next a ] k log'
          | replaced log' ↦ replaced log'
          | running log' ↦ running log'
          | undefined ↦ undefined
        ])
    go (done none log') same = same
    go (done (some a) log') (p, same) = widen log' (next a k log') same (keeps a log' p)
    go (replaced log') h' = absurd h'
    go (running log') h' = absurd h'
    go undefined h' = absurd h'

store_byte_lem :
    (dest v : ℕ) (memory : List ℕ) (k : Kernel) (log : Log)
    → dest < array_size
    → store_byte dest v memory k log ≡ done (set memory dest v) log
unfolding store_byte
store_byte_lem dest v memory k log h = ground arith

-- The loop stays inside the array and inside the text: with an even number of digits that fit, it
-- returns, and the array keeps its size.
store_pairs-Parses :
    (src : Text) (dest : ℕ) (memory : List ℕ) (k : Kernel) (log : Log)
    → length src % 2 ≡ 0
    → dest + length src / 2 ≤ array_size
    → IsStored array_size memory
    → Parses (IsStored array_size) log (store_pairs src dest memory k log)
unfolding store_pairs
store_pairs-Parses [] dest memory k log even fits stored = (stored, λ fd. refl)
store_pairs-Parses (a ∷ []) dest memory k log even fits stored = absurd (omega arith)
store_pairs-Parses (a ∷ b ∷ src) dest memory k log even fits stored =
    after_Parses (λ v. (strtoul 16 (a ∷ b ∷ []) ≡ (v, [])) × (v < 256)) (IsStored array_size) log
      (parse_uint8_hex (a ∷ b ∷ [])) (λ v. store_byte dest v memory >>= store_pairs src (dest + 1))
      k (unfold parse_uint8_hex in parse_uint8_base-Parses (a ∷ b ∷ []) 16 k log)
      (λ v log' p.
        rw (store_byte_lem dest v memory k log' (omega arith), ◌>>=◌)
          (store_pairs-Parses src (dest + 1) (set memory dest v) k log' (omega arith) (omega arith)
            (
              length-set memory dest v ∙ stored.0,
              All-set (λ b. b < 256) memory dest v p.1 stored.1,
            )))

zeroed-IsStored : IsStored array_size zeroed
zeroed-IsStored = omega arith

-- The data of the params are an array of bytes, and a block fits a transfer.
abbrev pub IsReady : SmbusOpParams → Type 0
IsReady params = IsStored array_size params.memory × (params.len ≤ block_max)

-- What the params are behind `parse_io_width`; the descriptor is kept.
abbrev pub IsParsed : SmbusOpParams → SmbusOpParams → Type 0
IsParsed params params' = IsStored array_size params'.memory × (params'.fd ≡ params.fd)

abbrev IsBlock : SmbusOpParams → SmbusOpParams → Type 0
IsBlock params params' = IsParsed params params' × (params'.len ≤ block_max)

parse_pairs-Parses :
    (src : Text) (len : ℕ) (params : SmbusOpParams) (k : Kernel) (log : Log)
    → length src ≡ len
    → len % 2 ≡ 0
    → Parses (IsBlock params) log (parse_pairs src len params k log)
parse_pairs-Parses src len params k log whole even = elim (Bool-cases (ltb block_max (len / 2))) [
  | inl big ↦ unfold parse_pairs in rw big (unfold open_count in λ fd. refl)
  | inr fits ↦
      unfold parse_pairs in
      rw fits (
        after_Parses (IsStored array_size) (IsBlock params) log (store_pairs src 0 zeroed)
          (λ memory. pure (some (record params { memory = memory; len = len / 2 }))) k
          (store_pairs-Parses src 0 zeroed k log (omega arith) (ground arith) zeroed-IsStored)
          (λ memory log' stored. (((stored, refl), ground arith), λ fd. refl)))
]

length-drop_prefix : (arg : Text) → has_prefix arg ≡ true → length (drop 2 arg) + 2 ≡ length arg
unfolding has_prefix
length-drop_prefix [] h = absurd (cc)
length-drop_prefix (z ∷ []) h = absurd (cc)
length-drop_prefix (z ∷ x ∷ s) h = omega arith

parse_block-Parses :
    (arg : Text) (params : SmbusOpParams) (k : Kernel) (log : Log)
    → length arg < 2 ^ 31
    → Parses (IsBlock params) log (parse_block arg params k log)
parse_block-Parses arg params k log short =
    let whole : length arg % 2 ^ 32 ≡ length arg = omega arith in
    elim (Bool-cases (is_zero_or_odd (length arg))) [
      | inl bad ↦ unfold parse_block in rw (whole, bad) (unfold open_count in λ fd. refl)
      | inr good ↦
          let even : length arg % 2 ≡ 0 = ground arith in
          unfold parse_block in
          rw (whole, good)
            (elim (Bool-cases (has_prefix arg)) [
              | inl p ↦
                  let fewer = length-drop_prefix arg p in
                  rw p (
                    parse_pairs-Parses (drop 2 arg) (length arg - 2) params k log (omega arith)
                      (omega arith))
              | inr n ↦ rw n (parse_pairs-Parses arg (length arg) params k log refl even)
            ])
    ]

set_fixed-IsStored :
    (big : Bool) (n v : ℕ) → n ≤ array_size → IsStored array_size (set_fixed big n v zeroed)
set_fixed-IsStored big n v h = (
  length-overwrite (native_bytes big n v) zeroed (omega (arith, length-native_bytes big n v)),
  IsBytes-overwrite (native_bytes big n v) zeroed (IsBytes-native_bytes big n v) zeroed-IsStored.1,
)

stores_number :
    (n ldata : ℕ) (params : SmbusOpParams) (k : Kernel) (log : Log)
    → n ≤ array_size
    → Parses (IsParsed params) log (store_number false n ldata params k log)
stores_number n ldata params k log h =
    ((set_fixed-IsStored k.big_endian n ldata h, refl), λ fd. refl)

parse_number-Parses :
    (arg : Text) (n : ℕ) (params : SmbusOpParams) (k : Kernel) (log : Log)
    → n ≤ array_size
    → Parses (IsParsed params) log (parse_number arg n params k log)
parse_number-Parses arg n params k log h =
    let (ldata, end) = strtoul 0 arg in
    let stored = λ (e : end ≡ []). stores_number n ldata params k log h in
    elim (Bool-cases (ltb n 4)) [
      | inl narrow ↦
          unfold parse_number in
          rw narrow (
            after_Judges (IsParsed params) end log (is_max_or_trailing_junk arg end ldata)
              (store_number false n ldata params) k
              (is_max_or_trailing_junk-Judges arg end ldata k log) stored)
      | inr wide ↦
          unfold parse_number in
          rw wide (
            after_Judges (IsParsed params) end log (is_trailing_junk arg end)
              (store_number false n ldata params) k (is_trailing_junk-Judges arg end k log) stored)
    ]

parse_quick-Parses :
    (arg : Text) (params : SmbusOpParams) (k : Kernel) (log : Log)
    → Parses (IsParsed params) log (parse_quick arg params k log)
parse_quick-Parses arg params k log =
    let (ldata, end) = strtoul 0 arg in
    unfold parse_quick in
    after_Judges (IsParsed params) end log (is_max_or_trailing_junk arg end ldata)
      (if leb ldata 1
        then store_number false 1 ldata params
        else (complain (arg ++ text ": isn't 0 or 1\n") >> pure none))
      k (is_max_or_trailing_junk-Judges arg end ldata k log)
      (λ e. elim (Bool-cases (leb ldata 1)) [
        | inl small ↦ rw small (stores_number 1 ldata params k log (omega arith))
        | inr big ↦ rw big (unfold open_count in λ fd. refl)
      ])

-- The sizes whose values are blocks.
abbrev pub has_block : SmbusSize → Bool
has_block size_block = true
has_block block_proc_call = true
has_block write_read = true
has_block _ = false

-- The length of the block, for a size that has one.
abbrev pub block_len : SmbusSize → SmbusOpParams → ℕ
block_len op_size params = if has_block op_size then params.len else 0

weaken :
    {A : Type 0} (P Q : A → Type 0) (log : Log) (o : Outcome (Option A))
    → ((a : A) → P a → Q a)
    → Parses P log o
    → Parses Q log o
weaken P Q log (done none log') f h = h
weaken P Q log (done (some a) log') f h = (f a h.0, h.1)
weaken P Q log (replaced log') f h = absurd h
weaken P Q log (running log') f h = absurd h
weaken P Q log undefined f h = absurd h

number :
    (arg : Text) (op_size : SmbusSize) (n : ℕ) (params : SmbusOpParams) (k : Kernel) (log : Log)
    → has_block op_size ≡ false
    → n ≤ array_size
    → Parses
        (λ params'. IsParsed params params' × (block_len op_size params' ≤ block_max))
        log
        (parse_number arg n params k log)
number arg op_size n params k log e h =
    weaken (IsParsed params) (λ p. IsParsed params p × (block_len op_size p ≤ block_max)) log
      (parse_number arg n params k log) (λ p h'. (h', ground arith))
      (parse_number-Parses arg n params k log h)

block :
    (arg : Text) (params : SmbusOpParams) (k : Kernel) (log : Log)
    → length arg < 2 ^ 31
    → Parses
        (λ params'. IsParsed params params' × (params'.len ≤ block_max))
        log
        (parse_block arg params k log)
block arg params k log short =
    weaken (IsBlock params) (λ p. IsParsed params p × (p.len ≤ block_max)) log
      (parse_block arg params k log) (λ p h. h) (parse_block-Parses arg params k log short)

-- Whatever the size and the text, if an int can count its characters, `parse_io_width` returns: it
-- reads within the text and stores within the array. If it succeeds, the array has 34 bytes, a block has 32 bytes at most, and the descriptor
-- is that of the params before.
pub parse_io_width-Parses :
    (arg : Text) (op_size : SmbusSize) (params : SmbusOpParams) (k : Kernel) (log : Log)
    → length arg < 2 ^ 31
    → Parses
        (λ params'. IsParsed params params' × (block_len op_size params' ≤ block_max))
        log
        (parse_io_width arg op_size params k log)
unfolding parse_io_width
parse_io_width-Parses arg size_8 params k log short =
    number arg size_8 1 params k log refl (omega arith)
parse_io_width-Parses arg size_16 params k log short =
    number arg size_16 2 params k log refl (omega arith)
parse_io_width-Parses arg size_32 params k log short =
    number arg size_32 4 params k log refl (omega arith)
parse_io_width-Parses arg size_64 params k log short =
    number arg size_64 8 params k log refl (omega arith)
parse_io_width-Parses arg size_byte params k log short =
    number arg size_byte 1 params k log refl (omega arith)
parse_io_width-Parses arg proc_call params k log short =
    number arg proc_call 2 params k log refl (omega arith)
parse_io_width-Parses arg quick params k log short =
    weaken (IsParsed params) (λ p. IsParsed params p × (0 ≤ block_max)) log
      (parse_quick arg params k log) (λ p h. (h, omega arith)) (parse_quick-Parses arg params k log)
parse_io_width-Parses arg size_block params k log short = block arg params k log short
parse_io_width-Parses arg block_proc_call params k log short = block arg params k log short
parse_io_width-Parses arg write_read params k log short = block arg params k log short
