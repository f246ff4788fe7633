-- ===== src/Smbus/Blocks.antt =====
-- Blocks of bytes as text: what `print_read_data` prints, `parse_io_width` reads back.
use cubical.Cubical.Data.Sigma.Properties.{≡-×}
use iotools.Base.Table.{passes, passes_lem, both_true}
use iotools.Base.{
  ℕ, ◌+◌, ◌*◌, ◌^◌, ◌/◌, ◌%◌, ◌≤◌, ◌<◌, ◌≡◌, refl, sym, ◌∙◌, ap, Bool, true, false, ◌&&◌, not, List,
  [], ◌∷◌, ◌++◌, Option, none, some, arith, ltb, ◌==◌, length, drop, set, All, length-append,
  ==_iff, append_assoc, append-nil, take-length_append,
}
use iotools.Base.Int.{pos}
use iotools.Libc.Text.{Text, text, str_eq, str_eq_iff}
use iotools.Libc.Print.{upper_hex_padded, digit_char}
use iotools.Libc.Strtoul.{strtoul}
use iotools.Kernel.{M, Kernel, Log, done, printed}
use iotools.Kernel.Calls.{pure, ◌>>=◌, for_each, print}
use iotools.Kernel.Loops.{bind_done, then_done}
use iotools.Platform.{overwrite}
use iotools.Kernel.Devices.{output}
use iotools.Smbus.{SmbusOpParams, size_block, block_max, array_size, zeroed}
use iotools.Smbus.Parse.{
  parse_uint8_hex, store_byte, store_pairs, has_prefix, is_zero_or_odd, parse_pairs, parse_block,
  parse_io_width,
}
use iotools.Smbus.Parse.Bytes.{parse_uint8_base-accepts}
use iotools.Smbus.Transfer.{print_read_data}

-- "%02X", by its two digits.
abbrev hex_pair : ℕ → Text
hex_pair b = digit_char true (b / 16) ∷ digit_char true (b % 16) ∷ []

-- The digits of a block.
unfoldable pub block_text : List ℕ → Text
block_text [] = []
block_text (b ∷ bytes) = digit_char true (b / 16) ∷ digit_char true (b % 16) ∷ block_text bytes

is_pair_of : ℕ → Bool
is_pair_of b = str_eq (upper_hex_padded 2 b) (hex_pair b)

reads_pair : ℕ → Bool
reads_pair b = (strtoul 16 (hex_pair b)).0 == b && str_eq (strtoul 16 (hex_pair b)).1 []

is_pair_of_all : passes is_pair_of 256 ≡ true
unfolding passes is_pair_of str_eq upper_hex_padded digit_char
is_pair_of_all = refl

reads_pair_all : passes reads_pair 256 ≡ true
unfolding passes reads_pair str_eq strtoul digit_char
reads_pair_all = refl

upper_hex_padded-byte : (b : ℕ) → b < 256 → upper_hex_padded 2 b ≡ hex_pair b
upper_hex_padded-byte b h =
    (str_eq_iff (upper_hex_padded 2 b) (hex_pair b)).0
      (unfold is_pair_of in passes_lem is_pair_of 256 b is_pair_of_all h)

pair_of : {r : ℕ × Text} {b : ℕ} → (r.0 == b && str_eq r.1 []) ≡ true → r ≡ (b, [])
pair_of {r} {b} h =
    let both = both_true (r.0 == b) (str_eq r.1 []) h in
    ≡-× ((==_iff r.0 b).0 both.0) ((str_eq_iff r.1 []).0 both.1)

strtoul-pair : (b : ℕ) → b < 256 → strtoul 16 (hex_pair b) ≡ (b, [])
strtoul-pair b h = pair_of (unfold reads_pair in passes_lem reads_pair 256 b reads_pair_all h)

set-length_append : (xs ys : List ℕ) (y v : ℕ) → set (xs ++ (y ∷ ys)) (length xs) v ≡ xs ++ (v ∷ ys)
set-length_append [] ys y v = refl
set-length_append (x ∷ xs) ys y v = ap (λ (t : List ℕ). x ∷ t) (set-length_append xs ys y v)

store_byte-inside :
    (dest v : ℕ) (memory : List ℕ) (k : Kernel) (log : Log)
    → dest < array_size
    → store_byte dest v memory k log ≡ done (set memory dest v) log
unfolding store_byte
store_byte-inside dest v memory k log h = ground arith

store_pairs-reads :
    (x y : ℕ) (src : Text) (dest v : ℕ) (memory : List ℕ) (k : Kernel) (log : Log)
    → parse_uint8_hex (x ∷ y ∷ []) k log ≡ done (some v) log
    → store_byte dest v memory k log ≡ done (set memory dest v) log
    → store_pairs (x ∷ y ∷ src) dest memory k log
      ≡ store_pairs src (dest + 1) (set memory dest v) k log
unfolding store_pairs
store_pairs-reads x y src dest v memory k log read stored =
    bind_done (parse_uint8_hex (x ∷ y ∷ []))
      (λ r. elim r as (λ x'. M (Option (List ℕ))) [
        | none ↦ pure none
        | some v' ↦ store_byte dest v' memory >>= store_pairs src (dest + 1)
      ])
      k read
    ∙ bind_done (store_byte dest v memory) (store_pairs src (dest + 1)) k stored

append-cons : (xs ys : List ℕ) (b : ℕ) → xs ++ (b ∷ ys) ≡ (xs ++ (b ∷ [])) ++ ys
append-cons xs ys b = sym (append_assoc xs (b ∷ []) ys)

-- One round of the loop.
store_pairs-step :
    (b : ℕ) (src : Text) (dest : ℕ) (memory : List ℕ) (k : Kernel) (log : Log)
    → b < 256
    → dest < array_size
    → store_pairs (digit_char true (b / 16) ∷ digit_char true (b % 16) ∷ src) dest memory k log
      ≡ store_pairs src (dest + 1) (set memory dest b) k log
store_pairs-step b src dest memory k log h inside =
    let read : parse_uint8_hex (hex_pair b) k log ≡ done (some b) log =
      unfold parse_uint8_hex in
      parse_uint8_base-accepts (hex_pair b) 16 b k log (strtoul-pair b h) h in
    store_pairs-reads (digit_char true (b / 16)) (digit_char true (b % 16)) src dest b memory k log
      read (store_byte-inside dest b memory k log inside)

-- The loop puts the bytes behind those that it has stored before.
store_pairs-block_text :
    (bytes xs ys : List ℕ) (k : Kernel) (log : Log)
    → All (λ b. b < 256) bytes
    → length xs + length ys ≡ array_size
    → length bytes ≤ length ys
    → store_pairs (block_text bytes) (length xs) (xs ++ ys) k log
      ≡ done (some (xs ++ overwrite bytes ys)) log
unfolding block_text
store_pairs-block_text [] xs ys k log h total fits = unfold store_pairs in refl
store_pairs-block_text (b ∷ bytes) xs [] k log h total fits = absurd (omega arith)
store_pairs-block_text (b ∷ bytes) xs (y ∷ ys) k log h total fits =
    let grown : length (xs ++ (b ∷ [])) ≡ length xs + 1 = length-append xs (b ∷ []) in
    let rest =
      store_pairs-block_text bytes (xs ++ (b ∷ [])) ys k log h.1 (omega arith) (omega arith) in
    store_pairs-step b (block_text bytes) (length xs) (xs ++ (y ∷ ys)) k log h.0 (omega arith)
    ∙ (rw
        (
          set-length_append xs ys y b,
          sym grown,
          append-cons xs ys b,
          append-cons xs (overwrite bytes ys) b,
        )
        rest)

length-block_text : (bytes : List ℕ) → length (block_text bytes) ≡ 2 * length bytes
unfolding block_text
length-block_text [] = refl
length-block_text (b ∷ bytes) = let rest = length-block_text bytes in omega arith

has_no_prefix : ℕ → Bool
has_no_prefix b = not (has_prefix (hex_pair b))

has_no_prefix_all : passes has_no_prefix 256 ≡ true
unfolding passes has_no_prefix has_prefix digit_char
has_no_prefix_all = refl

-- An upper-case digit is no 'x'.
has_prefix-block_text :
    (bytes : List ℕ) → All (λ b. b < 256) bytes → has_prefix (block_text bytes) ≡ false
unfolding block_text has_no_prefix has_prefix
has_prefix-block_text [] h = refl
has_prefix-block_text (b ∷ bytes) h =
    let sound : has_no_prefix b ≡ true = passes_lem has_no_prefix 256 b has_no_prefix_all h.0 in
    ground arith

parse_pairs-block_text :
    (bytes : List ℕ) (len : ℕ) (params : SmbusOpParams) (k : Kernel) (log : Log)
    → All (λ b. b < 256) bytes
    → len ≡ 2 * length bytes
    → length bytes ≤ block_max
    → parse_pairs (block_text bytes) len params k log
      ≡ done (some (record params { memory = overwrite bytes zeroed; len = length bytes })) log
parse_pairs-block_text bytes len params k log h whole fits =
    let half : len / 2 ≡ length bytes = omega arith in
    let small : ltb block_max (len / 2) ≡ false = ground arith in
    let stored = store_pairs-block_text bytes [] zeroed k log h (omega arith) (omega arith) in
    unfold parse_pairs in
    rw small (
      bind_done (store_pairs (block_text bytes) 0 zeroed)
        (λ r. elim r as (λ x. M (Option SmbusOpParams)) [
          | none ↦ pure none
          | some memory ↦ pure (some (record params { memory = memory; len = len / 2 }))
        ])
        k stored
      ∙ ap (λ (n : ℕ). done (some (record params { memory = overwrite bytes zeroed; len = n })) log)
          half)

parse_block-block_text :
    (bytes : List ℕ) (params : SmbusOpParams) (k : Kernel) (log : Log)
    → All (λ b. b < 256) bytes
    → 1 ≤ length bytes
    → length bytes ≤ block_max
    → parse_block (block_text bytes) params k log
      ≡ done (some (record params { memory = overwrite bytes zeroed; len = length bytes })) log
parse_block-block_text bytes params k log h some_byte fits =
    let digits : length (block_text bytes) % 2 ^ 32 ≡ 2 * length bytes =
      omega (arith, length-block_text bytes) in
    let even : is_zero_or_odd (2 * length bytes) ≡ false = ground arith in
    unfold parse_block in
    rw (digits, even, has_prefix-block_text bytes h)
      (parse_pairs-block_text bytes (2 * length bytes) params k log h refl fits)

-- The loop of `print_read_data` prints the digits of the bytes.
for_each-prints :
    (bytes : List ℕ) (k : Kernel) (log : Log)
    → All (λ b. b < 256) bytes
    → (log' : Log) × (for_each bytes (λ b. print (upper_hex_padded 2 b)) k log ≡ done tt log')
      × (output log' ≡ output log ++ block_text bytes)
unfolding for_each output block_text
for_each-prints [] k log h = (log, refl, sym (append-nil (output log)))
for_each-prints (b ∷ bytes) k log h =
    let (log', e, o) = for_each-prints bytes k (printed (upper_hex_padded 2 b) ∷ log) h.1 in
    (
      log',
      e,
      o
          ∙ (rw
              (
                upper_hex_padded-byte b h.0,
                append_assoc (output log) (hex_pair b) (block_text bytes),
              )
              refl),
    )

-- What `print_read_data` prints for a block of 1 to 32 bytes is, before its newline, an argument
-- from which `parse_io_width` takes the same bytes and the same length, whatever the params are.
pub print_read_data-parse_io_width :
    (bytes : List ℕ) (params : SmbusOpParams) (k : Kernel) (log : Log)
    → All (λ b. b < 256) bytes
    → 1 ≤ length bytes
    → length bytes ≤ block_max
    → (log' : Log) × (s : Text) × (print_read_data size_block
          (pos (length bytes))
          (overwrite bytes zeroed)
          k
          log
        ≡ done tt log')
      × (output log' ≡ output log ++ (s ++ text "\n"))
      × (parse_io_width s size_block params k log'
          ≡ done
              (some (record params { memory = overwrite bytes zeroed; len = length bytes }))
              log')
print_read_data-parse_io_width bytes params k log h some_byte fits =
    let (log', e, o) = for_each-prints bytes k log h in
    let small : ltb block_max (length bytes) ≡ false = ground arith in
    (
      printed (text "\n") ∷ log',
      block_text bytes,
      unfold print_read_data in
          rw (small, take-length_append bytes (drop (length bytes) zeroed))
            (then_done (for_each bytes (λ b. print (upper_hex_padded 2 b))) (print (text "\n")) k
              e),
      unfold output in rw (o, append_assoc (output log) (block_text bytes) (text "\n")) refl,
      unfold parse_io_width in
          parse_block-block_text bytes params k (printed (text "\n") ∷ log') h some_byte fits,
    )
