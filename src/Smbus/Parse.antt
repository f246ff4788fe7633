-- ===== src/Smbus/Parse.antt =====
-- smbus_rw.c: the values on the command line, up to `parse_io_width`.
pub mod Bytes
pub mod Laws
pub mod Quiet
use iotools.Base.{
  ℕ, ◌+◌, ◌-◌, ◌/◌, ◌%◌, ◌^◌, Bool, true, false, not, ◌&&◌, ◌||◌, List, [], ◌∷◌, ◌++◌, Option, none,
  some, ltb, leb, ◌==◌, if◌then◌else◌, length, drop, set,
}
use iotools.Libc.Text.{Text, text}
use iotools.Base.Int.{to_signed}
use iotools.Libc.Print.{dec_int}
use iotools.Libc.Strtoul.{strtoul, long_max}
use iotools.Kernel.{M}
use iotools.Kernel.Calls.{pure, fault, ◌>>=◌, ◌>>◌, complain, big_endian}
use iotools.Smbus.{
  SmbusSize, size_8, size_16, size_32, size_64, size_block, size_byte, quick, proc_call,
  block_proc_call, write_read, SmbusOpParams, block_max, array_size, set_fixed, zeroed,
}

-- `istrailingjunk`: whether it fails; `end` is the text behind the number.
unfoldable pub is_trailing_junk : Text → Text → M Bool
is_trailing_junk arg [] = pure false
is_trailing_junk arg (c ∷ end) = complain (arg ++ text ": is followed by junk\n") >> pure true

-- `ismaxortrailingjunk`: whether it fails
unfoldable pub is_max_or_trailing_junk : Text → Text → ℕ → M Bool
unfolding is_trailing_junk
is_max_or_trailing_junk arg end ldata =
    if ldata == long_max
    then complain (arg ++ text ": is LONG_MAX\n") >> pure true
    else is_trailing_junk arg end

abbrev pub check_byte : Text → ℕ → M (Option ℕ)
check_byte arg ldata =
    if ltb 0xff ldata
    then complain (arg ++ text ": won't fit in a byte\n") >> pure none
    else pure (some ldata)

-- `parse_uint8_base`: the byte, or none for -1
unfoldable pub parse_uint8_base : Text → ℕ → M (Option ℕ)
unfolding is_max_or_trailing_junk
parse_uint8_base arg base = do
  let (ldata, end) = strtoul base arg
  bad ← is_max_or_trailing_junk arg end ldata
  if bad then pure none else check_byte arg ldata

-- `parse_uint8`
unfoldable pub parse_uint8 : Text → M (Option ℕ)
parse_uint8 arg = parse_uint8_base arg 0

-- `parse_uint8_hex`
unfoldable pub parse_uint8_hex : Text → M (Option ℕ)
parse_uint8_hex arg = parse_uint8_base arg 16

-- `*dest = v`, inside the array.
unfoldable pub store_byte : ℕ → ℕ → List ℕ → M (List ℕ)
store_byte dest v memory = if ltb dest array_size then pure (set memory dest v) else fault

-- The loop of `parse_io_width` over pairs of digits. Behind a single last one it would read on
-- behind the end of the text.
unfoldable pub store_pairs : Text → ℕ → List ℕ → M (Option (List ℕ))
store_pairs [] dest memory = pure (some memory)
store_pairs (a ∷ []) dest memory =
    parse_uint8_hex (a ∷ []) >>= λ r. elim r [ none ↦ pure none | some v ↦ fault ]
store_pairs (a ∷ b ∷ src) dest memory = parse_uint8_hex (a ∷ b ∷ []) >>= λ r. elim r [
  | none ↦ pure none
  | some v ↦ store_byte dest v memory >>= store_pairs src (dest + 1)
]

-- `arg[0] == '0' && (arg[1] == 'x' || arg[1] == 'X')`
unfoldable pub has_prefix : Text → Bool
has_prefix (z ∷ x ∷ s) = z == b'0' && (x == b'x' || x == b'X')
has_prefix _ = false

-- The case of `parse_io_width` for blocks, from the test of the number of bytes on; `len` counts the
-- digits.
unfoldable pub parse_pairs : Text → ℕ → SmbusOpParams → M (Option SmbusOpParams)
parse_pairs src len params =
    if ltb block_max (len / 2)
    then complain (text "data has more than 32 bytes\n") >> pure none
    else (store_pairs src 0 zeroed >>= λ r. elim r [
      | none ↦ pure none
      | some memory ↦ pure (some (record params { memory = memory; len = len / 2 }))
    ])

-- `len <= 0 || len % 2 != 0`, for the int whose 32 bits are given.
abbrev pub is_zero_or_odd : ℕ → Bool
is_zero_or_odd len = len == 0 || (leb (2 ^ 31) len || not (len % 2 == 0))

-- The case of `parse_io_width` for blocks. The result of strlen is cut to an int.
unfoldable pub parse_block : Text → SmbusOpParams → M (Option SmbusOpParams)
unfolding has_prefix
parse_block arg params =
    let len = length arg % 2 ^ 32 in
    if is_zero_or_odd len
    then (complain (text "data length (" ++ (dec_int (to_signed 32 len) ++ text ") is 0 or odd\n"))
        >> pure none)
    else if has_prefix arg
    then parse_pairs (drop 2 arg) (len - 2) params
    else parse_pairs arg len params

-- The assignment of a case of `parse_io_width` for numbers, after its test.
abbrev pub store_number : Bool → ℕ → ℕ → SmbusOpParams → M (Option SmbusOpParams)
store_number bad n ldata params =
    if bad
    then pure none
    else (big_endian >>= λ big.
        pure (some (record params { memory = set_fixed big n ldata zeroed })))

-- A case of `parse_io_width` for numbers of `n` bytes; those of 4 bytes and more may be LONG_MAX.
unfoldable pub parse_number : Text → ℕ → SmbusOpParams → M (Option SmbusOpParams)
unfolding is_max_or_trailing_junk
parse_number arg n params = do
  let (ldata, end) = strtoul 0 arg
  bad ← if ltb n 4 then is_max_or_trailing_junk arg end ldata else is_trailing_junk arg end
  store_number bad n ldata params

-- The case of `parse_io_width` for SMBUS_QUICK.
unfoldable pub parse_quick : Text → SmbusOpParams → M (Option SmbusOpParams)
unfolding is_max_or_trailing_junk
parse_quick arg params = do
  let (ldata, end) = strtoul 0 arg
  bad ← is_max_or_trailing_junk arg end ldata
  if bad
      then pure none
      else if leb ldata 1
      then store_number false 1 ldata params
      else (complain (arg ++ text ": isn't 0 or 1\n") >> pure none)

-- `parse_io_width`: the params with the new data, or none for -1
unfoldable pub parse_io_width : Text → SmbusSize → SmbusOpParams → M (Option SmbusOpParams)
parse_io_width arg quick = parse_quick arg
parse_io_width arg size_byte = parse_number arg 1
parse_io_width arg size_8 = parse_number arg 1
parse_io_width arg size_16 = parse_number arg 2
parse_io_width arg proc_call = parse_number arg 2
parse_io_width arg size_32 = parse_number arg 4
parse_io_width arg size_64 = parse_number arg 8
parse_io_width arg size_block = parse_block arg
parse_io_width arg block_proc_call = parse_block arg
parse_io_width arg write_read = parse_block arg
