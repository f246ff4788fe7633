-- ===== src/Platform.antt =====
-- platform.h: the byte order of the machine, and the conversions to and from little-endian words.
-- A word in memory is read and written in the machine's order.
pub mod Laws
pub mod Words
pub mod Tests
use mathlib.Core.List.{reverse}
use iotools.Base.{
  ℕ, zero, suc, ◌+◌, ◌*◌, ◌/◌, ◌%◌, Bool, true, false, List, [], ◌∷◌, ◌++◌, length, drop,
  if◌then◌else◌,
}

-- The word of the bytes, the lowest first.
abbrev pub le_word : List ℕ → ℕ
le_word [] = 0
le_word (b ∷ bs) = b + 256 * le_word bs

-- The lowest `n` bytes of a word, the lowest first.
abbrev pub le_bytes : ℕ → ℕ → List ℕ
le_bytes zero w = []
le_bytes (suc n) w = (w % 256) ∷ le_bytes n (w / 256)

-- A word that read() put into memory, as the program sees it.
abbrev pub native_word : Bool → List ℕ → ℕ
native_word big_endian bytes = le_word (if big_endian then reverse bytes else bytes)

-- The memory of a word of `n` bytes, as write() takes it.
abbrev pub native_bytes : Bool → ℕ → ℕ → List ℕ
native_bytes big_endian n w =
    let bytes = le_bytes n w in if big_endian then reverse bytes else bytes

-- Memory, after bytes came in place of its first ones.
abbrev pub overwrite : List ℕ → List ℕ → List ℕ
overwrite bytes memory = bytes ++ drop (length bytes) memory

-- `bswap_16` and `bswap_32`, of `n` bytes
abbrev pub bswap : ℕ → ℕ → ℕ
bswap n w = le_word (reverse (le_bytes n w))

-- `le_to_host_8`, `le_to_host_16` and `le_to_host_32`
unfoldable pub le_to_host : Bool → ℕ → ℕ → ℕ
le_to_host big_endian n w = if big_endian then bswap n w else w

-- `host_to_le_8`, `host_to_le_16` and `host_to_le_32`
unfoldable pub host_to_le : Bool → ℕ → ℕ → ℕ
host_to_le big_endian n w = if big_endian then bswap n w else w
