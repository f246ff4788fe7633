-- ===== src/Platform/Tests.antt =====
-- The conversions of a word of two bytes, on a big-endian machine.
use std.Equiv.{IsEquiv}
use iotools.Base.{ℕ, ◌≡◌, true, List, length}
use iotools.Platform.{native_word, le_word, le_to_host}
use iotools.Platform.Laws.{IsBytes}
use iotools.Platform.Words.{Word, word_to_host, word_to_le, le_to_host-IsEquiv}

le_to_host-IsEquiv_example :
    ((bs : List ℕ)
      → length bs ≡ 2
      → IsBytes bs
      → le_to_host true 2 (native_word true bs) ≡ le_word bs)
    × IsEquiv (word_to_host true 2)
    × ((u : Word 2) → word_to_le true 2 (word_to_host true 2 u) ≡ u)
le_to_host-IsEquiv_example = le_to_host-IsEquiv true 2
