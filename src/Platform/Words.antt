-- ===== src/Platform/Words.antt =====
-- The conversions of platform.h as maps between the words of a width.
use std.Equiv.{Iso, IsEquiv, iso_to_equiv}
use mathlib.Core.HLevel.{Σ_prop_path}
use mathlib.Core.List.{reverse, reverse-reverse}
use native.Mathlib.Bridge.{le_prop}
use native.Mathlib.Nat.{pow-suc}
use iotools.Base.{ℕ, ◌<◌, ◌^◌, ◌≡◌, refl, ◌∙◌, Bool, true, false, List, [], ◌∷◌, arith, length}
use iotools.Platform.{le_word, le_bytes, native_word, bswap, le_to_host, host_to_le}
use iotools.Platform.Laws.{
  IsBytes, IsBytes-le_bytes, IsBytes-reverse, length-reverse, length-le_bytes, le_word-le_bytes,
  le_bytes-le_word, le_to_host-native_word,
}

-- The words of `n` bytes.
abbrev pub Word : ℕ → Type 0
Word n = (w : ℕ) × (w < 256 ^ n)

le_word-lt : (bs : List ℕ) → IsBytes bs → le_word bs < 256 ^ length bs
le_word-lt [] h = omega arith
le_word-lt (b ∷ bs) (hb, h) = omega (arith, le_word-lt bs h, pow-suc 256 (length bs))

bswap-lt : (n w : ℕ) → bswap n w < 256 ^ n
bswap-lt n w =
    let bytes = le_bytes n w in
    let long : length (reverse bytes) ≡ n = length-reverse bytes ∙ length-le_bytes n w in
    rw long at (le_word-lt (reverse bytes) (IsBytes-reverse bytes (IsBytes-le_bytes n w)))

-- Swapping the bytes twice gives the word back.
bswap-bswap : (n w : ℕ) → w < 256 ^ n → bswap n (bswap n w) ≡ w
bswap-bswap n w h =
    let bytes = le_bytes n w in
    let long : length (reverse bytes) ≡ n = length-reverse bytes ∙ length-le_bytes n w in
    let back : le_bytes n (le_word (reverse bytes)) ≡ reverse bytes =
      rw long at
        (le_bytes-le_word (reverse bytes) (IsBytes-reverse bytes (IsBytes-le_bytes n w))) in
    rw (back, reverse-reverse) (le_word-le_bytes n w h)

pub le_to_host-lt : (big : Bool) (n w : ℕ) → w < 256 ^ n → le_to_host big n w < 256 ^ n
unfolding le_to_host
le_to_host-lt true n w h = bswap-lt n w
le_to_host-lt false n w h = h

pub host_to_le-lt : (big : Bool) (n w : ℕ) → w < 256 ^ n → host_to_le big n w < 256 ^ n
unfolding host_to_le
host_to_le-lt true n w h = bswap-lt n w
host_to_le-lt false n w h = h

le_to_host-host_to_le :
    (big : Bool) (n w : ℕ) → w < 256 ^ n → le_to_host big n (host_to_le big n w) ≡ w
unfolding le_to_host host_to_le
le_to_host-host_to_le true n w h = bswap-bswap n w h
le_to_host-host_to_le false n w h = refl

host_to_le-le_to_host :
    (big : Bool) (n w : ℕ) → w < 256 ^ n → host_to_le big n (le_to_host big n w) ≡ w
unfolding le_to_host host_to_le
host_to_le-le_to_host true n w h = bswap-bswap n w h
host_to_le-le_to_host false n w h = refl

abbrev pub word_to_host : Bool → (n : ℕ) → Word n → Word n
word_to_host big n (w, h) = (le_to_host big n w, le_to_host-lt big n w h)

abbrev pub word_to_le : Bool → (n : ℕ) → Word n → Word n
word_to_le big n (w, h) = (host_to_le big n w, host_to_le-lt big n w h)

Word-path : (n : ℕ) {u v : Word n} → u.0 ≡ v.0 → u ≡ v
Word-path n e = Σ_prop_path (λ w. le_prop) e

-- On either kind of machine and at any width, le_to_host makes of the word that the machine sees in
-- some bytes the number that they spell with the lowest byte first. It is an equivalence of the words
-- of that width with themselves, and host_to_le goes back from it: no two words in the file are one
-- word of the machine, and none is out of reach.
pub le_to_host-IsEquiv :
    (big : Bool) (n : ℕ)
    → ((bs : List ℕ)
        → length bs ≡ n
        → IsBytes bs
        → le_to_host big n (native_word big bs) ≡ le_word bs)
      × IsEquiv (word_to_host big n)
      × ((u : Word n) → word_to_le big n (word_to_host big n u) ≡ u)
le_to_host-IsEquiv big n =
    let conversions : Iso (Word n) (Word n) = record {
      fun = word_to_host big n;
      inv = word_to_le big n;
      rinv = λ u. Word-path n (le_to_host-host_to_le big n u.0 u.1);
      linv = λ u. Word-path n (host_to_le-le_to_host big n u.0 u.1);
    } in
    (
      (λ bs long bytes. rw long at (le_to_host-native_word big bs bytes)),
      (iso_to_equiv conversions).1,
      conversions.linv,
    )
