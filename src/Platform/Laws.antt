-- ===== src/Platform/Laws.antt =====
-- Words survive memory, and the little-endian conversions hide the byte order of the machine.
use mathlib.Core.List.{reverse, reverse-cons, reverse-reverse}
use native.Mathlib.Nat.{pow-suc}
use iotools.Base.{
  ℕ, zero, suc, ◌+◌, ◌*◌, ◌/◌, ◌%◌, ◌^◌, ◌<◌, ◌≡◌, refl, ◌∙◌, ap, Bool, true, false, List, [], ◌∷◌,
  arith, length, length-append, length-drop, drop, ◌≤◌, All, All-append, All-drop,
}
use iotools.Platform.{
  overwrite, le_word, le_bytes, native_word, native_bytes, le_to_host, host_to_le,
}

-- Every element is a byte.
abbrev pub IsBytes : List ℕ → Type 0
IsBytes = All (λ b. b < 256)

pub length-le_bytes : (n w : ℕ) → length (le_bytes n w) ≡ n
length-le_bytes zero w = refl
length-le_bytes (suc n) w = ap suc (length-le_bytes n (w / 256))

pub le_word-le_bytes : (n w : ℕ) → w < 256 ^ n → le_word (le_bytes n w) ≡ w
le_word-le_bytes zero w h = omega arith
le_word-le_bytes (suc n) w h =
    omega (arith, pow-suc 256 n, le_word-le_bytes n (w / 256) (omega (arith, pow-suc 256 n)))

pub le_bytes-le_word : (bs : List ℕ) → IsBytes bs → le_bytes (length bs) (le_word bs) ≡ bs
le_bytes-le_word [] h = refl
le_bytes-le_word (b ∷ bs) (hb, h) =
    let e : (b + 256 * le_word bs) % 256 ≡ b = omega arith in
    let e' : (b + 256 * le_word bs) / 256 ≡ le_word bs = omega arith in
    rw (e, e', le_bytes-le_word bs h)

-- A word that is stored in memory is loaded again, in either byte order.
pub native_word-native_bytes :
    (big : Bool) (n w : ℕ) → w < 256 ^ n → native_word big (native_bytes big n w) ≡ w
native_word-native_bytes true n w h = rw reverse-reverse (le_word-le_bytes n w h)
native_word-native_bytes false n w h = le_word-le_bytes n w h

pub length-reverse : (bs : List ℕ) → length (reverse bs) ≡ length bs
length-reverse [] = refl
length-reverse (b ∷ bs) =
    rw (reverse-cons b bs) (omega (arith, length-append (reverse bs) (b ∷ []), length-reverse bs))

pub IsBytes-reverse : (bs : List ℕ) → IsBytes bs → IsBytes (reverse bs)
IsBytes-reverse [] h = tt
IsBytes-reverse (b ∷ bs) (hb, h) =
    rw (reverse-cons b bs)
      (All-append (λ b. b < 256) (reverse bs) (b ∷ []) (IsBytes-reverse bs h) (hb, tt))

pub IsBytes-le_bytes : (n w : ℕ) → IsBytes (le_bytes n w)
IsBytes-le_bytes zero w = tt
IsBytes-le_bytes (suc n) w = (omega arith, IsBytes-le_bytes n (w / 256))

pub IsBytes-native_bytes : (big : Bool) (n w : ℕ) → IsBytes (native_bytes big n w)
IsBytes-native_bytes true n w = IsBytes-reverse (le_bytes n w) (IsBytes-le_bytes n w)
IsBytes-native_bytes false n w = IsBytes-le_bytes n w

pub length-overwrite :
    (bytes memory : List ℕ)
    → length bytes ≤ length memory
    → length (overwrite bytes memory) ≡ length memory
length-overwrite bytes memory h =
    omega
      (arith, length-append bytes (drop (length bytes) memory), length-drop (length bytes) memory)

pub IsBytes-overwrite :
    (bytes memory : List ℕ) → IsBytes bytes → IsBytes memory → IsBytes (overwrite bytes memory)
IsBytes-overwrite bytes memory h k =
    All-append (λ b. b < 256) bytes (drop (length bytes) memory) h
      (All-drop (λ b. b < 256) (length bytes) memory k)

pub length-native_bytes : (big : Bool) (n w : ℕ) → length (native_bytes big n w) ≡ n
length-native_bytes true n w = length-reverse (le_bytes n w) ∙ length-le_bytes n w
length-native_bytes false n w = length-le_bytes n w

-- A word that was read as `n` little-endian bytes has their value on every machine.
pub le_to_host-native_word :
    (big : Bool) (bs : List ℕ)
    → IsBytes bs
    → le_to_host big (length bs) (native_word big bs) ≡ le_word bs
unfolding le_to_host
le_to_host-native_word true bs h =
    let e : le_bytes (length bs) (le_word (reverse bs)) ≡ reverse bs =
      rw (← length-reverse bs) (le_bytes-le_word (reverse bs) (IsBytes-reverse bs h)) in
    rw (e, reverse-reverse)
le_to_host-native_word false bs h = refl

-- A word is written as its little-endian bytes on every machine.
pub native_bytes-host_to_le :
    (big : Bool) (n w : ℕ) → native_bytes big n (host_to_le big n w) ≡ le_bytes n w
unfolding host_to_le
native_bytes-host_to_le true n w =
    let bytes = le_bytes n w in
    let long : length (reverse bytes) ≡ n = length-reverse bytes ∙ length-le_bytes n w in
    let e : le_bytes n (le_word (reverse bytes)) ≡ reverse bytes =
      rw long at
        (le_bytes-le_word (reverse bytes) (IsBytes-reverse bytes (IsBytes-le_bytes n w))) in
    rw (e, reverse-reverse)
native_bytes-host_to_le false n w = refl
