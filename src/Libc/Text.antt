-- ===== src/Libc/Text.antt =====
-- <string.h>: texts as lists of bytes without the closing NUL.
use Prim.Native.Char.{code}
use Prim.Native.String.{String}
use iotools.Base.{
  ℕ, ◌≡◌, refl, ◌↔◌, ◌≢◌, Bool, true, false, ◌&&◌, List, [], ◌∷◌, ◌++◌, Option, none, some, arith,
  ◌==◌, if◌then◌else◌, All,
}

abbrev pub Text : Type 0
Text = List ℕ

-- The bytes of an ASCII literal. `String` has its own `[]` and `∷`.
abbrev pub text : String → Text
text String.[] = []
text (String.◌∷◌ c s) = code c ∷ text s

-- `strcmp(s, t) == 0`
unfoldable pub str_eq : Text → Text → Bool
str_eq [] [] = true
str_eq [] (y ∷ t) = false
str_eq (x ∷ s) [] = false
str_eq (x ∷ s) (y ∷ t) = x == y && str_eq s t

pub str_eq_iff : (s t : Text) → (str_eq s t ≡ true) ↔ (s ≡ t)
unfolding str_eq
str_eq_iff [] [] = ground arith
str_eq_iff [] (y ∷ t) = ground arith
str_eq_iff (x ∷ s) [] = ground arith
str_eq_iff (x ∷ s) (y ∷ t) = ground (arith, str_eq_iff s t)

pub str_eq_refl : (s : Text) → str_eq s s ≡ true
str_eq_refl s = (str_eq_iff s s).1 refl

-- `strrchr(s, c)`: the rest of the text from the last `c` on.
unfoldable pub strrchr : ℕ → Text → Option Text
strrchr c [] = none
strrchr c (x ∷ s) = elim (strrchr c s) [
  | some t ↦ some t
  | none ↦ if x == c then some (x ∷ s) else none
]

pub strrchr_absent : (c : ℕ) (s : Text) → All (λ x. x ≢ c) s → strrchr c s ≡ none
unfolding strrchr
strrchr_absent c [] h = refl
strrchr_absent c (x ∷ s) (hx, h) = rw (strrchr_absent c s h) (ground arith)

-- The last `c` of `s c t` stands before `t`, if `t` has none.
pub strrchr_last :
    (c : ℕ) (s t : Text) → All (λ x. x ≢ c) t → strrchr c (s ++ (c ∷ t)) ≡ some (c ∷ t)
unfolding strrchr
strrchr_last c [] t h = rw (strrchr_absent c t h) (ground arith)
strrchr_last c (x ∷ s) t h = rw (strrchr_last c s t h)
