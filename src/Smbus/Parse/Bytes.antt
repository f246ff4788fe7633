-- ===== src/Smbus/Parse/Bytes.antt =====
-- What the parsers of single numbers accept.
use iotools.Base.{
  ℕ, ◌<◌, ◌≡◌, refl, ap, inl, inr, Bool, true, false, [], ◌∷◌, Option, none, some, arith, ltb, ◌==◌,
  if◌then◌else◌, Bool-cases,
}
use iotools.Libc.Text.{Text}
use iotools.Libc.Strtoul.{strtoul, long_max}
use iotools.Kernel.{Kernel, Log, Outcome, done, replaced, running, undefined, M}
use iotools.Kernel.Calls.{pure, ◌>>=◌}
use iotools.Kernel.Devices.{open_count}
use iotools.Smbus.Parse.{is_trailing_junk, is_max_or_trailing_junk, parse_uint8_base, check_byte}

-- The function returns, and a result that is no failure has the property; the log changes by
-- messages only, so that no descriptor is opened or closed.
abbrev pub Parses : {A : Type 0} → (A → Type 0) → Log → Outcome (Option A) → Type 0
Parses P log (done none log') = (fd : ℕ) → open_count fd log' ≡ open_count fd log
Parses P log (done (some a) log') = P a × ((fd : ℕ) → open_count fd log' ≡ open_count fd log)
Parses P log (replaced log') = ⊥
Parses P log (running log') = ⊥
Parses P log undefined = ⊥

-- What the tests for junk say of the text behind a number.
abbrev pub Judges : Text → Log → Outcome Bool → Type 0
Judges end log (done false log') = (end ≡ []) × (log' ≡ log)
Judges end log (done true log') = (fd : ℕ) → open_count fd log' ≡ open_count fd log
Judges end log (replaced log') = ⊥
Judges end log (running log') = ⊥
Judges end log undefined = ⊥

pub is_trailing_junk-Judges :
    (arg end : Text) (k : Kernel) (log : Log) → Judges end log (is_trailing_junk arg end k log)
unfolding is_trailing_junk open_count
is_trailing_junk-Judges arg [] k log = (refl, refl)
is_trailing_junk-Judges arg (c ∷ end) k log = λ fd. refl

pub is_max_or_trailing_junk-Judges :
    (arg end : Text) (ldata : ℕ) (k : Kernel) (log : Log)
    → Judges end log (is_max_or_trailing_junk arg end ldata k log)
is_max_or_trailing_junk-Judges arg end ldata k log = elim (Bool-cases (ldata == long_max)) [
  | inl e ↦ unfold is_max_or_trailing_junk in rw e (unfold open_count in λ fd. refl)
  | inr e ↦ unfold is_max_or_trailing_junk in rw e (is_trailing_junk-Judges arg end k log)
]

-- Behind a test the function goes on with a number that is followed by nothing.
pub after_Judges :
    {A : Type 0} (P : A → Type 0) (end : Text) (log : Log) (test : M Bool) (next : M (Option A))
    (k : Kernel)
    → Judges end log (test k log)
    → (end ≡ [] → Parses P log (next k log))
    → Parses P log ((test >>= λ bad. if bad then pure none else next) k log)
after_Judges P end log test next k h keeps = go (test k log) h
  where
    go :
        (o : Outcome Bool)
        → Judges end log o
        → Parses P log (elim o [
          | done a log' ↦ (if a then pure none else next) k log'
          | replaced log' ↦ replaced log'
          | running log' ↦ running log'
          | undefined ↦ undefined
        ])
    go (done false log') (e, f) = rw f (keeps e)
    go (done true log') same = same
    go (replaced log') h = absurd h
    go (running log') h = absurd h
    go undefined h = absurd h

-- Whatever the text, the function returns, and a byte that it accepts is the whole text's number.
pub parse_uint8_base-Parses :
    (arg : Text) (base : ℕ) (k : Kernel) (log : Log)
    → Parses (λ v. (strtoul base arg ≡ (v, [])) × (v < 256)) log (parse_uint8_base arg base k log)
parse_uint8_base-Parses arg base k log =
    let (ldata, end) = strtoul base arg in
    unfold parse_uint8_base in
    after_Judges (λ v. (strtoul base arg ≡ (v, [])) × (v < 256)) end log
      (is_max_or_trailing_junk arg end ldata) (check_byte arg ldata) k
      (is_max_or_trailing_junk-Judges arg end ldata k log) (λ e. fits e)
  where
    fits :
        (strtoul base arg).1 ≡ []
        → Parses
            (λ v. (strtoul base arg ≡ (v, [])) × (v < 256))
            log
            (check_byte arg (strtoul base arg).0 k log)
    fits e = elim (Bool-cases (ltb 0xff (strtoul base arg).0)) [
      | inl big ↦ rw big (unfold open_count in λ fd. refl)
      | inr small ↦
          rw small ((ap (λ (t : Text). ((strtoul base arg).0, t)) e, ground arith), λ fd. refl)
    ]

-- A number below 256 that is the whole text is accepted, without a word.
pub parse_uint8_base-accepts :
    (arg : Text) (base v : ℕ) (k : Kernel) (log : Log)
    → strtoul base arg ≡ (v, [])
    → v < 256
    → parse_uint8_base arg base k log ≡ done (some v) log
unfolding parse_uint8_base is_trailing_junk
parse_uint8_base-accepts arg base v k log e h = rw e (ground arith)
