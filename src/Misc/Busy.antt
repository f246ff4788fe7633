-- ===== src/Misc/Busy.antt =====
-- The rounds of the loop of `busy_loop`, up to its next line.
pub mod Ends
use iotools.Base.{
  ap, ℕ, zero, suc, ◌+◌, ◌-◌, ◌*◌, ◌%◌, ◌^◌, ◌≤◌, ◌<◌, ◌≡◌, refl, sym, ◌∙◌, Bool, true, false, List,
  [], ◌∷◌, ◌++◌, Option, none, some, arith, leb, ltb, ◌==◌, if◌then◌else◌, Bool-cases, inl, inr,
}
use iotools.Base.Int.{minus_one, to_int, ℤ, pos, int_eq, is_minus_one}
use iotools.Libc.Text.{Text, text}
use iotools.Libc.Print.{dec}
use iotools.Kernel.{undefined, running, replaced, Kernel, Log, Outcome, done, timed, printed, M}
use iotools.Kernel.Calls.{◌>>=◌, ◌>>◌, pure, time, print, fault}
use iotools.Command.{SizeParam, int_max}
use iotools.Libc.Strtoul.{strtol}
use iotools.Misc.{busy_loop, elapsed, busy_rounds}

-- A time in microseconds.
abbrev pub micros : ℕ × ℕ → ℕ
micros t = t.0 * 1000000 + t.1

-- The last time that the clock showed.
unfoldable pub last_time : Log → Option ℕ
last_time [] = none
last_time (timed s u ∷ log) = some (micros (s, u))
last_time (e ∷ log) = last_time log

-- Whenever the clock is read again it has gone on, but by less than 2 ^ 31 microseconds, about 35
-- minutes.
abbrev pub GoesOn : Kernel → Type 0
GoesOn k =
    (log : Log) (t : ℕ)
    → last_time log ≡ some t
    → (t < micros (k.time log)) × (micros (k.time log) < t + 2 ^ 31)

-- How many lines were printed.
unfoldable pub lines_of : Log → ℕ
lines_of [] = 0
lines_of (printed s ∷ log) = suc (lines_of log)
lines_of (e ∷ log) = lines_of log

elapsed_lem :
    (t0 t1 : ℕ × ℕ)
    → micros t0 ≤ micros t1
    → micros t1 < micros t0 + 2 ^ 32
    → elapsed t0 t1 ≡ micros t1 - micros t0
unfolding elapsed
elapsed_lem t0 t1 h h' = omega arith

module _ (k : Kernel) (n lines : ℕ) (more : lines < n) (small : n ≤ int_max) where
  unequal : int_eq (pos lines) (pos n) ≡ false
  unequal = ground arith

  -- A round that does not look at the clock.
  busy_rounds-counts :
      (fuel count : ℕ) (t0 : ℕ × ℕ) (log : Log)
      → count + 1 < 2 ^ 64
      → ((count + 1) % 16384 == 0) ≡ false
      → busy_rounds (suc fuel) (pos n) lines count t0 k log
        ≡ busy_rounds fuel (pos n) lines (count + 1) t0 k log
  unfolding busy_rounds
  busy_rounds-counts fuel count t0 log h e =
      let same : (count + 1) % 2 ^ 64 ≡ count + 1 = omega arith in rw (same, e, unequal) refl

  -- Those before the next one that does.
  busy_rounds-skips :
      (j fuel count : ℕ) (t0 : ℕ × ℕ) (log : Log)
      → count + j < 2 ^ 64
      → count % 16384 + j < 16384
      → busy_rounds (j + fuel) (pos n) lines count t0 k log
        ≡ busy_rounds fuel (pos n) lines (count + j) t0 k log
  busy_rounds-skips zero fuel count t0 log h h' =
      let same : count + 0 ≡ count = omega arith in let all : 0 + fuel ≡ fuel = omega arith in cc
  busy_rounds-skips (suc j) fuel count t0 log h h' =
      let next : count + suc j ≡ (count + 1) + j = omega arith in
      let left : suc j + fuel ≡ suc (j + fuel) = omega arith in
      let one = busy_rounds-counts (j + fuel) count t0 log (omega arith) (ground arith) in
      let rest = busy_rounds-skips j fuel (count + 1) t0 log (omega arith) (omega arith) in cc

  -- A round that looks at the clock too early for a line.
  busy_rounds-waits :
      (fuel count : ℕ) (t0 : ℕ × ℕ) (log : Log)
      → count + 1 < 2 ^ 64
      → ((count + 1) % 16384 == 0) ≡ true
      → let t1 = k.time log in
        leb 1000000 (elapsed t0 t1) ≡ false
        → busy_rounds (suc fuel) (pos n) lines count t0 k log
          ≡ busy_rounds fuel (pos n) lines (count + 1) t0 k (timed t1.0 t1.1 ∷ log)
  unfolding busy_rounds
  busy_rounds-waits fuel count t0 log h e early =
      let same : (count + 1) % 2 ^ 64 ≡ count + 1 = omega arith in rw (same, e, unequal, early) refl

  -- A round that prints a line.
  busy_rounds-prints :
      (fuel count : ℕ) (t0 : ℕ × ℕ) (log : Log)
      → count + 1 < 2 ^ 64
      → ((count + 1) % 16384 == 0) ≡ true
      → let t1 = k.time log in
        let log1 = printed (dec (count + 1) ++ text "\n") ∷ timed t1.0 t1.1 ∷ log in
        let t2 = k.time log1 in
        leb 1000000 (elapsed t0 t1) ≡ true
        → busy_rounds (suc fuel) (pos n) lines count t0 k log
          ≡ busy_rounds fuel (pos n) (lines + 1) 0 t2 k (timed t2.0 t2.1 ∷ log1)
  unfolding busy_rounds
  busy_rounds-prints fuel count t0 log h e late =
      let same : (count + 1) % 2 ^ 64 ≡ count + 1 = omega arith in
      let below : (lines == int_max) ≡ false = ground arith in
      rw (same, e, unequal, late, below) refl

  -- From a time at which less than a second has passed, the loop comes to its next line; a second
  -- has at most a million microseconds left, and the clock is read every 16384 rounds.
  pub busy_rounds-line :
      (goes : GoesOn k) (m spare q now : ℕ) (t0 : ℕ × ℕ) (log : Log)
      → last_time log ≡ some now
      → micros t0 ≤ now
      → now < micros t0 + 1000000
      → micros t0 + 1000000 ≤ now + m
      → q + m ≤ 1000000
      → (fuel : ℕ) × (t : ℕ × ℕ) × (log' : Log) × (busy_rounds
            (m * 16384 + spare)
            (pos n)
            lines
            (q * 16384)
            t0
            k
            log
          ≡ busy_rounds fuel (pos n) (lines + 1) 0 t k log')
        × (spare ≤ fuel)
        × (last_time log' ≡ some (micros t))
        × (lines_of log' ≡ suc (lines_of log))
  busy_rounds-line goes zero spare q now t0 log shown past soon left count = absurd (omega arith)
  busy_rounds-line goes (suc m) spare q now t0 log shown past soon left count =
      let t1 = k.time log in
      let (later, sooner) = goes log now shown in
      let apart : elapsed t0 t1 ≡ micros t1 - micros t0 =
        elapsed_lem t0 t1 (omega arith) (omega arith) in
      let full : q * 16384 + 16383 + 1 ≡ (q + 1) * 16384 = omega arith in
      let fuel_left : suc m * 16384 + spare ≡ 16383 + suc (m * 16384 + spare) = omega arith in
      let looks : ((q * 16384 + 16383 + 1) % 16384 == 0) ≡ true = ground arith in
      let skipped =
        busy_rounds-skips 16383 (suc (m * 16384 + spare)) (q * 16384) t0 log (omega arith)
          (omega arith) in
      elim (Bool-cases (leb 1000000 (elapsed t0 t1))) [
        | inl late ↦
            let log1 = printed (dec (q * 16384 + 16383 + 1) ++ text "\n") ∷ timed t1.0 t1.1 ∷ log in
            let t2 = k.time log1 in
            let prints =
              busy_rounds-prints (m * 16384 + spare) (q * 16384 + 16383) t0 log (omega arith) looks
                late in
            (
              m * 16384 + spare,
              t2,
              timed t2.0 t2.1 ∷ log1,
              cc,
              omega arith,
              unfold last_time in refl,
              unfold lines_of in refl,
            )
        | inr early ↦
            let waits =
              busy_rounds-waits (m * 16384 + spare) (q * 16384 + 16383) t0 log (omega arith) looks
                early in
            let (fuel, t, log', e, enough, seen, one) =
              busy_rounds-line goes m spare (q + 1) (micros t1) t0 (timed t1.0 t1.1 ∷ log)
                (unfold last_time in refl) (omega arith) (ground arith) (omega arith)
                (omega arith) in
            (fuel, t, log', cc, enough, seen, one ∙ (unfold lines_of in refl))
      ]
