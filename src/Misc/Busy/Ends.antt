-- ===== src/Misc/Busy/Ends.antt =====
-- `busy_loop` ends after as many lines as it was asked for, if the clock goes on; without a count it
-- never returns.
use iotools.Base.{
  ℕ, zero, suc, ◌+◌, ◌-◌, ◌*◌, ◌%◌, ◌^◌, ◌≤◌, ◌≡◌, refl, sym, ◌∙◌, true, [], ◌∷◌, ◌++◌, some, arith,
  leb, ◌==◌, Bool-cases, inl, inr,
}
use iotools.Base.Int.{minus_one, pos, int_eq}
use iotools.Libc.Text.{Text, text}
use iotools.Libc.Print.{dec}
use iotools.Kernel.{undefined, running, replaced, Kernel, Log, Outcome, done, timed, printed}
use iotools.Command.{SizeParam, int_max}
use iotools.Libc.Strtoul.{atoi}
use iotools.Misc.{busy_loop, elapsed, busy_rounds}
use iotools.Misc.Busy.{micros, last_time, GoesOn, lines_of, busy_rounds-line}

busy_rounds-at_end :
    (n fuel count : ℕ) (t0 : ℕ × ℕ) (k : Kernel) (log : Log)
    → busy_rounds fuel (pos n) n count t0 k log ≡ done (pos 0) log
unfolding busy_rounds
busy_rounds-at_end n zero count t0 k log =
    let same : int_eq (pos n) (pos n) ≡ true = ground arith in rw same refl
busy_rounds-at_end n (suc fuel) count t0 k log =
    let same : int_eq (pos n) (pos n) ≡ true = ground arith in rw same refl

busy_rounds-ends :
    (k : Kernel) (goes : GoesOn k) (n : ℕ) (small : n ≤ int_max) (left lines fuel : ℕ) (t0 : ℕ × ℕ)
    (log : Log)
    → lines + left ≡ n
    → last_time log ≡ some (micros t0)
    → left * (1000000 * 16384) ≤ fuel
    → (log' : Log) × (busy_rounds fuel (pos n) lines 0 t0 k log ≡ done (pos 0) log')
      × (lines_of log' ≡ left + lines_of log)
busy_rounds-ends k goes n small zero lines fuel t0 log all shown enough =
    let ended : n ≡ lines = omega arith in
    let stops = busy_rounds-at_end n fuel 0 t0 k log in (log, (rw (sym ended) stops), omega arith)
busy_rounds-ends k goes n small (suc left) lines fuel t0 log all shown enough =
    let spare = fuel - 1000000 * 16384 in
    let split : 1000000 * 16384 + spare ≡ fuel = omega arith in
    let start : 0 * 16384 ≡ 0 = omega arith in
    let (fuel', t, log1, e, rest, seen, one) =
      busy_rounds-line k n lines (omega arith) small goes 1000000 spare 0 (micros t0) t0 log shown
        (omega arith) (omega arith) (omega arith) (omega arith) in
    let (log', ends, more) =
      busy_rounds-ends k goes n small left (lines + 1) fuel' t log1 (omega arith) seen
        (omega arith) in
    (log', cc, omega arith)

-- If the clock goes on between two readings, busy_loop with a count returns, and prints one line
-- for each of the count; 16384 rounds for every microsecond of as many seconds are enough.
pub busy_loop_ends :
    (k : Kernel) (size : SizeParam) (name count : Text) (n fuel : ℕ) (log : Log)
    → GoesOn k
    → atoi count ≡ pos n
    → n ≤ int_max
    → n * (1000000 * 16384) ≤ fuel
    → (log' : Log) × (busy_loop fuel size (name ∷ count ∷ []) k log ≡ done (pos 0) log')
      × (lines_of log' ≡ n + lines_of log)
busy_loop_ends k size name count n fuel log goes e small enough =
    let t0 = k.time log in
    let (log', ends, more) =
      busy_rounds-ends k goes n small n 0 fuel t0 (timed t0.0 t0.1 ∷ log) (omega arith)
        (unfold last_time in refl) enough in
    (log', unfold busy_loop in (rw e ends), more ∙ (unfold lines_of in refl))

-- The loop is still under way.
abbrev pub IsRunning : {A : Type 0} → Outcome A → Type 0
IsRunning (done a log) = ⊥
IsRunning (replaced log) = ⊥
IsRunning (running log) = Unit {0}
IsRunning undefined = ⊥

pub busy_rounds_forever :
    (fuel lines count : ℕ) (t0 : ℕ × ℕ) (k : Kernel) (log : Log)
    → IsRunning (busy_rounds fuel minus_one lines count t0 k log)
unfolding busy_rounds
busy_rounds_forever zero lines count t0 k log = tt
busy_rounds_forever (suc fuel) lines count t0 k log =
    let next = (count + 1) % 2 ^ 64 in
    let t1 = k.time log in
    elim (Bool-cases (next % 16384 == 0)) [
      | inr e ↦ rw e (busy_rounds_forever fuel lines next t0 k log)
      | inl e ↦ elim (Bool-cases (leb 1000000 (elapsed t0 t1))) [
        | inr early ↦
            rw (e, early) (busy_rounds_forever fuel lines next t0 k (timed t1.0 t1.1 ∷ log))
        | inl late ↦
            let log1 = printed (dec next ++ text "\n") ∷ timed t1.0 t1.1 ∷ log in
            let t2 = k.time log1 in
            rw (e, late) (busy_rounds_forever fuel lines 0 t2 k (timed t2.0 t2.1 ∷ log1))
      ]
    ]

-- Without a count busy_loop never returns: however many rounds its loop has run, it is still running,
-- and no behaviour is undefined.
pub busy_loop_forever :
    (fuel : ℕ) (size : SizeParam) (name : Text) (k : Kernel) (log : Log)
    → IsRunning (busy_loop fuel size (name ∷ []) k log)
unfolding busy_loop
busy_loop_forever fuel size name k log =
    let t0 = k.time log in busy_rounds_forever fuel 0 0 t0 k (timed t0.0 t0.1 ∷ log)
