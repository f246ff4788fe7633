-- ===== src/Program/Uses/Others.antt =====
-- The commands that use no descriptor themselves, and the dumps.
use iotools.Base.{
  ℕ, zero, suc, ◌≡◌, refl, true, List, [], ◌∷◌, arith, ◌+◌, ◌%◌, ◌^◌, if◌then◌else◌, ◌++◌,
}
use iotools.Base.Int.{ℤ, pos, minus_one, from_bool}
use iotools.Libc.Text.{Text, text}
use iotools.Kernel.{Kernel, Log, M}
use iotools.Kernel.Calls.{◌>>=◌, ◌>>◌, pure, fault, complain, for_each, print}
use iotools.Kernel.Devices.{open_count}
use iotools.Kernel.Uses.{
  uses_open, Orderly, Quietly, Quietly-Orderly, Quietly-bind, Quietly-for_each, Orderly-bind,
}
use iotools.Logic.Round.{next, invalid_op, bad_shift}
use iotools.Logic.{LogicOp, value, Round, logic_op, logic_loop, logic_round, complement, shift}
use iotools.Base.{Bool-cases, inl, inr, ◌==◌, leb, length}
use iotools.Base.Int.{int_eq, is_minus_one, to_int}
use iotools.Kernel.{timed, printed}
use iotools.Kernel.Calls.{arg, time}
use iotools.Libc.Print.{dec}
use iotools.Libc.Strtoul.{atoi}
use iotools.Command.{int_max}
use iotools.Misc.{
  up_to, rounds, elapsed, rdtsc, cpuid, cpuid_inline, set_cpu_affinity, cpu_list, runon, busy_loop,
  busy_rounds,
}
use iotools.Program.Uses.{IsOrderly}

logic_loop-Quietly :
    (op : LogicOp) (argv : List Text) (result : ℕ) (rc : ℤ) (k : Kernel) (log : Log)
    → Quietly 0 log (logic_loop op argv result rc k log)
unfolding logic_loop open_count uses_open
logic_loop-Quietly op [] result rc k log = (refl, refl)
logic_loop-Quietly op (s ∷ argv) result rc k log =
    go (logic_round op result (value s)) (λ r c. logic_loop-Quietly op argv r c k log)
  where
    go :
        (r : Round)
        → ((result' : ℕ) (rc' : ℤ) → Quietly 0 log (logic_loop op argv result' rc' k log))
        → Quietly 0 log (
            elim r as (λ _. M ℤ) [
              | next result' rc' ↦ logic_loop op argv result' (from_bool rc')
              | invalid_op ↦ complain (text "Invalid logic op\n") >> pure minus_one
              | bad_shift ↦ fault
            ]
              k log)
    go (next result' rc') rest = rest result' (from_bool rc')
    go invalid_op rest = (refl, refl)
    go bad_shift rest = tt

pub logic_op-IsOrderly : (op : LogicOp) → IsOrderly (logic_op op)
unfolding logic_op
logic_op-IsOrderly op size [] k log h = tt
logic_op-IsOrderly op size (n ∷ []) k log h = tt
logic_op-IsOrderly op size (n ∷ s ∷ argv) k log h =
    Quietly-Orderly log (logic_loop op argv _ _ k log) (logic_loop-Quietly op argv _ _ k log) h

pub complement-IsOrderly : IsOrderly complement
unfolding complement uses_open
complement-IsOrderly size argv k log h = ground arith

pub shift-IsOrderly : (op : LogicOp) → IsOrderly (shift op)
unfolding shift uses_open
shift-IsOrderly op size argv k log h = ground arith

pub rdtsc-IsOrderly : IsOrderly rdtsc
unfolding rdtsc uses_open
rdtsc-IsOrderly size argv k log h = ground arith

pub cpuid-IsOrderly : IsOrderly cpuid
unfolding cpuid cpuid_inline set_cpu_affinity uses_open
cpuid-IsOrderly size argv k log h = ground arith

pub runon-IsOrderly : IsOrderly runon
unfolding runon set_cpu_affinity uses_open
runon-IsOrderly size argv k log h = ground arith

pub cpu_list-IsOrderly : IsOrderly cpu_list
unfolding cpu_list open_count uses_open
cpu_list-IsOrderly size argv k log h =
    let cpus = up_to (rounds (to_int (k.online_cpus log))) in
    Quietly-Orderly log ((for_each cpus line >> pure (pos 0)) k log)
      (Quietly-bind (for_each cpus line) (λ _. pure (pos 0)) k log 0
        (Quietly-for_each line cpus k log 0 (λ i log'. (refl, refl))) (λ _ log'. (refl, refl)))
      h
  where
    line : ℕ → M (Unit {0})
    line i = print (dec i ++ text "\n")

busy_rounds-Orderly :
    (fuel : ℕ) (reps : ℤ) (lines count : ℕ) (t0 : ℕ × ℕ) (k : Kernel) (log : Log)
    → uses_open log ≡ true
    → Orderly (busy_rounds fuel reps lines count t0 k log)
unfolding busy_rounds uses_open
busy_rounds-Orderly zero reps lines count t0 k log h = ground arith
busy_rounds-Orderly (suc fuel) reps lines count t0 k log h =
    let count' = (count + 1) % 2 ^ 64 in
    let t1 = k.time log in
    let log1 = timed t1.0 t1.1 ∷ log in
    let log2 = printed (dec count' ++ text "\n") ∷ log1 in
    let t2 = k.time log2 in
    let log3 = timed t2.0 t2.1 ∷ log2 in
    elim (Bool-cases (int_eq (pos lines) reps)) [
      | inl ended ↦ rw ended h
      | inr more ↦ elim (Bool-cases (count' % 16384 == 0)) [
        | inr e ↦ rw (more, e) (busy_rounds-Orderly fuel reps lines count' t0 k log h)
        | inl e ↦ elim (Bool-cases (leb 1000000 (elapsed t0 t1))) [
          | inr early ↦ rw (more, e, early) (busy_rounds-Orderly fuel reps lines count' t0 k log1 h)
          | inl late ↦ elim (Bool-cases (is_minus_one reps)) [
            | inl endless ↦
                rw (more, e, late, endless) (busy_rounds-Orderly fuel reps lines 0 t2 k log3 h)
            | inr counted ↦ elim (Bool-cases (lines == int_max)) [
              | inl full ↦ rw (more, e, late, counted, full) tt
              | inr room ↦
                  rw (more, e, late, counted, room)
                    (busy_rounds-Orderly fuel reps (lines + 1) 0 t2 k log3 h)
            ]
          ]
        ]
      ]
    ]

pub busy_loop-IsOrderly : (fuel : ℕ) → IsOrderly (busy_loop fuel)
unfolding busy_loop uses_open
busy_loop-IsOrderly fuel size argv k log h =
    Orderly-bind (if length argv == 2 then (do s ← arg argv 1; pure (atoi s)) else pure minus_one)
      (λ reps. time >>= λ t0. busy_rounds fuel reps 0 0 t0) k log (ground arith)
      (λ reps log' h'.
        busy_rounds-Orderly fuel reps 0 0 (k.time log') k
          (timed (k.time log').0 (k.time log').1 ∷ log') h')
