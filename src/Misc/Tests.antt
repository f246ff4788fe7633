-- ===== src/Misc/Tests.antt =====
-- Runs of the commands of misc.c, and the theorems at concrete data.
use iotools.Base.{ℕ, ◌+◌, ◌*◌, ◌≡◌, refl, true, [], ◌∷◌, Option, none, some, arith}
use iotools.Base.Int.{pos}
use iotools.Libc.Text.{text}
use iotools.Libc.Print.{dec}
use iotools.Libc.Strtoul.{strtoul, atoi}
use iotools.Kernel.{Kernel, Log, done, replaced, bound, executed, printed}
use iotools.Kernel.Sample.{failing}
use iotools.Misc.{busy_loop, cpu_list, runon}
use iotools.Misc.Busy.{last_time, GoesOn, lines_of}
use iotools.Misc.Busy.Ends.{IsRunning, busy_loop_ends, busy_loop_forever}

abbrev two_cpus : Kernel
two_cpus = record failing {
  online_cpus = λ log. pos 2;
  setaffinity = λ log cpu. true;
  execvp = λ log argv. true;
}

lists_cpus :
    cpu_list none (text "cpu_list" ∷ []) two_cpus []
    ≡ done (pos 0) (printed (text "1\n") ∷ printed (text "0\n") ∷ [])
unfolding cpu_list dec
lists_cpus = refl

runs_on :
    runon none (text "runon" ∷ text "1" ∷ text "ls" ∷ text "/" ∷ []) two_cpus []
    ≡ replaced (executed (text "ls" ∷ text "/" ∷ []) true ∷ bound (pos 1) true ∷ [])
unfolding runon strtoul
runs_on = refl

-- One microsecond later than at the last reading.
abbrev later : Option ℕ → ℕ
later none = 1
later (some t) = t + 1

abbrev ticking : Kernel
ticking = record failing { time = λ log. (0, later (last_time log)) }

ticking-GoesOn : GoesOn ticking
ticking-GoesOn log t e = rw e (omega arith, omega arith)

busy_loop_ends_example :
    (log' : Log) × (busy_loop (1000000 * 16384) none (text "busy_loop" ∷ text "1" ∷ []) ticking []
      ≡ done (pos 0) log')
    × (lines_of log' ≡ 1)
unfolding lines_of
busy_loop_ends_example =
    busy_loop_ends ticking none (text "busy_loop") (text "1") 1 (1000000 * 16384) [] ticking-GoesOn
      (unfold atoi in refl) (omega arith) (omega arith)

busy_loop_forever_example : IsRunning (busy_loop 40000 none (text "busy_loop" ∷ []) ticking [])
busy_loop_forever_example = busy_loop_forever 40000 none (text "busy_loop") ticking []
