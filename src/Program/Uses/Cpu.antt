-- ===== src/Program/Uses/Cpu.antt =====
-- cputoex and cputochipid.
use iotools.Base.{ℕ, ◌∷◌, ◌≡◌, true, [], Option, none, some, arith}
use iotools.Base.Int.{ℤ, minus_one}
use iotools.Kernel.{Kernel, Log, M}
use iotools.Kernel.Calls.{◌>>=◌, pure}
use iotools.Kernel.Devices.{open_count}
use iotools.Kernel.Uses.{uses_open, Orderly, Orderly-bind}
use iotools.Scom.Cpu.{
  Locals, number_in, cpu_to_pir, pir_to_chipid, cpu_arg, print_core, print_chipid, cpu_to_ex,
  cpu_to_chipid,
}
use iotools.Program.Uses.{IsOrderly}

cpu_to_pir-Orderly :
    (locals : Locals) (cpu : ℤ) (k : Kernel) (log : Log)
    → uses_open log ≡ true
    → Orderly (cpu_to_pir locals cpu k log)
unfolding cpu_to_pir number_in open_count uses_open
cpu_to_pir-Orderly locals cpu k log h = ground arith

pir_to_chipid-Orderly :
    (locals : Locals) (pir : ℕ) (k : Kernel) (log : Log)
    → uses_open log ≡ true
    → Orderly (pir_to_chipid locals pir k log)
unfolding pir_to_chipid open_count uses_open
pir_to_chipid-Orderly locals pir k log h = ground arith

pub cpu_to_ex-IsOrderly : (locals : Locals) → IsOrderly (cpu_to_ex locals)
unfolding cpu_to_ex uses_open
cpu_to_ex-IsOrderly locals size [] k log h = tt
cpu_to_ex-IsOrderly locals size (name ∷ []) k log h = tt
cpu_to_ex-IsOrderly locals size (name ∷ s ∷ args) k log h =
    Orderly-bind (cpu_to_pir locals (cpu_arg s)) print_core k log
      (cpu_to_pir-Orderly locals (cpu_arg s) k log h) printed
  where
    printed : (r : Option ℕ) (log' : Log) → uses_open log' ≡ true → Orderly (print_core r k log')
    printed none log' h' = h'
    printed (some pir) log' h' = h'

print_chipid-Orderly :
    (k : Kernel) (r : Option ℕ) (log : Log) → uses_open log ≡ true → Orderly (print_chipid r k log)
unfolding uses_open
print_chipid-Orderly k none log h = h
print_chipid-Orderly k (some chipid) log h = h

pub cpu_to_chipid-IsOrderly : (locals : Locals) → IsOrderly (cpu_to_chipid locals)
unfolding cpu_to_chipid
cpu_to_chipid-IsOrderly locals size [] k log h = tt
cpu_to_chipid-IsOrderly locals size (name ∷ []) k log h = tt
cpu_to_chipid-IsOrderly locals size (name ∷ s ∷ args) k log h =
    Orderly-bind (cpu_to_pir locals (cpu_arg s))
      (λ r. elim r as (λ _. M ℤ) [
        | none ↦ pure minus_one
        | some pir ↦ pir_to_chipid locals pir >>= print_chipid
      ])
      k log (cpu_to_pir-Orderly locals (cpu_arg s) k log h) found
  where
    found :
        (r : Option ℕ) (log' : Log)
        → uses_open log' ≡ true
        → Orderly (
            elim r as (λ _. M ℤ) [
              | none ↦ pure minus_one
              | some pir ↦ pir_to_chipid locals pir >>= print_chipid
            ]
              k log')
    found none log' h' = h'
    found (some pir) log' h' =
        Orderly-bind (pir_to_chipid locals pir) print_chipid k log'
          (pir_to_chipid-Orderly locals pir k log' h')
          (λ r log'' h''. print_chipid-Orderly k r log'' h'')
