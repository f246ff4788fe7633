-- ===== src/Program/Uses/Lines.antt =====
-- Whatever the line, the program uses no descriptor that is not open.
use mathlib.Core.List.{Permᴰ}
use mathlib.Core.List.Permᴰ.{trans}
use iotools.Base.{
  ℕ, ltb, length, true, ◌≡◌, refl, Bool-cases, inl, inr, List, [], ◌∷◌, Option, none, some, All,
  append-nil, arith, if◌then◌else◌,
}
use iotools.Base.Int.{ℤ, minus_one, is_negative}
use iotools.Libc.Text.{Text}
use iotools.Kernel.{Kernel, Log, M}
use iotools.Kernel.Calls.{pure}
use iotools.Kernel.Uses.{uses_open, Leaves, Orderly, Orderly-bind}
use iotools.Command.{PrereqParams, CmdInfo, CmdGroup}
use iotools.Commands.Locate.{locate_command}
use iotools.Commands.Locate.Laws.{all_commands, All-perm, all_commands-perm}
use iotools.Commands.Locate.Found.{groups-All, located-All}
use iotools.Commands.Prereqs.{check_prereqs, run_located}
use iotools.Commands.Run.{base_name, run_as_link, run_command}
use iotools.Iotools.Fallback.{iotools_fallback}
use iotools.Iotools.Main.{main, exit_failure, exit_success}
use iotools.Scom.Cpu.{Locals}
use iotools.Program.{Machine, program_groups, register_all}
use iotools.Program.Order.{register_all-perm}
use iotools.Program.Uses.{IsOrderlyCmd}
use iotools.Program.Uses.Lists.{iotools_fallback-Orderly}
use iotools.Program.Uses.Tables.{program_groups-IsOrderlyGroup}

check_prereqs-Orderly :
    (argv : List Text) (params : Option PrereqParams) (k : Kernel) (log : Log)
    → uses_open log ≡ true
    → Orderly (check_prereqs argv params k log)
unfolding check_prereqs uses_open
check_prereqs-Orderly argv none k log h = h
check_prereqs-Orderly argv (some params) k log h = ground arith

run_located-Orderly :
    (argv : List Text) (c : CmdInfo) (k : Kernel) (log : Log)
    → IsOrderlyCmd c
    → uses_open log ≡ true
    → Orderly (run_located argv c k log)
unfolding run_located
run_located-Orderly argv c k log fine h =
    Orderly-bind (check_prereqs argv c.params)
      (λ rc. if is_negative rc then pure minus_one else c.entry c.sizedata argv) k log
      (check_prereqs-Orderly argv c.params k log h)
      (λ rc log' h'. elim (Bool-cases (is_negative rc)) [
        | inl e ↦ rw (Leaves, e) h'
        | inr e ↦ rw (Leaves, e) (fine c.sizedata argv k log' h')
      ])

module _ (gs : List CmdGroup) (fine : All IsOrderlyCmd (all_commands gs)) (k : Kernel) where
  located-Orderly :
      (cmd : Text) (argv : List Text) (log : Log) (otherwise : M ℤ)
      → uses_open log ≡ true
      → Orderly (otherwise k log)
      → Orderly (
          (elim (locate_command gs cmd) as (λ _. M ℤ) [
            | some c ↦ run_located argv c
            | none ↦ otherwise
          ])
            k log)
  located-Orderly cmd argv log otherwise h rest =
      go (locate_command gs cmd) (λ c e. (located-All IsOrderlyCmd gs cmd c fine e).0)
    where
      go :
          (r : Option CmdInfo)
          → ((c : CmdInfo) → r ≡ some c → IsOrderlyCmd c)
          → Orderly
              ((elim r as (λ _. M ℤ) [ some c ↦ run_located argv c | none ↦ otherwise ]) k log)
      go none found = rest
      go (some c) found = run_located-Orderly argv c k log (found c refl) h

  run_as_link-Orderly :
      (argv : List Text) (log : Log) → uses_open log ≡ true → Orderly (run_as_link gs argv k log)
  unfolding run_as_link
  run_as_link-Orderly [] log h = tt
  run_as_link-Orderly (path ∷ args) log h =
      located-Orderly (base_name path) (path ∷ args) log (iotools_fallback gs (path ∷ args)) h
        (iotools_fallback-Orderly gs k (path ∷ args) log h)

  run_command-Orderly :
      (argv : List Text) (log : Log) → uses_open log ≡ true → Orderly (run_command gs argv k log)
  unfolding run_command
  run_command-Orderly [] log h = run_as_link-Orderly [] log h
  run_command-Orderly (path ∷ []) log h = run_as_link-Orderly (path ∷ []) log h
  run_command-Orderly (path ∷ s ∷ args) log h =
      let named : ltb 1 (length (path ∷ s ∷ args)) ≡ true = ground arith in
      rw (Leaves, named)
        (located-Orderly s (s ∷ args) log (run_as_link gs (path ∷ s ∷ args)) h
          (run_as_link-Orderly (path ∷ s ∷ args) log h))

-- On a machine of any kind, with the groups registered in any order, on any line and whatever the
-- system answers, every seek, read, write, mapping, ioctl and close that the program makes is on a
-- descriptor that is open at the time, if those before the run were: however the run ends, unless it
-- comes to undefined behaviour.
pub main-Orderly :
    (machine : Machine) (locals : Locals) (fuel : ℕ) (gs : List CmdGroup) (argv : List Text)
    (k : Kernel) (log : Log)
    → Permᴰ (program_groups machine locals fuel) gs
    → uses_open log ≡ true
    → Orderly (main (register_all gs []) argv k log)
unfolding main
main-Orderly machine locals fuel gs argv k log p h =
    let registered : Permᴰ gs (register_all gs []) =
      rw (append-nil gs) at (register_all-perm gs []) in
    let fine : All IsOrderlyCmd (all_commands (register_all gs [])) =
      All-perm IsOrderlyCmd (all_commands-perm (trans p registered)) (
        groups-All IsOrderlyCmd (program_groups machine locals fuel)
          (program_groups-IsOrderlyGroup machine locals fuel)) in
    Orderly-bind (run_command (register_all gs []) argv)
      (λ rc. pure (if is_negative rc then exit_failure else exit_success)) k log
      (run_command-Orderly (register_all gs []) fine k argv log h) (λ rc log' h'. h')
