-- ===== src/Commands/Safety/Entries.antt =====
-- Entry points of the logic, miscellaneous and PCI commands that never come to undefined behaviour.
use iotools.Base.{
  not, if◌then◌else◌, ◌&&◌, Bool, ◌≡◌, ℕ, zero, suc, ◌+◌, ◌≤◌, ◌%◌, ◌^◌, refl, false, true, List,
  [], ◌∷◌, ◌++◌, Option, none, some, arith, length, leb, ◌==◌, Bool-cases, inl, inr,
}
use iotools.Misc.Busy.Ends.{IsRunning, busy_rounds_forever}
use iotools.Base.Int.{
  is_negative, to_signed, to_unsigned, to_int, ℤ, pos, minus_one, negsuc, int_eq, is_minus_one,
}
use iotools.Libc.Text.{Text, text}
use iotools.Libc.Print.{dec}
use iotools.Libc.Strtoul.{atoi, strtol}
use iotools.Kernel.{
  Outcome, done, replaced, running, undefined, listed, Kernel, Log, M, printed, timed,
}
use iotools.Kernel.Calls.{for_each, print, pure, ◌>>◌}
use iotools.Command.{SizeParam, int_max}
use iotools.Logic.{LogicOp, logic_op, complement}
use iotools.Logic.Fold.{IsFold, logic_op_fold}
use iotools.Misc.{rounds, up_to, rdtsc, cpuid, cpu_list, runon, busy_loop, busy_rounds, elapsed}
use iotools.Pci.Listing.{
  pci_list, list_buses, opendir_failed, list_bus, procfs_entry, sysfs_entry, procfs_base_dir,
  sysfs_base_dir, pci_list_procfs, pci_list_sysfs,
}
use iotools.Libc.Scan.{scan_hex}
use iotools.Commands.Safety.{Defined}
use iotools.Commands.Safety.Steps.{Defined-then, for_each-Defined}

pub fold-Defined :
    {op : LogicOp} {f : ℕ → ℕ → ℕ} (fold : IsFold op f) (size : SizeParam) (name : Text)
    (args : List Text) (k : Kernel) (log : Log)
    → 2 ≤ suc (length args)
    → Defined (logic_op op size (name ∷ args) k log)
fold-Defined fold size name [] k log low = absurd (omega arith)
fold-Defined fold size name (s ∷ args) k log low = rw (logic_op_fold fold size name s args k log) tt

pub complement-Defined :
    (size : SizeParam) (name s : Text) (k : Kernel) (log : Log)
    → Defined (complement size (name ∷ s ∷ []) k log)
unfolding complement
complement-Defined size name s k log = tt

pub rdtsc-Defined :
    (size : SizeParam) (argv : List Text) (k : Kernel) (log : Log) → Defined (rdtsc size argv k log)
unfolding rdtsc
rdtsc-Defined size argv k log = tt

pub cpuid-Defined :
    (size : SizeParam) (name : Text) (args : List Text) (k : Kernel) (log : Log)
    → 3 ≤ suc (length args)
    → suc (length args) ≤ 4
    → Defined (cpuid size (name ∷ args) k log)
unfolding cpuid
cpuid-Defined size name [] k log low high = absurd (omega arith)
cpuid-Defined size name (a ∷ []) k log low high = absurd (omega arith)
cpuid-Defined size name (a ∷ b ∷ []) k log low high = ground arith
cpuid-Defined size name (a ∷ b ∷ c ∷ []) k log low high = ground arith
cpuid-Defined size name (a ∷ b ∷ c ∷ d ∷ args) k log low high = absurd (omega arith)

pub cpu_list-Defined :
    (size : SizeParam) (argv : List Text) (k : Kernel) (log : Log)
    → Defined (cpu_list size argv k log)
unfolding cpu_list
cpu_list-Defined size argv k log =
    Defined-then (for_each (up_to (rounds (to_int (k.online_cpus log)))) line) (λ _. pure (pos 0)) k
      log (for_each-Defined line (up_to (rounds (to_int (k.online_cpus log)))) k log (λ i log'. tt))
      (λ _ log'. tt)
  where
    line : ℕ → M (Unit {0})
    line i = print (dec i ++ text "\n")

pub runon-Defined :
    (size : SizeParam) (name : Text) (args : List Text) (k : Kernel) (log : Log)
    → 3 ≤ suc (length args)
    → Defined (runon size (name ∷ args) k log)
unfolding runon
runon-Defined size name [] k log low = absurd (omega arith)
runon-Defined size name (a ∷ []) k log low = absurd (omega arith)
runon-Defined size name (a ∷ b ∷ args) k log low = ground arith

entries-Defined :
    (body : Text × Bool → M (Unit {0})) (entries : List (Text × Bool)) (next : M ℤ) (k : Kernel)
    (log : Log)
    → ((e : Text × Bool) (log' : Log) → Defined (body e k log'))
    → ((log' : Log) → Defined (next k log'))
    → Defined ((for_each entries body >> next) k log)
entries-Defined body entries next k log each rest =
    Defined-then (for_each entries body) (λ _. next) k log
      (for_each-Defined body entries k log each) (λ _ log'. rest log')

sysfs_entry-Defined : (e : Text × Bool) (k : Kernel) (log : Log) → Defined (sysfs_entry e k log)
sysfs_entry-Defined (d_name, is_dir) k log = ground arith

procfs_entry-Defined :
    (bus : ℕ) (e : Text × Bool) (k : Kernel) (log : Log) → Defined (procfs_entry bus e k log)
procfs_entry-Defined bus (d_name, is_dir) k log = ground arith

list_bus-Defined :
    (bus : ℕ) (path : Text) (next : M ℤ) (k : Kernel) (log : Log)
    → ((log' : Log) → Defined (next k log'))
    → Defined (list_bus bus path next k log)
list_bus-Defined bus path next k log rest = go (k.list_dir log path)
  where
    go :
        (dir : Option (List (Text × Bool)))
        → Defined (
            (elim dir as (λ _. M ℤ) [
              | none ↦ opendir_failed path
              | some entries ↦ for_each entries (procfs_entry bus) >> next
            ])
              k
              (listed path dir ∷ log))
    go none = tt
    go (some entries) =
        entries-Defined (procfs_entry bus) entries next k (listed path (some entries) ∷ log)
          (λ e log'. procfs_entry-Defined bus e k log') rest

list_buses-Defined :
    (entries : List (Text × Bool)) (k : Kernel) (log : Log) → Defined (list_buses entries k log)
unfolding list_buses
list_buses-Defined [] k log = tt
list_buses-Defined ((d_name, is_dir) ∷ entries) k log =
    elim (scan_hex 2 d_name)
      as (λ r. Defined (
        (elim r as (λ _. M ℤ) [
          | none ↦ list_buses entries
          | some (bus, s) ↦
              if is_dir
              then list_bus bus (procfs_base_dir ++ (text "/" ++ d_name)) (list_buses entries)
              else list_buses entries
        ])
          k log)) [
            | none ↦ list_buses-Defined entries k log
            | some (bus, s) ↦
                elim is_dir
                  as (λ b. Defined (
                    (if b
                        then list_bus bus (procfs_base_dir ++ (text "/" ++ d_name))
                            (list_buses entries)
                        else list_buses entries)
                      k log)) [
                        | true ↦
                            list_bus-Defined bus (procfs_base_dir ++ (text "/" ++ d_name))
                              (list_buses entries) k log (λ log'. list_buses-Defined entries k log')
                        | false ↦ list_buses-Defined entries k log
                      ]
          ]

pci_list_procfs-Defined : (k : Kernel) (log : Log) → Defined (pci_list_procfs k log)
unfolding pci_list_procfs
pci_list_procfs-Defined k log = go (k.list_dir log procfs_base_dir)
  where
    go :
        (dir : Option (List (Text × Bool)))
        → Defined (
            (elim dir as (λ _. M ℤ) [
              | none ↦ opendir_failed procfs_base_dir
              | some entries ↦ list_buses entries
            ])
              k
              (listed procfs_base_dir dir ∷ log))
    go none = tt
    go (some entries) = list_buses-Defined entries k (listed procfs_base_dir (some entries) ∷ log)

pci_list_sysfs-Defined : (k : Kernel) (log : Log) → Defined (pci_list_sysfs k log)
unfolding pci_list_sysfs
pci_list_sysfs-Defined k log = go (k.list_dir log sysfs_base_dir)
  where
    go :
        (dir : Option (List (Text × Bool)))
        → Defined (
            (elim dir as (λ _. M ℤ) [
              | none ↦ opendir_failed sysfs_base_dir
              | some entries ↦ for_each entries sysfs_entry >> pure (pos 0)
            ])
              k
              (listed sysfs_base_dir dir ∷ log))
    go none = tt
    go (some entries) =
        entries-Defined sysfs_entry entries (pure (pos 0)) k
          (listed sysfs_base_dir (some entries) ∷ log) (λ e log'. sysfs_entry-Defined e k log')
          (λ log'. tt)

pub pci_list-Defined :
    (size : SizeParam) (argv : List Text) (k : Kernel) (log : Log)
    → Defined (pci_list size argv k log)
unfolding pci_list
pci_list-Defined size argv k log =
    Defined-then pci_list_sysfs (λ ret. if is_negative ret then pci_list_procfs else pure ret) k log
      (pci_list_sysfs-Defined k log) go
  where
    go :
        (ret : ℤ) (log' : Log)
        → Defined ((if is_negative ret then pci_list_procfs else pure ret) k log')
    go (pos n) log' = tt
    go (negsuc n) log' = pci_list_procfs-Defined k log'

IsRunning-Defined : {A : Type 0} (o : Outcome A) → IsRunning o → Defined o
IsRunning-Defined (done a log) h = absurd h
IsRunning-Defined (replaced log) h = absurd h
IsRunning-Defined (running log) h = tt
IsRunning-Defined undefined h = absurd h

busy_rounds-Defined :
    (n : ℕ) (small : n ≤ int_max) (fuel lines count : ℕ) (t0 : ℕ × ℕ) (k : Kernel) (log : Log)
    → lines ≤ n
    → Defined (busy_rounds fuel (pos n) lines count t0 k log)
unfolding busy_rounds
busy_rounds-Defined n small zero lines count t0 k log below = ground arith
busy_rounds-Defined n small (suc fuel) lines count t0 k log below =
    let next = (count + 1) % 2 ^ 64 in
    let t1 = k.time log in
    let waits = busy_rounds-Defined n small fuel lines next t0 k in
    elim (Bool-cases (int_eq (pos lines) (pos n))) [
      | inl ended ↦ rw ended tt
      | inr more ↦ elim (Bool-cases (next % 16384 == 0)) [
        | inr e ↦ rw (more, e) (waits log below)
        | inl e ↦ elim (Bool-cases (leb 1000000 (elapsed t0 t1))) [
          | inr early ↦ rw (more, e, early) (waits (timed t1.0 t1.1 ∷ log) below)
          | inl late ↦
              let log1 = printed (dec next ++ text "\n") ∷ timed t1.0 t1.1 ∷ log in
              let t2 = k.time log1 in
              let few : (lines == int_max) ≡ false = ground arith in
              rw (more, e, late, few)
                (busy_rounds-Defined n small fuel (lines + 1) 0 t2 k (timed t2.0 t2.1 ∷ log1)
                  (ground arith))
        ]
      ]
    ]

to_signed-le : (u n : ℕ) → to_signed 32 u ≡ pos n → n ≤ int_max
to_signed-le u n e = ground arith

atoi-le : (s : Text) (n : ℕ) → atoi s ≡ pos n → n ≤ int_max
atoi-le s n e = to_signed-le (to_unsigned 32 (strtol 10 s)) n (unfold atoi in e)

-- A count below -1, behind the name.
abbrev pub bad_count : List Text → Bool
bad_count (s ∷ []) = is_negative (atoi s) && not (is_minus_one (atoi s))
bad_count args = false

counted-Defined :
    (reps : ℤ) (fuel : ℕ) (t0 : ℕ × ℕ) (k : Kernel) (log : Log)
    → ((n : ℕ) → reps ≡ pos n → n ≤ int_max)
    → (is_negative reps && not (is_minus_one reps)) ≡ false
    → Defined (busy_rounds fuel reps 0 0 t0 k log)
counted-Defined (pos n) fuel t0 k log small good =
    busy_rounds-Defined n (small n refl) fuel 0 0 t0 k log (omega arith)
counted-Defined (negsuc zero) fuel t0 k log small good =
    IsRunning-Defined (busy_rounds fuel minus_one 0 0 t0 k log)
      (busy_rounds_forever fuel 0 0 t0 k log)
counted-Defined (negsuc (suc n)) fuel t0 k log small good = absurd (cc)

pub busy_loop-Defined :
    (fuel : ℕ) (size : SizeParam) (name : Text) (args : List Text) (k : Kernel) (log : Log)
    → bad_count args ≡ false
    → Defined (busy_loop fuel size (name ∷ args) k log)
unfolding busy_loop
busy_loop-Defined fuel size name [] k log good =
    let t0 = k.time log in
    counted-Defined minus_one fuel t0 k (timed t0.0 t0.1 ∷ log) (λ n e. absurd (cc)) refl
busy_loop-Defined fuel size name (s ∷ []) k log good =
    let t0 = k.time log in
    counted-Defined (atoi s) fuel t0 k (timed t0.0 t0.1 ∷ log) (atoi-le s) good
busy_loop-Defined fuel size name (s ∷ t ∷ args) k log good =
    let t0 = k.time log in
    let more : (length (name ∷ s ∷ t ∷ args) == 2) ≡ false = ground arith in
    rw more (counted-Defined minus_one fuel t0 k (timed t0.0 t0.1 ∷ log) (λ n e. absurd (cc)) refl)
