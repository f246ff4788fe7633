-- ===== src/Misc.antt =====
-- misc.c: the commands rdtsc, cpuid, busy_loop, cpu_list and runon. sched_setaffinity, the two
-- instructions, the clock and execvp are the kernel's.
pub mod Busy
pub mod Tests
use iotools.Base.{
  ℕ, zero, suc, ◌+◌, ◌-◌, ◌*◌, ◌%◌, ◌^◌, Bool, true, false, List, [], ◌∷◌, ◌++◌, Option, none, some,
  leb, ◌==◌, if◌then◌else◌, length, drop,
}
use iotools.Base.Int.{
  ℤ, pos, negsuc, minus_one, is_minus_one, to_int, to_signed, to_unsigned, int_eq,
}
use iotools.Libc.Text.{Text, text}
use iotools.Libc.Print.{hex_padded, dec}
use iotools.Libc.Strtoul.{strtoul, strtol, atoi}
use iotools.Kernel.{M, Registers}
use iotools.Kernel.Calls.{
  pure, fault, ◌>>=◌, ◌>>◌, for_each, arg, print, complain, complain_errno, setaffinity, execvp,
  cpuid_instruction, rdtsc_instruction, time, online_cpus, still_running,
}
use iotools.Command.{
  SizeParam, PrereqParams, CmdInfo, CmdGroup, var_args, int_max, make_cmd, make_cmd_with_params,
}

-- `set_cpu_affinity`: whether it succeeds
unfoldable pub set_cpu_affinity : ℤ → M Bool
set_cpu_affinity cpu = do
  set ← setaffinity cpu
  if set then pure true else (complain_errno (text "sched_setaffinity()") >> pure false)

-- The microseconds from `t0` to `t1`, in an unsigned int.
unfoldable pub elapsed : ℕ × ℕ → ℕ × ℕ → ℕ
elapsed t0 t1 = (t1.0 * 1000000 + t1.1 + (2 ^ 32 - (t0.0 * 1000000 + t0.1) % 2 ^ 32)) % 2 ^ 32

-- The loop of `busy_loop`, for so many rounds as there is fuel: `lines` is the variable `printed`,
-- an int that may not grow past its maximum.
unfoldable pub busy_rounds : ℕ → ℤ → ℕ → ℕ → ℕ × ℕ → M ℤ
unfolding elapsed
busy_rounds zero reps lines count t0 =
    if int_eq (pos lines) reps then pure (pos 0) else still_running
busy_rounds (suc fuel) reps lines count t0 =
    let next = (count + 1) % 2 ^ 64 in
    if int_eq (pos lines) reps
    then pure (pos 0)
    else if next % 16384 == 0
    then (do
      t1 ← time
      if leb 1000000 (elapsed t0 t1)
          then (do
            print (dec next ++ text "\n")
            t ← time
            if is_minus_one reps
                then busy_rounds fuel reps lines 0 t
                else if lines == int_max
                then fault
                else busy_rounds fuel reps (lines + 1) 0 t)
          else busy_rounds fuel reps lines next t0)
    else busy_rounds fuel reps lines next t0

-- `busy_loop`, for `fuel` rounds of its loop
unfoldable pub busy_loop : ℕ → SizeParam → List Text → M ℤ
unfolding busy_rounds
busy_loop fuel size argv = do
  reps ← if length argv == 2 then (do s ← arg argv 1; pure (atoi s)) else pure minus_one
  t0 ← time
  busy_rounds fuel reps 0 0 t0

-- `rdtsc`
unfoldable pub rdtsc : SizeParam → List Text → M ℤ
rdtsc size argv = do
  tsc ← rdtsc_instruction
  print (text "0x" ++ (hex_padded 16 tsc ++ text "\n"))
  pure (pos 0)

-- `cpuid_inline`: the registers, or none for -1
unfoldable pub cpuid_inline : ℤ → ℕ → ℕ → M (Option Registers)
unfolding set_cpu_affinity
cpuid_inline cpu function index = do
  set ← set_cpu_affinity cpu
  if set
      then (do
        registers ← cpuid_instruction (function % 2 ^ 32) (index % 2 ^ 32)
        pure (some registers))
      else pure none

-- `cpuid`
unfoldable pub cpuid : SizeParam → List Text → M ℤ
unfolding cpuid_inline
cpuid size argv = do
  s ← arg argv 1
  t ← arg argv 2
  index ← if length argv == 4 then (do u ← arg argv 3; pure (strtoul 0 u).0) else pure 0
  r ← cpuid_inline (to_int (strtol 0 s)) (strtoul 0 t).0 index
  elim r [
    | none ↦ complain (text "Could not obtain cpuid result.\n") >> pure minus_one
    | some registers ↦ do
      print (
          text "0x"
          ++ (hex_padded 8 registers.eax
              ++ (text " 0x"
                  ++ (hex_padded 8 registers.ebx
                      ++ (text " 0x"
                          ++ (hex_padded 8 registers.ecx
                              ++ (text " 0x" ++ (hex_padded 8 registers.edx ++ text "\n"))))))))
      pure (pos 0)
  ]

-- The numbers that are less than `n`.
unfoldable pub up_to : ℕ → List ℕ
up_to zero = []
up_to (suc n) = up_to n ++ (n ∷ [])

-- The rounds of a loop from 0 to an int.
abbrev pub rounds : ℤ → ℕ
rounds (pos n) = n
rounds (negsuc n) = 0

-- `cpu_list`
unfoldable pub cpu_list : SizeParam → List Text → M ℤ
unfolding up_to for_each
cpu_list size argv = do
  ncpus ← online_cpus
  for_each (up_to (rounds (to_int ncpus))) (λ i. print (dec i ++ text "\n"))
  pure (pos 0)

-- `runon`
unfoldable pub runon : SizeParam → List Text → M ℤ
unfolding set_cpu_affinity
runon size argv = do
  s ← arg argv 1
  set ← set_cpu_affinity (to_signed 32 ((strtoul 0 s).0 % 2 ^ 32))
  if set
      then (do cmd ← arg argv 2; execvp (drop 2 argv); complain_errno (text "exec"); pure minus_one)
      else pure minus_one

abbrev pub cpuid_params : PrereqParams
cpuid_params = var_args 3 4 (text "<cpu> <function> [index]") 0

abbrev pub runon_params : PrereqParams
runon_params = var_args 3 int_max (text "<cpu> <cmd> [args]") 0

-- `misc_cmds`, in a build for x86 or another machine
unfoldable pub misc_cmds : Bool → ℕ → List CmdInfo
misc_cmds x86 fuel =
    (if x86
      then (make_cmd (text "rdtsc") rdtsc
          ∷ make_cmd_with_params (text "cpuid") cpuid cpuid_params
          ∷ [])
      else [])
    ++ (make_cmd (text "busy_loop") (busy_loop fuel)
        ∷ make_cmd (text "cpu_list") cpu_list
        ∷ make_cmd_with_params (text "runon") runon runon_params
        ∷ [])

-- `MISC_group`
unfoldable pub misc_group : Bool → ℕ → CmdGroup
unfolding misc_cmds
misc_group x86 fuel = record {
  name = text "MISC";
  description = none;
  commands = misc_cmds x86 fuel;
}
