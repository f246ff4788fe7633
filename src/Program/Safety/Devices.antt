-- ===== src/Program/Safety/Devices.antt =====
-- The SCOM and SMBus tables.
use iotools.Base.{
  ℕ, ◌<◌, ◌^◌, ◌≡◌, refl, List, [], ◌∷◌, ◌++◌, Option, none, some, All, All-append, take, length,
  drop, arith,
}
use iotools.Base.Int.{ℤ, minus_one}
use iotools.Libc.Text.{Text, text}
use iotools.Kernel.{Kernel, Log, M, opened, got, closed}
use iotools.Kernel.Calls.{read, ◌>>=◌, ◌>>◌, pure, complain_errno, o_rdonly}
use iotools.Command.{CmdInfo, SizeParam, make_cmd_with_params}
use iotools.Commands.Balance.{one_arg, four_args}
use iotools.Commands.Balance.Tables.{scom_rw_cmds-IsBalanced, smbus_cmds-IsBalanced}
use iotools.Commands.Safety.{Defined, guarded-Defined}
use iotools.Commands.Safety.Steps.{Defined-then}
use iotools.Commands.Safety.WriteRead.{smbus_writeread-Defined}
use iotools.Scom.{scom_rw_cmds}
use iotools.Scom.Cpu.{
  Locals, scom_cmds, cpu_to_pir, pir_to_chipid, cpu_to_chipid, cpu_to_ex, cpu_params, cpu_arg,
  pir_file, finish_pir, print_core, print_chipid,
}
use iotools.Scom.Cpu.Laws.{pir_text, number_in-pir}
use iotools.Smbus.Commands.{smbus_cmds, smbus_writeread, smbus_writeread_params}
use iotools.Smbus.Commands.WriteRead.{writeread}
use iotools.Program.Safety.{IsLinux, IsSafeUnlessRisky}
use iotools.Program.Safety.Tables.{balanced_anyway}

finish_pir-Defined :
    (locals : Locals) (fd : ℕ) (k : Kernel) (log : Log) (r : Option (List ℕ))
    → ((bytes : List ℕ) → r ≡ some bytes → (n : ℕ) × (n < 2 ^ 64) × (bytes ≡ pir_text n))
    → Defined (finish_pir locals fd r k log)
finish_pir-Defined locals fd k log none h = tt
finish_pir-Defined locals fd k log (some bytes) h =
    let (n, small, e) = h bytes refl in
    let memory = drop (length (pir_text n)) locals.pir_str in
    rw e (rw (Defined, number_in-pir n memory k (closed fd ∷ log) small) tt)

cpu_to_pir-Defined :
    (locals : Locals) (cpu : ℤ) (k : Kernel) (log : Log)
    → IsLinux k
    → Defined (cpu_to_pir locals cpu k log)
unfolding cpu_to_pir
cpu_to_pir-Defined locals cpu k log linux = opening (k.open_file log path o_rdonly)
  where
    path : Text
    path = pir_file cpu

    opening :
        (r : Option ℕ)
        → Defined (
            elim r as (λ _. M (Option ℕ)) [
              | none ↦ complain_errno (text "open(\"" ++ (path ++ text "\")")) >> pure none
              | some fd ↦ read fd 64 >>= finish_pir locals fd
            ]
              k
              (opened path o_rdonly r ∷ log))
    opening none = tt
    opening (some fd) =
        let log1 : Log = opened path o_rdonly (some fd) ∷ log in
        finish_pir-Defined locals fd k (got fd 64 (k.read log1 fd 64) ∷ log1) (k.read log1 fd 64)
          (linux.pir log1 fd)

pir_to_chipid-Defined :
    (locals : Locals) (pir : ℕ) (k : Kernel) (log : Log) → Defined (pir_to_chipid locals pir k log)
unfolding pir_to_chipid
pir_to_chipid-Defined locals pir k log = ground arith

cpu_to_ex-Defined :
    (locals : Locals) (size : SizeParam) (name cpu : Text) (k : Kernel) (log : Log)
    → IsLinux k
    → Defined (cpu_to_ex locals size (name ∷ cpu ∷ []) k log)
unfolding cpu_to_ex
cpu_to_ex-Defined locals size name cpu k log linux =
    Defined-then (cpu_to_pir locals (cpu_arg cpu)) print_core k log
      (cpu_to_pir-Defined locals (cpu_arg cpu) k log linux) (λ r log'. printed_core r log')
  where
    printed_core : (r : Option ℕ) (log' : Log) → Defined (print_core r k log')
    printed_core none log' = tt
    printed_core (some pir) log' = tt

cpu_to_chipid-Defined :
    (locals : Locals) (size : SizeParam) (name cpu : Text) (k : Kernel) (log : Log)
    → IsLinux k
    → Defined (cpu_to_chipid locals size (name ∷ cpu ∷ []) k log)
unfolding cpu_to_chipid
cpu_to_chipid-Defined locals size name cpu k log linux =
    Defined-then (cpu_to_pir locals (cpu_arg cpu))
      (λ r. elim r as (λ _. M ℤ) [
        | none ↦ pure minus_one
        | some pir ↦ pir_to_chipid locals pir >>= print_chipid
      ])
      k log (cpu_to_pir-Defined locals (cpu_arg cpu) k log linux) looked_up
  where
    printed_chipid : (r : Option ℕ) (log' : Log) → Defined (print_chipid r k log')
    printed_chipid none log' = tt
    printed_chipid (some chipid) log' = tt

    looked_up :
        (r : Option ℕ) (log' : Log)
        → Defined (
            elim r as (λ _. M ℤ) [
              | none ↦ pure minus_one
              | some pir ↦ pir_to_chipid locals pir >>= print_chipid
            ]
              k log')
    looked_up none log' = tt
    looked_up (some pir) log' =
        Defined-then (pir_to_chipid locals pir) print_chipid k log'
          (pir_to_chipid-Defined locals pir k log') printed_chipid

-- A command on a cpu, of the SCOM table.
cpu_command-IsSafeUnlessRisky :
    (command : Text) (entry : SizeParam → List Text → M ℤ)
    → ((name cpu : Text) (k : Kernel) (log : Log)
        → IsLinux k
        → Defined (entry none (name ∷ cpu ∷ []) k log))
    → IsSafeUnlessRisky (make_cmd_with_params command entry cpu_params)
cpu_command-IsSafeUnlessRisky command entry safe k linux log name args calm =
    guarded-Defined (make_cmd_with_params command entry cpu_params) cpu_params name args k log refl
      (λ log'.
        one_arg (λ (s : List Text). Defined (entry none (name ∷ s) k log'))
          (λ cpu. safe name cpu k log' linux) args)

pub scom_cmds-IsSafeUnlessRisky : (locals : Locals) → All IsSafeUnlessRisky (scom_cmds locals)
unfolding scom_cmds
scom_cmds-IsSafeUnlessRisky locals =
    let cpu_cmds : List CmdInfo =
      make_cmd_with_params (text "cputochipid") (cpu_to_chipid locals) cpu_params
      ∷ make_cmd_with_params (text "cputoex") (cpu_to_ex locals) cpu_params
      ∷ [] in
    All-append IsSafeUnlessRisky scom_rw_cmds cpu_cmds
      (balanced_anyway scom_rw_cmds scom_rw_cmds-IsBalanced)
      (
        cpu_command-IsSafeUnlessRisky (text "cputochipid") (cpu_to_chipid locals)
            (cpu_to_chipid-Defined locals none),
        (
          cpu_command-IsSafeUnlessRisky (text "cputoex") (cpu_to_ex locals)
              (cpu_to_ex-Defined locals none),
          tt,
        ),
      )

abbrev writeread_cmd : CmdInfo
writeread_cmd =
    make_cmd_with_params (text "smbus_writeread") (smbus_writeread writeread) smbus_writeread_params

writeread_cmd-IsSafe : IsSafeUnlessRisky writeread_cmd
writeread_cmd-IsSafe k linux log name args calm =
    guarded-Defined writeread_cmd smbus_writeread_params name args k log refl (λ log' low high.
      four_args
        (λ (s : List Text).
          All (λ (t : Text). length t < 2 ^ 31) s
          → Defined (smbus_writeread writeread none (name ∷ s) k log'))
        (λ a b value count short.
          smbus_writeread-Defined name a b value count short.1.1.0 k none log')
        args low high calm.1.0)

pub smbus_cmds-IsSafeUnlessRisky : All IsSafeUnlessRisky smbus_cmds
unfolding smbus_cmds
smbus_cmds-IsSafeUnlessRisky =
    All-append IsSafeUnlessRisky (take 15 smbus_cmds) (writeread_cmd ∷ [])
      (balanced_anyway (take 15 smbus_cmds) smbus_cmds-IsBalanced) (writeread_cmd-IsSafe, tt)
