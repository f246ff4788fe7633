-- ===== src/Scom/Cpu.antt =====
-- scom.c: cputochipid and cputoex, from the processor's identification register, and the table.
pub mod Laws
use iotools.Base.{
  ℕ, zero, suc, ◌-◌, ◌/◌, ◌%◌, ◌^◌, bit_and, Bool, true, false, not, ◌||◌, List, [], ◌∷◌, ◌++◌,
  Option, none, some, if◌then◌else◌, take,
}
use iotools.Base.Int.{ℤ, pos, minus_one, to_signed}
use iotools.Libc.Text.{Text, text, str_eq}
use iotools.Libc.Print.{hex, hex_padded, dec, dec_int}
use iotools.Libc.Strtoul.{strtoul}
use iotools.Kernel.{M}
use iotools.Kernel.Calls.{
  pure, fault, ◌>>=◌, ◌>>◌, arg, print, complain, complain_errno, open_file, read, close, glob,
  glob_error, o_rdonly, big_endian,
}
use iotools.Platform.{native_word, overwrite}
use iotools.Command.{SizeParam, PrereqParams, CmdInfo, CmdGroup, fixed_args, make_cmd_with_params}
use iotools.Scom.{scom_rw_cmds}

-- What the local variables hold before they are assigned: the 64 bytes of `pir_str`, the 4 of `chipid`.
pub record Locals : Type 0 where
  pub pir_str : List ℕ
  pub chipid : List ℕ

-- The bytes up to the first NUL, and whether there is one.
unfoldable pub c_string : List ℕ → Text × Bool
c_string [] = ([], false)
c_string (zero ∷ memory) = ([], true)
c_string (suc c ∷ memory) = let (s, ended) = c_string memory in (suc c ∷ s, ended)

-- strtoul(memory, NULL, 16): without a NUL the number has to end inside, that is one digit more
-- would not be read.
unfoldable pub number_in : List ℕ → M ℕ
unfolding c_string
number_in memory =
    let (s, ended) = c_string memory in
    if ended || not (str_eq (strtoul 16 (s ++ text "1")).1 []) then pure (strtoul 16 s).0 else fault

abbrev pub pir_file : ℤ → Text
pir_file cpu = text "/sys/devices/system/cpu/cpu" ++ (dec_int cpu ++ text "/pir")

abbrev pub finish_pir : Locals → ℕ → Option (List ℕ) → M (Option ℕ)
finish_pir locals fd none = do complain_errno (text "read()"); close fd; pure none
finish_pir locals fd (some bytes) = do
  close fd
  pir ← number_in (overwrite bytes locals.pir_str)
  pure (some (pir % 2 ^ 32))

-- `cpu_to_pir`: the register, or none for -1
unfoldable pub cpu_to_pir : Locals → ℤ → M (Option ℕ)
unfolding number_in
cpu_to_pir locals cpu = do
  r ← open_file (pir_file cpu) o_rdonly
  elim r [
    | none ↦ complain_errno (text "open(\"" ++ (pir_file cpu ++ text "\")")) >> pure none
    | some fd ↦ read fd 64 >>= finish_pir locals fd
  ]

-- The pattern for the core of a register: the thread's number is left out.
abbrev pub cpu_glob_str : ℕ → Text
cpu_glob_str pir =
    text "/proc/device-tree/cpus/*@" ++ (hex (bit_and pir (2 ^ 32 - 8)) ++ text "/ibm,chip-id")

abbrev pub read_chipid : Locals → ℕ → M (Option ℕ)
read_chipid locals fd = do
  r ← read fd 4
  elim r [
    | none ↦ (do complain_errno (text "read()"); close fd; pure none)
    | some bytes ↦ (do
      close fd
      big ← big_endian
      pure (some (native_word big (take 4 (overwrite bytes locals.chipid)))))
  ]

abbrev pub open_chipid : Locals → Text → M (Option ℕ)
open_chipid locals path = do
  r ← open_file path o_rdonly
  elim r [
    | none ↦ complain_errno (text "open(\"" ++ (path ++ text "\")")) >> pure none
    | some fd ↦ read_chipid locals fd
  ]

-- `pir_to_chipid`: the chip, or none for -1
unfoldable pub pir_to_chipid : Locals → ℕ → M (Option ℕ)
pir_to_chipid locals pir = do
  r ← glob (cpu_glob_str pir)
  elim r [
    | none ↦ (do
      e ← glob_error (cpu_glob_str pir)
      complain (text "glob(\"" ++ (cpu_glob_str pir ++ (text "\"): " ++ (dec_int e ++ text "\n"))))
      pure none)
    | some path ↦ open_chipid locals path
  ]

-- `cpu = strtoul(argv[1], NULL, 0)`, cut to an int
abbrev pub cpu_arg : Text → ℤ
cpu_arg s = to_signed 32 ((strtoul 0 s).0 % 2 ^ 32)

abbrev pub print_chipid : Option ℕ → M ℤ
print_chipid none = pure minus_one
print_chipid (some chipid) = print (text "0x" ++ (hex_padded 8 chipid ++ text "\n")) >> pure (pos 0)

-- `cpu_to_chipid`
unfoldable pub cpu_to_chipid : Locals → SizeParam → List Text → M ℤ
unfolding cpu_to_pir pir_to_chipid
cpu_to_chipid locals size argv = do
  s ← arg argv 1
  r ← cpu_to_pir locals (cpu_arg s)
  elim r [ none ↦ pure minus_one | some pir ↦ pir_to_chipid locals pir >>= print_chipid ]

abbrev pub print_core : Option ℕ → M ℤ
print_core none = pure minus_one
print_core (some pir) = print (dec (bit_and (pir / 2 ^ 3) 0xf) ++ text "\n") >> pure (pos 0)

-- `cpu_to_ex`
unfoldable pub cpu_to_ex : Locals → SizeParam → List Text → M ℤ
unfolding cpu_to_pir
cpu_to_ex locals size argv = do s ← arg argv 1; cpu_to_pir locals (cpu_arg s) >>= print_core

abbrev pub cpu_params : PrereqParams
cpu_params = fixed_args 2 (text "<cpu>") 0

-- `scom_cmds`
unfoldable pub scom_cmds : Locals → List CmdInfo
unfolding scom_rw_cmds
scom_cmds locals =
    scom_rw_cmds
    ++ (make_cmd_with_params (text "cputochipid") (cpu_to_chipid locals) cpu_params
        ∷ make_cmd_with_params (text "cputoex") (cpu_to_ex locals) cpu_params
        ∷ [])

-- `SCOM_group`
unfoldable pub scom_group : Locals → CmdGroup
unfolding scom_cmds
scom_group locals = record {
  name = text "SCOM";
  description = some (text "commands to access SCOM registers");
  commands = scom_cmds locals;
}
