-- ===== src/Msr/Refines.antt =====
-- A table of registers, which answers sequences of rdmsr and wrmsr.
pub mod Laws
use mathlib.Core.Path.{subst}
use iotools.Base.{
  ap, ◌^◌, ◌<◌, ℕ, ◌≡◌, refl, sym, ◌∙◌, Bool, true, false, ◌&&◌, List, [], ◌∷◌, ◌++◌, Option, none,
  some, arith, ◌==◌, if◌then◌else◌, length, Bool-cases, inl, inr, append-nil, append_assoc,
}
use iotools.Base.Int.{ℤ, pos, is_minus_one, to_int, to_off, int_eq, int_eq_refl}
use iotools.Libc.Text.{Text, text, str_eq, str_eq_refl}
use iotools.Libc.Strtoul.{strtoul, strtol}
use iotools.Libc.Strtoul.Laws.{strtoul-lt}
use iotools.Libc.Print.{hex_padded}
use iotools.Kernel.{Kernel, Log, M, done, got, closed, printed}
use iotools.Kernel.Calls.{◌>>=◌, pure}
use iotools.Kernel.Loops.{bind_done}
use iotools.Kernel.Devices.{
  IsStorage, after_write, at_offset, last_write, path_of, position_of, output,
}
use iotools.Platform.{native_bytes, native_word}
use iotools.Platform.Laws.{native_word-native_bytes, length-native_bytes}
use iotools.Msr.{open_and_seek, rd_msr, wr_msr, msr_device}
use iotools.Msr.Laws.{open_and_seek-at}

-- A command line: wrmsr with a cpu, a register and a value, or rdmsr with a cpu and a register.
pub data MsrLine : Type 0 where
  write_line : Text → Text → Text → MsrLine
  read_line : Text → Text → MsrLine

-- The program runs the command lines one after the other; whether all end with 0.
abbrev pub step : MsrLine → M ℤ
step (write_line cpu msr value) = wr_msr none (text "wrmsr" ∷ cpu ∷ msr ∷ value ∷ [])
step (read_line cpu msr) = rd_msr none (text "rdmsr" ∷ cpu ∷ msr ∷ [])

unfoldable pub run_lines : List MsrLine → M Bool
run_lines [] = pure true
run_lines (line ∷ lines) = do
  status ← step line
  rest ← run_lines lines
  pure (int_eq status (pos 0) && rest)

-- The registers that have a value: by the device of the cpu, and the number of the register.
abbrev pub Registry : Type 0
Registry = List ((Text × ℤ) × ℕ)

unfoldable pub find : Registry → Text → ℤ → Option ℕ
find [] device number = none
find (((device', number'), v) ∷ registers) device number =
    let rest = find registers device number in
    if str_eq device device' && int_eq number number' then some v else rest

abbrev pub device_of : Text → Text
device_of cpu = msr_device (to_int (strtol 0 cpu))

abbrev pub number_of : Text → ℤ
number_of msr = to_off (strtoul 0 msr).0

-- What a table of registers answers: the new table, and what is printed. Nothing is said of a
-- register that has no value yet, nor of the number that lseek takes for a failure.
abbrev pub answer : Registry → MsrLine → Option (Registry × Text)
answer registers (write_line cpu msr value) =
    if is_minus_one (number_of msr)
    then none
    else some (((device_of cpu, number_of msr), (strtoul 0 value).0) ∷ registers, [])
answer registers (read_line cpu msr) =
    if is_minus_one (number_of msr)
    then none
    else elim (find registers (device_of cpu) (number_of msr)) [
      | none ↦ none
      | some v ↦ some (registers, text "0x" ++ (hex_padded 16 v ++ text "\n"))
    ]

unfoldable pub answers : Registry → List MsrLine → Option (Registry × Text)
answers registers [] = some (registers, [])
answers registers (line ∷ lines) = elim (answer registers line) [
  | none ↦ none
  | some (registers', s) ↦ elim (answers registers' lines) [
    | none ↦ none
    | some (registers'', s') ↦ some (registers'', s ++ s')
  ]
]

-- The log holds, for every register of the table, its value as the bytes last written.
abbrev pub Represents : Kernel → Registry → Log → Type 0
Represents k registers log =
    (device : Text) (number : ℤ) (v : ℕ)
    → find registers device number ≡ some v
    → (v < 2 ^ 64) × (last_write device number log ≡ some (native_bytes k.big_endian 8 v))

-- Every device that a cpu has is storage behind the descriptor.
abbrev pub AllStorage : Kernel → ℕ → Type 0
AllStorage k fd = (path : Text) (offset : ℤ) → IsStorage k path offset fd
