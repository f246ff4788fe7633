-- ===== src/Msr/Refines/Laws.antt =====
-- Any sequence of rdmsr and wrmsr behaves like the table of registers.
use mathlib.Core.Path.{subst}
use iotools.Base.{
  ap, ◌^◌, ◌<◌, ℕ, ◌≡◌, refl, sym, ◌∙◌, Bool, true, false, ◌&&◌, List, [], ◌∷◌, ◌++◌, Option, none,
  some, arith, ◌==◌, length, Bool-cases, inl, inr, append-nil, append_assoc,
}
use iotools.Base.Int.{ℤ, pos, is_minus_one, to_int, int_eq}
use iotools.Libc.Text.{Text, text, str_eq}
use iotools.Libc.Strtoul.{strtoul, strtol}
use iotools.Libc.Strtoul.Laws.{strtoul-lt}
use iotools.Libc.Print.{hex_padded}
use iotools.Kernel.{Kernel, Log, M, done, got, closed, printed}
use iotools.Kernel.Calls.{◌>>=◌, pure}
use iotools.Kernel.Loops.{bind_done}
use iotools.Kernel.Devices.{after_write, at_offset, last_write, path_of, position_of, output}
use iotools.Platform.{native_bytes, native_word}
use iotools.Platform.Laws.{native_word-native_bytes, length-native_bytes}
use iotools.Msr.{rd_msr, wr_msr}
use iotools.Msr.Laws.{open_and_seek-at}
use iotools.Msr.Refines.{
  MsrLine, write_line, read_line, step, run_lines, Registry, find, device_of, number_of, answer,
  answers, Represents, AllStorage,
}

module _ (k : Kernel) (fd : ℕ) (storage : AllStorage k fd) where
  wr_msr-writes :
      (cpu msr value : Text) (log : Log)
      → is_minus_one (number_of msr) ≡ false
      → wr_msr none (text "wrmsr" ∷ cpu ∷ msr ∷ value ∷ []) k log
        ≡ done (pos 0) (
            after_write
              (device_of cpu)
              (number_of msr)
              fd
              1
              (native_bytes k.big_endian 8 (strtoul 0 value).0)
              log)
  unfolding wr_msr
  wr_msr-writes cpu msr value log h =
      let device = storage (device_of cpu) (number_of msr) in
      rw (
        open_and_seek-at k log (to_int (strtol 0 cpu)) (strtoul 0 msr).0 1 fd device h,
        ◌>>=◌,
        device.writes,
        length-native_bytes k.big_endian 8 (strtoul 0 value).0,
      )

  rd_msr-reads :
      (cpu msr : Text) (v : ℕ) (log : Log)
      → is_minus_one (number_of msr) ≡ false
      → v < 2 ^ 64
      → last_write (device_of cpu) (number_of msr) log ≡ some (native_bytes k.big_endian 8 v)
      → let bytes = native_bytes k.big_endian 8 v in
        rd_msr none (text "rdmsr" ∷ cpu ∷ msr ∷ []) k log
        ≡ done (pos 0) (
            printed (text "0x" ++ (hex_padded 16 v ++ text "\n"))
            ∷ closed fd
            ∷ got fd 8 (some bytes)
            ∷ at_offset (device_of cpu) (number_of msr) fd 0 log)
  rd_msr-reads cpu msr v log h small wrote =
      let device = storage (device_of cpu) (number_of msr) in
      let bytes = native_bytes k.big_endian 8 v in
      let log1 = at_offset (device_of cpu) (number_of msr) fd 0 log in
      let same : (fd == fd) ≡ true = ground arith in
      let there : last_write (path_of fd log1) (position_of fd log1) log1 ≡ some bytes =
        unfold last_write in (rw same wrote) in
      let eight : length bytes ≡ 8 = length-native_bytes k.big_endian 8 v in
      let came : k.read log1 fd 8 ≡ some bytes =
        subst (λ (m : ℕ). k.read log1 fd m ≡ some bytes) eight (device.reads log1 bytes there) in
      let back : native_word k.big_endian bytes ≡ v =
        native_word-native_bytes k.big_endian 8 v (omega arith) in
      unfold rd_msr in
      rw (
        open_and_seek-at k log (to_int (strtol 0 cpu)) (strtoul 0 msr).0 0 fd device h,
        ◌>>=◌,
        came,
        eight,
        back,
      )

  Represents-written :
      (registers : Registry) (device : Text) (number : ℤ) (v : ℕ) (log : Log)
      → v < 2 ^ 64
      → Represents k registers log
      → Represents k
          (((device, number), v) ∷ registers)
          (after_write device number fd 1 (native_bytes k.big_endian 8 v) log)
  unfolding last_write find
  Represents-written registers device number v log small holds device' number' v' found =
      let same : (fd == fd) ≡ true = ground arith in
      elim (Bool-cases (str_eq device' device && int_eq number' number)) [
        | inl e ↦
            let this : v ≡ v' = ground arith in
            (omega arith, rw (same, e) (ap (λ (x : ℕ). some (native_bytes k.big_endian 8 x)) this))
        | inr e ↦
            let older : find registers device' number' ≡ some v' = ground arith in
            let (small', wrote) = holds device' number' v' older in (small', rw (same, e) wrote)
      ]

  -- The program agrees with an answer of the table, where there is one.
  abbrev Agrees : {A : Type 0} → M A → A → Log → Option (Registry × Text) → Type 0
  Agrees m a log none = Unit {0}
  Agrees m a log (some (registers, s)) =
      (log' : Log) × (m k log ≡ done a log')
      × (output log' ≡ output log ++ s)
      × Represents k registers log'

  step-refines :
      (line : MsrLine) (registers : Registry) (log : Log)
      → Represents k registers log
      → Agrees (step line) (pos 0) log (answer registers line)
  step-refines (write_line cpu msr value) registers log holds =
      elim (Bool-cases (is_minus_one (number_of msr))) [
        | inl e ↦ rw e tt
        | inr e ↦
            let v = (strtoul 0 value).0 in
            rw e (
              after_write (device_of cpu) (number_of msr) fd 1 (native_bytes k.big_endian 8 v) log,
              wr_msr-writes cpu msr value log e,
              unfold output in sym (append-nil (output log)),
              Represents-written registers (device_of cpu) (number_of msr) v log
                  (strtoul-lt 0 value) holds,
            )
      ]
  step-refines (read_line cpu msr) registers log holds =
      elim (Bool-cases (is_minus_one (number_of msr))) [
        | inl e ↦ rw e tt
        | inr e ↦ rw e (go e (find registers (device_of cpu) (number_of msr)) refl)
      ]
    where
      go :
          is_minus_one (number_of msr) ≡ false
          → (r : Option ℕ) → find registers (device_of cpu) (number_of msr) ≡ r
          → Agrees
              (step (read_line cpu msr))
              (pos 0)
              log
              (elim r as (λ _. Option (Registry × Text)) [
                | none ↦ none
                | some v ↦ some (registers, text "0x" ++ (hex_padded 16 v ++ text "\n"))
              ])
      go e none found = tt
      go e (some v) found =
          let (small, wrote) = holds (device_of cpu) (number_of msr) v found in
          let bytes = native_bytes k.big_endian 8 v in
          (
            printed (text "0x" ++ (hex_padded 16 v ++ text "\n"))
                ∷ closed fd
                ∷ got fd 8 (some bytes)
                ∷ at_offset (device_of cpu) (number_of msr) fd 0 log,
            rd_msr-reads cpu msr v log e small wrote,
            unfold output in refl,
            unfold last_write in holds,
          )

  lines-refine :
      (lines : List MsrLine) (registers : Registry) (log : Log)
      → Represents k registers log
      → Agrees (run_lines lines) true log (answers registers lines)
  unfolding run_lines answers
  lines-refine [] registers log holds = (log, refl, sym (append-nil (output log)), holds)
  lines-refine (line ∷ lines) registers log holds =
      first (lines-refine lines) (answer registers line) (step-refines line registers log holds)
    where
      after : ℤ → M Bool
      after status = run_lines lines >>= λ rest. pure (int_eq status (pos 0) && rest)

      second :
          (s : Text) (log1 : Log) (r : Option (Registry × Text))
          → step line k log ≡ done (pos 0) log1
          → output log1 ≡ output log ++ s
          → Agrees (run_lines lines) true log1 r
          → Agrees (step line >>= after) true log (elim r as (λ _. Option (Registry × Text)) [
            | none ↦ none
            | some x' ↦ some (x'.0, s ++ x'.1)
          ])
      second s log1 none e o h = tt
      second s log1 (some (registers'', s')) e o (log2, e', o', holds'') = (
        log2,
        bind_done (step line) after k e
            ∙ bind_done (run_lines lines) (λ rest. pure (int_eq (pos 0) (pos 0) && rest)) k e',
        o' ∙ (rw (o, append_assoc (output log) s s') refl),
        holds'',
      )

      first :
          ((registers' : Registry) (log' : Log)
            → Represents k registers' log'
            → Agrees (run_lines lines) true log' (answers registers' lines))
          → (r : Option (Registry × Text)) → Agrees (step line) (pos 0) log r
          → Agrees (step line >>= after) true log (elim r as (λ _. Option (Registry × Text)) [
            | none ↦ none
            | some x ↦ elim (answers x.0 lines) as (λ _. Option (Registry × Text)) [
              | none ↦ none
              | some x' ↦ some (x'.0, x.1 ++ x'.1)
            ]
          ])
      first next none h = tt
      first next (some (registers', s)) (log1, e, o, holds') =
          second s log1 (answers registers' lines) e o (next registers' log1 holds')

-- Where the devices of the cpus keep what is written, any sequence of wrmsr and rdmsr prints what a
-- table of registers answers, as far as the table has answers: every command line ends with 0, and
-- the log represents the table that is left.
pub run_lines_refines :
    (k : Kernel) (fd : ℕ) (lines : List MsrLine) (registers registers' : Registry) (s : Text)
    (log : Log)
    → AllStorage k fd
    → Represents k registers log
    → answers registers lines ≡ some (registers', s)
    → (log' : Log) × (run_lines lines k log ≡ done true log')
      × (output log' ≡ output log ++ s)
      × Represents k registers' log'
run_lines_refines k fd lines registers registers' s log storage holds e =
    subst (Agrees k fd storage (run_lines lines) true log) e
      (lines-refine k fd storage lines registers log holds)
