-- ===== src/Scom/Cpu/Laws.antt =====
-- cputoex and cputochipid: what they print of the register, whatever the memory of their local
-- variables held before.
use iotools.Base.{
  ◌*◌, ◌-◌, ℕ, zero, suc, ◌<◌, ◌/◌, ◌%◌, ◌^◌, bit_and, ◌≡◌, refl, ◌∙◌, ap, Bool, true, false, ◌||◌,
  List, [], ◌∷◌, ◌++◌, some, arith, append_assoc, length, drop, if◌then◌else◌,
}
use iotools.Base.Int.{pos}
use iotools.Libc.Text.{Text, text, str_eq}
use iotools.Libc.Print.{hex, dec}
use iotools.Libc.Strtoul.{strtoul}
use iotools.Libc.Strtoul.Laws.Line.{IsDigits, IsDigits-hex, digit_lem, strtoul-hex_line}
use iotools.Base.Bits.Shifts.{bit_and-low_mask}
use iotools.Base.Bits.{bit_and_step}
use iotools.Libc.Print.{hex_padded}
use iotools.Platform.Laws.{native_word-native_bytes}
use iotools.Kernel.{globbed, Kernel, Log, done, opened, got, closed, printed}
use iotools.Kernel.Calls.{o_rdonly}
use iotools.Platform.{native_word, native_bytes, bswap}
use iotools.Command.{SizeParam}
use iotools.Scom.Cpu.{
  pir_to_chipid, Locals, c_string, number_in, pir_file, cpu_to_pir, cpu_to_ex, cpu_to_chipid,
  cpu_arg,
}

-- Digits hold no NUL, so that a text of digits goes on behind them.
c_string-digits :
    (w memory : Text)
    → IsDigits 16 w
    → c_string (w ++ memory) ≡ (w ++ (c_string memory).0, (c_string memory).1)
unfolding c_string
c_string-digits [] memory h = refl
c_string-digits (zero ∷ w) memory (hc, h) = absurd ((digit_lem 0 hc).5 refl)
c_string-digits (suc c ∷ w) memory (hc, h) = rw (c_string-digits w memory h) refl

-- What sysfs shows of a register: its digits and a newline.
abbrev pub pir_text : ℕ → Text
pir_text pir = hex pir ++ (b'\n' ∷ [])

pub number_in-pir :
    (pir : ℕ) (memory : List ℕ) (k : Kernel) (log : Log)
    → pir < 2 ^ 64
    → number_in (pir_text pir ++ memory) k log ≡ done pir log
unfolding number_in str_eq
number_in-pir pir memory k log small =
    let rest = b'\n' ∷ (c_string memory).0 in
    let behind : pir_text pir ++ memory ≡ hex pir ++ (b'\n' ∷ memory) =
      append_assoc (hex pir) (b'\n' ∷ []) memory in
    let held : c_string (pir_text pir ++ memory) ≡ (hex pir ++ rest, (c_string memory).1) =
      ap c_string behind ∙ c_string-digits (hex pir) (b'\n' ∷ memory) (IsDigits-hex pir) in
    let longer : (strtoul 16 ((hex pir ++ rest) ++ text "1")).1 ≡ rest ++ text "1" =
      rw (append_assoc (hex pir) rest (text "1")) (
        ap (λ (r : ℕ × Text). r.1)
          (strtoul-hex_line pir ((c_string memory).0 ++ text "1") small)) in
    let found : ((c_string memory).1 || true) ≡ true = ground arith in
    rw (held, longer, strtoul-hex_line pir (c_string memory).0 small) (rw found refl)

-- cputoex prints bits 3 to 6 of the register that sysfs shows, the number of the core, and returns
-- 0; what the array for the text held before does not matter.
pub cpu_to_ex_lem :
    (locals : Locals) (size : SizeParam) (name cpu : Text) (rest : List Text) (pir fd : ℕ)
    (k : Kernel) (log : Log)
    → let path = pir_file (cpu_arg cpu) in
      let log1 = opened path o_rdonly (some fd) ∷ log in
      pir < 2 ^ 32
      → k.open_file log path o_rdonly ≡ some fd
      → k.read log1 fd 64 ≡ some (pir_text pir)
      → cpu_to_ex locals size (name ∷ cpu ∷ rest) k log
        ≡ done (pos 0) (
            printed (dec (pir / 8 % 16) ++ text "\n")
            ∷ closed fd
            ∷ got fd 64 (some (pir_text pir))
            ∷ log1)
unfolding cpu_to_ex cpu_to_pir
cpu_to_ex_lem locals size name cpu rest pir fd k log small opens reads =
    let word : pir % 2 ^ 32 ≡ pir = omega arith in
    let core : bit_and (pir / 2 ^ 3) 0xf ≡ pir / 8 % 16 = bit_and-low_mask 4 (pir / 2 ^ 3) in
    let memory = drop (length (pir_text pir)) locals.pir_str in
    rw (opens, reads)
      (rw
        (
          number_in-pir pir memory k
              (closed fd
                ∷ got fd 64 (some (pir_text pir))
                ∷ opened (pir_file (cpu_arg cpu)) o_rdonly (some fd)
                ∷ log)
              (omega arith),
          word,
          core,
        )
        refl)

-- Without the number of the thread.
core_of : (pir : ℕ) → pir < 2 ^ 32 → bit_and pir (2 ^ 32 - 8) ≡ pir / 8 * 8
core_of pir small = omega (
  arith,
  bit_and_step pir (2 ^ 32 - 8),
  bit_and_step (pir / 2) ((2 ^ 32 - 8) / 2),
  bit_and_step (pir / 2 / 2) ((2 ^ 32 - 8) / 2 / 2),
  bit_and-low_mask 29 (pir / 2 / 2 / 2),
)

-- The path of the chip's number in the device tree, for a core.
abbrev pub chip_glob : ℕ → Text
chip_glob core = text "/proc/device-tree/cpus/*@" ++ (hex core ++ text "/ibm,chip-id")

-- Big-endian bytes, as a word of the machine.
word_of_chip :
    (big : Bool) (chip : ℕ)
    → chip < 2 ^ 32
    → native_word big (native_bytes true 4 chip) ≡ (if big then chip else bswap 4 chip)
word_of_chip true chip small = native_word-native_bytes true 4 chip small
word_of_chip false chip small = refl

-- cputochipid looks the core up in the device tree, by the register without the number of the
-- thread, and prints the four bytes that it finds there as a word of the machine: with big-endian
-- bytes, as the device tree has them, that is the number of the chip on a big-endian machine, and
-- the number with its bytes swapped on a little-endian one. What the variables held before does not
-- matter.
pub cpu_to_chipid_lem :
    (locals : Locals) (size : SizeParam) (name cpu path : Text) (rest : List Text)
    (pir chip fd fd' : ℕ) (k : Kernel) (log : Log)
    → let pattern = chip_glob (pir / 8 * 8) in
      let log1 = opened (pir_file (cpu_arg cpu)) o_rdonly (some fd) ∷ log in
      let log2 = globbed pattern (some path) ∷ closed fd ∷ got fd 64 (some (pir_text pir)) ∷ log1 in
      let log3 = opened path o_rdonly (some fd') ∷ log2 in
      let bytes = native_bytes true 4 chip in
      let shown = if k.big_endian then chip else bswap 4 chip in
      pir < 2 ^ 32
      → chip < 2 ^ 32
      → k.open_file log (pir_file (cpu_arg cpu)) o_rdonly ≡ some fd
      → k.read log1 fd 64 ≡ some (pir_text pir)
      → k.glob (closed fd ∷ got fd 64 (some (pir_text pir)) ∷ log1) pattern ≡ some path
      → k.open_file log2 path o_rdonly ≡ some fd'
      → k.read log3 fd' 4 ≡ some bytes
      → cpu_to_chipid locals size (name ∷ cpu ∷ rest) k log
        ≡ done (pos 0) (
            printed (text "0x" ++ (hex_padded 8 shown ++ text "\n"))
            ∷ closed fd'
            ∷ got fd' 4 (some bytes)
            ∷ log3)
unfolding cpu_to_chipid cpu_to_pir pir_to_chipid
cpu_to_chipid_lem locals size name cpu path rest pir chip fd fd' k log small chip_small opens reads
      globs opens' reads' =
    let word : pir % 2 ^ 32 ≡ pir = omega arith in
    let memory = drop (length (pir_text pir)) locals.pir_str in
    let core : bit_and pir (2 ^ 32 - 8) ≡ pir / 8 * 8 = core_of pir small in
    let bytes = native_bytes true 4 chip in
    let log1 : Log =
      closed fd
      ∷ got fd 64 (some (pir_text pir))
      ∷ opened (pir_file (cpu_arg cpu)) o_rdonly (some fd)
      ∷ log in
    let log3 : Log =
      closed fd'
      ∷ got fd' 4 (some bytes)
      ∷ opened path o_rdonly (some fd')
      ∷ globbed (chip_glob (pir / 8 * 8)) (some path)
      ∷ log1 in
    rw (opens, reads)
      (rw (number_in-pir pir memory k log1 (omega arith), word, core)
        (rw (globs, opens', reads')
          (ap
            (λ (w : ℕ). done (pos 0) (printed (text "0x" ++ (hex_padded 8 w ++ text "\n")) ∷ log3))
            (word_of_chip k.big_endian chip chip_small))))
