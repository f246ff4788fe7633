-- ===== src/Msr/Tests.antt =====
-- Runs of rdmsr and wrmsr, and the theorems at concrete data.
use iotools.Base.{true, List, ◌≡◌, refl, [], ◌∷◌, none}
use iotools.Base.Int.{pos, minus_one}
use iotools.Libc.Text.{text}
use iotools.Libc.Print.{hex_padded, dec_int}
use iotools.Libc.Strtoul.{strtoul, strtol}
use iotools.Kernel.{Log, done, printed, complained, opened}
use iotools.Kernel.Sample.{failing, disk, disk-IsStorage}
use iotools.Msr.{rd_msr, wr_msr, open_and_seek, msr_device}
use iotools.Kernel.Devices.{output}
use iotools.Libc.Text.{str_eq}
use iotools.Msr.Refines.{
  MsrLine, write_line, read_line, Registry, Represents, run_lines, answers, find,
}
use iotools.Msr.Refines.Laws.{run_lines_refines}
use iotools.Msr.Laws.{wr_msr-rd_msr}

failed_open :
    rd_msr none (text "rdmsr" ∷ text "0" ∷ text "0x10" ∷ []) failing []
    ≡ done minus_one (
        complained (text "open(\"/dev/cpu/0/msr\"): No such file or directory\n")
        ∷ opened (text "/dev/cpu/0/msr") 0 none
        ∷ [])
unfolding rd_msr open_and_seek strtoul strtol dec_int
failed_open = refl

wr_msr-rd_msr_example :
    (log1 log2 : Log) × (wr_msr none
        (text "wrmsr" ∷ text "0" ∷ text "0x10" ∷ text "0x107" ∷ [])
        disk
        []
      ≡ done (pos 0) log1)
    × (rd_msr none (text "rdmsr" ∷ text "0" ∷ text "0x10" ∷ []) disk log1
        ≡ done (pos 0) (printed (text "0x0000000000000107\n") ∷ log2))
unfolding strtoul strtol hex_padded
wr_msr-rd_msr_example =
    wr_msr-rd_msr disk [] none (text "0") (text "0x10") (text "0x107") 3
      (disk-IsStorage (msr_device (pos 0)) (pos 16)) refl

abbrev three_lines : List MsrLine
three_lines =
    write_line (text "0") (text "0x10") (text "7")
    ∷ write_line (text "1") (text "0x10") (text "8")
    ∷ read_line (text "0") (text "0x10")
    ∷ []

abbrev two_registers : Registry
two_registers = ((msr_device (pos 1), pos 0x10), 8) ∷ ((msr_device (pos 0), pos 0x10), 7) ∷ []

run_lines_refines_example :
    (log' : Log) × (run_lines three_lines disk [] ≡ done true log')
    × (output log' ≡ text "0x0000000000000007\n")
    × Represents disk two_registers log'
unfolding answers find strtoul strtol hex_padded dec_int str_eq output
run_lines_refines_example =
    run_lines_refines disk 3 three_lines [] two_registers (text "0x0000000000000007\n") []
      disk-IsStorage (λ device number v found. absurd (cc)) refl
