-- ===== src/Cmos/Tests.antt =====
-- Runs of cmos_read and cmos_write, and the theorems at concrete data.
use iotools.Base.{◌≡◌, refl, [], ◌∷◌, none, arith}
use iotools.Base.Int.{pos, minus_one}
use iotools.Libc.Text.{text}
use iotools.Libc.Print.{hex_padded}
use iotools.Libc.Strtoul.{strtoul}
use iotools.Kernel.{Log, done, printed, complained, opened}
use iotools.Kernel.Sample.{failing, disk, disk-IsStorage}
use iotools.Cmos.{cmos_rd, cmos_wr, nvram}
use iotools.Cmos.Laws.{cmos_wr-cmos_rd}

failed_open :
    cmos_rd none (text "cmos_read" ∷ text "0x10" ∷ []) failing []
    ≡ done minus_one (
        complained (text "open(\"/dev/nvram\"): No such file or directory\n")
        ∷ opened nvram 0 none
        ∷ [])
unfolding cmos_rd strtoul
failed_open = refl

cmos_wr-cmos_rd_example :
    (log1 log2 : Log) × (cmos_wr none (text "cmos_write" ∷ text "16" ∷ text "0x107" ∷ []) disk []
      ≡ done (pos 0) log1)
    × (cmos_rd none (text "cmos_read" ∷ text "16" ∷ []) disk log1
        ≡ done (pos 0) (printed (text "0x07\n") ∷ log2))
unfolding strtoul hex_padded
cmos_wr-cmos_rd_example =
    cmos_wr-cmos_rd disk [] none (text "16") (text "0x107") 3 (disk-IsStorage nvram (pos 2))
      (omega arith) refl
