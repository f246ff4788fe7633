-- ===== src/Scom/Tests.antt =====
-- Runs of getscom and putscom, and the theorems at concrete data.
use iotools.Scom.Cpu.{Locals, cpu_to_ex, cpu_to_chipid}
use iotools.Scom.Cpu.Laws.{pir_text, cpu_to_ex_lem, cpu_to_chipid_lem}
use iotools.Base.{true, if◌then◌else◌, ◌==◌, some, ◌^◌, ◌<◌, ◌≡◌, refl, [], ◌∷◌, none, arith}
use iotools.Base.Int.{pos, minus_one, to_off}
use iotools.Libc.Text.{text}
use iotools.Libc.Print.{hex, dec, hex_padded}
use iotools.Libc.Strtoul.{strtoul, strtol}
use iotools.Kernel.{globbed, got, closed, Kernel, Log, done, printed, complained, opened}
use iotools.Kernel.Calls.{o_rdonly}
use iotools.Platform.{native_bytes}
use iotools.Kernel.Sample.{failing, disk, disk-IsStorage}
use iotools.Scom.{scom_offset, scom_device, open_and_seek, rd_scom, wr_scom}
use iotools.Scom.Laws.{wr_scom-rd_scom, scom_offset_lem}

failed_open :
    rd_scom none (text "getscom" ∷ text "0x10" ∷ text "7" ∷ []) failing []
    ≡ done minus_one (
        complained (
          text
            "open(\"/sys/kernel/debug/powerpc/scom/00000010/access\"): No such file or directory\n")
        ∷ opened (text "/sys/kernel/debug/powerpc/scom/00000010/access") 0 none
        ∷ [])
unfolding rd_scom open_and_seek strtoul strtol hex_padded
failed_open = refl

wr_scom-rd_scom_example :
    (log1 log2 : Log) × (wr_scom none
        (text "putscom" ∷ text "0" ∷ text "0x8000000000000010" ∷ text "7" ∷ [])
        disk
        []
      ≡ done (pos 0) log1)
    × (rd_scom none (text "getscom" ∷ text "0" ∷ text "0x8000000000000010" ∷ []) disk log1
        ≡ done (pos 0) (printed (text "0x0000000000000007\n") ∷ log2))
unfolding strtoul strtol hex_padded scom_offset
wr_scom-rd_scom_example =
    wr_scom-rd_scom disk [] none (text "0") (text "0x8000000000000010") (text "7") 3
      (disk-IsStorage (scom_device 0) (to_off (scom_offset 0x8000000000000010))) refl

scom_offset_lem_example :
    (scom_offset 0x10 ≡ 0x80)
    × (scom_offset 0x8000000000000010 ≡ 0x4000000000000080)
    × (scom_offset 0x8000000000000010 < 2 ^ 63)
scom_offset_lem_example = scom_offset_lem 0x10 (omega arith)

-- The register is 44, and the chip 16; every file opens as descriptor 3.
abbrev power_machine : Kernel
power_machine = record failing {
  open_file = λ log path flags. some 3;
  read = λ log fd count. if count == 64 then some (pir_text 44) else some (native_bytes true 4 16);
  glob = λ log pattern. some (text "/proc/device-tree/cpus/cpu@28/ibm,chip-id");
}

-- Memory that holds digits before it is assigned.
abbrev dirty : Locals
dirty = record { pir_str = text "123456789"; chipid = 1 ∷ 2 ∷ 3 ∷ 4 ∷ [] }

cpu_to_ex_lem_example :
    cpu_to_ex dirty none (text "cputoex" ∷ text "0" ∷ []) power_machine []
    ≡ done (pos 0) (
        printed (text "5\n")
        ∷ closed 3
        ∷ got 3 64 (some (pir_text 44))
        ∷ opened (text "/sys/devices/system/cpu/cpu0/pir") o_rdonly (some 3)
        ∷ [])
unfolding dec strtoul iotools.Libc.Print.dec_int
cpu_to_ex_lem_example =
    cpu_to_ex_lem dirty none (text "cputoex") (text "0") [] 44 3 power_machine [] (omega arith) refl
      refl

cpu_to_chipid_lem_example :
    cpu_to_chipid dirty none (text "cputochipid" ∷ text "0" ∷ []) power_machine []
    ≡ done (pos 0) (
        printed (text "0x10000000\n")
        ∷ closed 3
        ∷ got 3 4 (some (0 ∷ 0 ∷ 0 ∷ 16 ∷ []))
        ∷ opened (text "/proc/device-tree/cpus/cpu@28/ibm,chip-id") o_rdonly (some 3)
        ∷ globbed
            (text "/proc/device-tree/cpus/*@28/ibm,chip-id")
            (some (text "/proc/device-tree/cpus/cpu@28/ibm,chip-id"))
        ∷ closed 3
        ∷ got 3 64 (some (pir_text 44))
        ∷ opened (text "/sys/devices/system/cpu/cpu0/pir") o_rdonly (some 3)
        ∷ [])
unfolding hex hex_padded dec strtoul iotools.Libc.Print.dec_int
cpu_to_chipid_lem_example =
    cpu_to_chipid_lem dirty none (text "cputochipid") (text "0")
      (text "/proc/device-tree/cpus/cpu@28/ibm,chip-id") [] 44 16 3 3 power_machine [] (omega arith)
      (omega arith) refl refl refl refl refl
