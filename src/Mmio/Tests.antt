-- ===== src/Mmio/Tests.antt =====
-- Runs of the memory commands, and the theorems at concrete data.
use iotools.Base.{ℕ, ◌+◌, ◌<◌, ◌≡◌, refl, List, [], ◌∷◌, ◌++◌, none, some, arith, map}
use mathlib.Core.List.{reverse}
use iotools.Base.Int.{pos}
use iotools.Libc.Text.{text, str_eq}
use iotools.Kernel.Bounds.{IsBounded}
use iotools.Kernel.Devices.{Keeps}
use iotools.Command.{CmdInfo, make_cmd_with_params}
use iotools.Commands.Prereqs.{run_located}
use iotools.Commands.Balance.{IsModest, is_long_dump}
use iotools.Commands.Balance.Tables.{tables-Keeps}
use iotools.Cmos.{cmos_cmds}
use iotools.Msr.{msr_cmds}
use iotools.Scom.{scom_rw_cmds}
use iotools.Mmio.{dump_params, mmio_cmds, cacheable_mmio_cmds}
use iotools.Libc.Print.{hex_padded}
use iotools.Libc.Strtoul.{strtoul}
use iotools.Kernel.{Kernel, Log, done, printed, opened, closed, mapped, unmapped, loaded, stored}
use iotools.Kernel.Sample.{failing}
use iotools.Kernel.Loops.{concat_map}
use iotools.Mmio.{
  mmio_read_x, mmio_write_x, mmio_dump, page_offset, page_address, dump, open_mapping,
  close_mapping, dump_loop,
}
use iotools.Mmio.Mapping.{mmio_access}
use iotools.Mmio.Lines.{dump_lines, mmio_dump_prints}
use iotools.Kernel.Devices.{output}
use iotools.Mmio.Dump.Access.{map_at, load_at}
use iotools.Mmio.Dump.{plan, run_of, memory_of, bytes_of_load, range, mmio_dump_covers}

-- Every mapping begins at 0x10000, and every byte of memory is 7.
abbrev ram : Kernel
ram = record failing {
  open_file = λ log path flags. some 3;
  mmap = λ log length prot fd offset. some 0x10000;
  load = λ log width address. 7;
}

dump_five :
    mmio_dump 0 none (text "mem_dump" ∷ text "0x2004" ∷ text "5" ∷ []) ram []
    ≡ done (pos 0) (
        closed 3
        ∷ unmapped 0x10000 9
        ∷ printed (text "\n")
        ∷ printed (text " 0x07")
        ∷ loaded 1 0x10008 7
        ∷ printed (text " 0x00000007")
        ∷ loaded 4 0x10004 7
        ∷ printed (text "0x0000000000002004:")
        ∷ mapped 9 1 3 0x2000 (some 0x10000)
        ∷ opened (text "/dev/mem") 0 (some 3)
        ∷ [])
unfolding mmio_dump dump open_mapping close_mapping dump_loop page_offset page_address strtoul
    hex_padded
dump_five = refl

mmio_access_example :
    (page off : ℕ) × (page + off ≡ 0x2004)
    × (off < 4096)
    × (let start : ℕ → ℕ → Log = λ flags prot.
          mapped (8 + off) prot 3 page (some 0x10000)
          ∷ opened (text "/dev/mem") flags (some 3)
          ∷ [] in
        let finish : Log = closed 3 ∷ unmapped 0x10000 (8 + off) ∷ [] in
        (mmio_write_x (some 16) (text "mem_write" ∷ text "0x2004" ∷ text "0x12345" ∷ []) ram []
          ≡ done (pos 0) (finish ++ (stored 2 (0x10000 + off) 0x2345 ∷ start 2 3)))
        × (mmio_read_x 0 (some 16) (text "mem_read" ∷ text "0x2004" ∷ []) ram []
            ≡ done
                (pos 0)
                (finish ++ (printed (text "0x0007\n") ∷ loaded 2 (0x10000 + off) 7 ∷ start 0 1))))
unfolding strtoul hex_padded
mmio_access_example =
    mmio_access ram [] 12 2 3 0xffff (some 16) (text "0x2004") (text "0x12345") refl (omega arith)
      refl (λ log path flags. refl) (λ log length prot fd offset. refl)

mmio_dump_covers_example :
    (page off : ℕ) × (page + off ≡ 0x2004)
    × (off < 4096)
    × (log' : Log) × (loads : List (ℕ × ℕ)) × (mmio_dump 0 none
          (text "mmio_dump" ∷ text "0x2004" ∷ text "5" ∷ [])
          ram
          []
        ≡ done (pos 0) (closed 3 ∷ unmapped 0x10000 (5 + off) ∷ log'))
    × (memory_of log' ≡ reverse (map load_at loads) ++ (map_at (5 + off) 3 page ∷ memory_of []))
    × (concat_map bytes_of_load loads ≡ range (0x10000 + off) 5)
unfolding strtoul
mmio_dump_covers_example =
    mmio_dump_covers ram [] 0 12 3 0xffff none (text "0x2004") (text "5") refl (omega arith)
      (omega arith) (λ log path flags. refl) (λ log length prot fd offset. refl)

mmio_dump_prints_example :
    (log' : Log) × (mmio_dump 0 none (text "mmio_dump" ∷ text "0x2004" ∷ text "5" ∷ []) ram []
      ≡ done (pos 0) log')
    × (output log' ≡ text "0x0000000000002004: 0x00000007 0x07\n")
unfolding strtoul hex_padded dump_lines plan output run_of
mmio_dump_prints_example =
    mmio_dump_prints ram (λ width addr. 7) [] 0 12 3 0xffff none (text "0x2004") (text "5") refl
      (omega arith) (omega arith) (λ log path flags. refl) (λ log length prot fd offset. refl)
      (λ log width addr. refl)

abbrev mem_dump_cmd : CmdInfo
mem_dump_cmd = make_cmd_with_params (text "mem" ++ text "_dump") (mmio_dump 0) dump_params

ram-IsBounded : IsBounded ram
ram-IsBounded = record { pages = omega arith; replies = λ log fd call. omega arith }

short_dump : IsModest (text "mem" ++ text "_dump") (text "0x2004" ∷ text "5" ∷ [])
unfolding is_long_dump str_eq strtoul
short_dump = ((omega arith, (omega arith, tt)), refl)

tables-Keeps_example :
    Keeps 3 [] (run_located (text "mem_dump" ∷ text "0x2004" ∷ text "5" ∷ []) mem_dump_cmd ram [])
unfolding cmos_cmds msr_cmds scom_rw_cmds mmio_cmds cacheable_mmio_cmds
tables-Keeps_example =
    tables-Keeps 23 mem_dump_cmd (text "mem_dump") (text "0x2004" ∷ text "5" ∷ []) ram [] 3 refl
      ram-IsBounded short_dump
