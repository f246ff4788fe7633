-- ===== src/Mmio.antt =====
-- mmio_rw.c: the commands mmio_read8 to mmio_dump and mem_read8 to mem_dump, on mappings of /dev/mem.
pub mod Balance
pub mod Dump
pub mod Lines
pub mod Mapping
pub mod Tests
use iotools.Base.{
  ℕ, zero, suc, ◌+◌, ◌-◌, ◌*◌, ◌%◌, ◌^◌, bit_and, bit_or, Bool, true, false, List, [], ◌∷◌, ◌++◌,
  Option, none, some, ltb, ◌==◌, if◌then◌else◌, length,
}
use iotools.Base.Int.{ℤ, pos, minus_one}
use iotools.Libc.Text.{Text, text, str_eq}
use iotools.Libc.Print.{hex_padded}
use iotools.Libc.Strtoul.{strtoul, ulong_max}
use iotools.Kernel.{M}
use iotools.Kernel.Calls.{
  pure, fault, ◌>>=◌, ◌>>◌, arg, print, complain, complain_errno, open_file, close, mmap, munmap,
  load, store, page_size, o_rdonly, o_wronly, o_rdwr,
}
use iotools.Command.{
  SizeParam, PrereqParams, CmdInfo, CmdGroup, fixed_args, var_args, make_cmd_with_params,
  make_cmd_with_params_size,
}

-- `mmap_info`, for the fields that are read behind `open_mapping`
pub record MmapInfo : Type 0 where
  pub fd : ℕ
  pub mem : ℕ
  pub off : ℕ
  pub length : ℕ

abbrev pub o_accmode : ℕ
o_accmode = 3

-- O_SYNC of Linux
abbrev pub o_sync : ℕ
o_sync = 0x101000

-- PROT_READ is 1 and PROT_WRITE is 2.
abbrev pub prot_of : ℕ → ℕ
prot_of flags =
    let mode = bit_and flags o_accmode in
    if mode == o_rdwr then 3 else if mode == o_rdonly then 1 else if mode == o_wronly then 2 else 0

-- The offset in the page, and the address of the page.
unfoldable pub page_offset : ℕ → ℕ → ℕ
page_offset pgsize addr = bit_and addr (pgsize - 1)

unfoldable pub page_address : ℕ → ℕ → ℕ
page_address pgsize addr = bit_and addr (ulong_max - (pgsize - 1))

abbrev map_failed : ℕ → M (Option MmapInfo)
map_failed fd = do complain_errno (text "mmap(/dev/mem)"); close fd; pure none

abbrev check_mapping : ℕ → ℕ → ℕ → Option ℕ → M (Option MmapInfo)
check_mapping fd off length none = map_failed fd
check_mapping fd off length (some zero) = map_failed fd
check_mapping fd off length (some (suc p)) =
    pure (some (record { fd = fd; mem = suc p; off = off; length = length }))

-- `open_mapping`: the mapping, or none for -1. The length is computed as an unsigned int.
unfoldable pub open_mapping : ℕ → ℕ → ℕ → M (Option MmapInfo)
open_mapping addr flags bytes = do
  pgsize ← page_size
  let off = page_offset pgsize addr
  opened ← open_file (text "/dev/mem") flags
  elim opened [
    | none ↦ complain_errno (text "open(/dev/mem)") >> pure none
    | some fd ↦
        let length = (bytes + off) % 2 ^ 32 in
        mmap length (prot_of flags) fd (page_address pgsize addr) >>= check_mapping fd off length
  ]

-- `close_mapping`
unfoldable pub close_mapping : MmapInfo → M (Unit {0})
close_mapping m = munmap m.mem m.length >> close m.fd

-- `DO_READ` of `mmio_read_x`
abbrev read_mapped : MmapInfo → ℕ → M ℤ
read_mapped m bytes = do
  value ← load bytes (m.mem + m.off)
  print (text "0x" ++ (hex_padded (bytes * 2) value ++ text "\n"))
  pure (pos 0)

-- The bytes of a size that the commands have.
abbrev pub width_of : SizeParam → Option ℕ
width_of none = none
width_of (some bits) =
    if bits == 8
    then some 1
    else if bits == 16
    then some 2
    else if bits == 32
    then some 4
    else if bits == 64
    then some 8
    else none

-- `mmio_read_x`; `flags` are those of `mmf`.
unfoldable pub mmio_read_x : ℕ → SizeParam → List Text → M ℤ
mmio_read_x flags size argv = do
  s ← arg argv 1
  mapping ← open_mapping (strtoul 0 s).0 (bit_or o_rdonly flags) 8
  elim mapping [
    | none ↦ pure minus_one
    | some m ↦ do
      ret ← elim (width_of size) [
        | some bytes ↦ read_mapped m bytes
        | none ↦ complain (text "invalid mmio_read parameter\n") >> pure minus_one
      ]
      close_mapping m
      pure ret
  ]

-- `DO_WRITE` of `mmio_write_x`
abbrev write_mapped : MmapInfo → ℕ → ℕ → M ℤ
write_mapped m ldata bytes = store bytes (m.mem + m.off) (ldata % 256 ^ bytes) >> pure (pos 0)

-- `mmio_write_x`, which leaves `privdata` aside
unfoldable pub mmio_write_x : SizeParam → List Text → M ℤ
mmio_write_x size argv = do
  s ← arg argv 1
  t ← arg argv 2
  mapping ← open_mapping (strtoul 0 s).0 o_rdwr 8
  elim mapping [
    | none ↦ pure minus_one
    | some m ↦ do
      ret ← elim (width_of size) [
        | some bytes ↦ write_mapped m (strtoul 0 t).0 bytes
        | none ↦ complain (text "invalid mmio_write parameter\n") >> pure minus_one
      ]
      close_mapping m
      pure ret
  ]

-- The address at the start of a line.
abbrev pub start_line : ℕ → ℕ → M (Unit {0})
start_line fields_on_line desired_addr =
    if fields_on_line == 0
    then print (text "0x" ++ (hex_padded 16 desired_addr ++ text ":"))
    else pure tt

-- A load below the end of the mapping. Beyond it the behaviour is undefined. The system maps whole
-- pages, but a dump that leaves the length of its mapping goes on to leave the last page as well.
abbrev pub load_below : ℕ → ℕ → ℕ → M ℕ
load_below limit bytes addr = if ltb limit (addr + bytes) then fault else load bytes addr

-- A word of four bytes, or one of the bytes that are left over.
abbrev pub print_field : ℕ → ℕ → ℕ → M (Unit {0})
print_field limit bytes_printed addr = load_below limit bytes_printed addr >>= λ v.
    print (text " 0x" ++ hex_padded (bytes_printed * 2) v)

abbrev pub bytes_of_field : ℕ → ℕ
bytes_of_field bytes_left = if ltb bytes_left 4 then 1 else 4

-- The body of the `while` of `mmio_dump`, up to the newline.
abbrev pub dump_round : ℕ → ℕ → ℕ → ℕ → ℕ → M (Unit {0})
dump_round limit bytes_left addr desired_addr fields_on_line = do
  start_line fields_on_line desired_addr
  print_field limit (bytes_of_field bytes_left) addr
  if (fields_on_line + 1) % 4 == 0 then print (text "\n") else pure tt

abbrev pub end_dump : ℕ → M (Unit {0})
end_dump fields_on_line = if fields_on_line == 0 then pure tt else print (text "\n")

-- The `while` of `mmio_dump` and the newline behind it, on fuel; `limit` is the end of the mapping.
unfoldable pub dump_loop : ℕ → ℕ → ℕ → ℕ → ℕ → ℕ → M (Unit {0})
dump_loop limit zero bytes_left addr desired_addr fields_on_line = end_dump fields_on_line
dump_loop limit (suc fuel) zero addr desired_addr fields_on_line = end_dump fields_on_line
dump_loop limit (suc fuel) (suc left) addr desired_addr fields_on_line =
    let n = bytes_of_field (suc left) in
    dump_round limit (suc left) addr desired_addr fields_on_line
    >> dump_loop limit fuel (suc left - n) (addr + n) ((desired_addr + n) % 2 ^ 64)
        ((fields_on_line + 1) % 4)

-- The bytes at an address, one by one.
unfoldable pub load_bytes : ℕ → ℕ → ℕ → M (List ℕ)
load_bytes limit zero addr = pure []
load_bytes limit (suc n) addr = do
  b ← load_below limit 1 addr
  bs ← load_bytes limit n (addr + 1)
  pure (b ∷ bs)

-- `fwrite` and what follows; of no bytes at all it writes no element.
abbrev pub dump_binary : MmapInfo → ℕ → M ℤ
dump_binary m bytes_to_dump = do
  bytes ← load_bytes (m.mem + m.length) bytes_to_dump (m.mem + m.off)
  print bytes
  close_mapping m
  pure (if bytes_to_dump == 0 then minus_one else pos 0)

abbrev pub dump_text : MmapInfo → ℕ → ℕ → M ℤ
dump_text m bytes_to_dump desired_addr = do
  dump_loop (m.mem + m.length) bytes_to_dump bytes_to_dump (m.mem + m.off) desired_addr 0
  close_mapping m
  pure (pos 0)

-- `mmio_dump` behind the test of its last argument; `open_mapping` takes the number of bytes as an
-- unsigned int, while the loads go on over all of them.
unfoldable pub dump : ℕ → ℕ → ℕ → Bool → M ℤ
dump flags desired_addr bytes_to_dump write_binary = do
  mapping ← open_mapping desired_addr (bit_or o_rdonly flags) (bytes_to_dump % 2 ^ 32)
  elim mapping [
    | none ↦ pure minus_one
    | some m ↦
        if write_binary then dump_binary m bytes_to_dump else dump_text m bytes_to_dump desired_addr
  ]

-- `mmio_dump`
unfoldable pub mmio_dump : ℕ → SizeParam → List Text → M ℤ
mmio_dump flags size argv = do
  s ← arg argv 1
  t ← arg argv 2
  if length argv == 4
      then (do
        u ← arg argv 3
        if str_eq u (text "-b")
            then dump flags (strtoul 0 s).0 (strtoul 0 t).0 true
            else pure minus_one)
      else dump flags (strtoul 0 s).0 (strtoul 0 t).0 false

abbrev rd_params : PrereqParams
rd_params = fixed_args 2 (text "<addr>") 0

abbrev wr_params : PrereqParams
wr_params = fixed_args 3 (text "<addr> <value>") 0

abbrev pub dump_params : PrereqParams
dump_params = var_args 3 4 (text "<addr> <num_bytes> [-b]") 0

-- `MAKE_MMIO_RW_CMD_PAIR`, for the prefix and the flags of a group
abbrev pub rw_cmd_pair : Text → Text → ℕ → ℕ → List CmdInfo
rw_cmd_pair prefix digits size flags =
    make_cmd_with_params_size (prefix ++ (text "_read" ++ digits)) (mmio_read_x flags) rd_params
      size
    ∷ make_cmd_with_params_size (prefix ++ (text "_write" ++ digits)) mmio_write_x wr_params size
    ∷ []

abbrev pub cmds_of : Text → ℕ → List CmdInfo
cmds_of prefix flags =
    rw_cmd_pair prefix (text "8") 8 flags
    ++ (rw_cmd_pair prefix (text "16") 16 flags
        ++ (rw_cmd_pair prefix (text "32") 32 flags
            ++ (rw_cmd_pair prefix (text "64") 64 flags
                ++ (make_cmd_with_params (prefix ++ text "_dump") (mmio_dump flags) dump_params
                    ∷ []))))

-- `mmio_cmds`
unfoldable pub mmio_cmds : List CmdInfo
mmio_cmds = cmds_of (text "mmio") o_sync

-- `cacheable_mmio_cmds`
unfoldable pub cacheable_mmio_cmds : List CmdInfo
cacheable_mmio_cmds = cmds_of (text "mem") 0

-- `MMIO_group`
unfoldable pub mmio_group : CmdGroup
mmio_group = record {
  name = text "MMIO";
  description = some (text "commands to access uncacheable memory mapped address spaces");
  commands = mmio_cmds;
}

-- `MEM_group`
unfoldable pub mem_group : CmdGroup
mem_group = record {
  name = text "MEM";
  description = some (text "commands to access cacheable memory mapped address spaces");
  commands = cacheable_mmio_cmds;
}
