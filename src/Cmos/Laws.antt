-- ===== src/Cmos/Laws.antt =====
-- The commands on /dev/nvram: what they do to it, and what they leave open.
use iotools.Base.{ℕ, ◌-◌, ◌%◌, ◌^◌, ◌≤◌, ◌≡◌, refl, false, List, [], ◌∷◌, ◌++◌, some, arith, le→ltb}
use iotools.Base.Int.{pos, is_negative, to_off}
use iotools.Libc.Text.{Text, text}
use iotools.Libc.Strtoul.{strtoul}
use iotools.Libc.Print.{hex_padded}
use iotools.Kernel.{Kernel, Log, done, got, closed, printed}
use iotools.Kernel.Devices.{open_count, Keeps, IsStorage, after_write, at_offset, IsStorage-read}
use iotools.Command.{SizeParam}
use iotools.Cmos.{cmos_rd, cmos_wr, nvram}

-- Whatever the system answers, cmos_read with an index returns, and every descriptor is left open
-- or closed as it was before.
pub cmos_rd-Keeps :
    (size : SizeParam) (name index : Text) (args : List Text) (k : Kernel) (log : Log) (fd : ℕ)
    → Keeps fd log (cmos_rd size (name ∷ index ∷ args) k log)
unfolding cmos_rd open_count
cmos_rd-Keeps size name index args k log fd = ground arith

-- Whatever the system answers, cmos_write with an index and a value returns, and every descriptor
-- is left open or closed as it was before.
pub cmos_wr-Keeps :
    (size : SizeParam) (name index value : Text) (args : List Text) (k : Kernel) (log : Log)
    (fd : ℕ)
    → Keeps fd log (cmos_wr size (name ∷ index ∷ value ∷ args) k log)
unfolding cmos_wr open_count
cmos_wr-Keeps size name index value args k log fd = ground arith

-- What cmos_write stores in an nvram that keeps it, a later cmos_read of the same index prints: the
-- low 8 bits of the value, as two digits. Both commands succeed, at every index behind the clock's.
pub cmos_wr-cmos_rd :
    (k : Kernel) (log : Log) (size : SizeParam) (index value : Text) (fd : ℕ)
    → let i = (strtoul 0 index).0 in
      let offset = to_off (i - 14) in
      IsStorage k nvram offset fd
      → 14 ≤ i
      → is_negative offset ≡ false
      → let line : Text = text "0x" ++ (hex_padded 2 ((strtoul 0 value).0 % 2 ^ 8) ++ text "\n") in
        (log1 log2 : Log) × (cmos_wr size (text "cmos_write" ∷ index ∷ value ∷ []) k log
          ≡ done (pos 0) log1)
        × (cmos_rd size (text "cmos_read" ∷ index ∷ []) k log1 ≡ done (pos 0) (printed line ∷ log2))
cmos_wr-cmos_rd k log size index value fd storage low h =
    let offset = to_off ((strtoul 0 index).0 - 14) in
    let bytes = (strtoul 0 value).0 % 2 ^ 8 ∷ [] in
    let log1 = after_write nvram offset fd 1 bytes log in
    let came = IsStorage-read k nvram offset fd 1 0 bytes 1 log storage refl in
    let behind = le→ltb (strtoul 0 index).0 14 low in
    (
      log1,
      closed fd ∷ got fd 1 (some bytes) ∷ at_offset nvram offset fd 0 log1,
      unfold cmos_wr in rw (behind, storage.opens, storage.seeks, h, storage.writes),
      unfold cmos_rd in rw (behind, storage.opens, storage.seeks, h, came),
    )
