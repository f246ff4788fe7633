-- ===== src/Msr/Laws.antt =====
-- The commands on the model specific registers: what they leave open, and what a register keeps.
use iotools.Base.{ℕ, ◌≡◌, false, List, [], ◌∷◌, ◌++◌, some, arith, length}
use iotools.Base.Int.{ℤ, pos, is_minus_one, to_int, to_off}
use iotools.Libc.Text.{Text, text}
use iotools.Libc.Strtoul.{strtoul, strtol}
use iotools.Libc.Strtoul.Laws.{strtoul-lt}
use iotools.Libc.Print.{hex_padded}
use iotools.Kernel.{Kernel, Log, done, got, closed, printed}
use iotools.Kernel.Calls.{◌>>=◌}
use iotools.Kernel.Devices.{open_count, Keeps, IsStorage, after_write, at_offset, IsStorage-read}
use iotools.Command.{SizeParam}
use iotools.Platform.{native_bytes, native_word}
use iotools.Platform.Laws.{native_word-native_bytes, length-native_bytes}
use iotools.Msr.{open_and_seek, rd_msr, wr_msr, msr_device}

-- Whatever the system answers, rdmsr with a cpu and a register returns, and every descriptor is
-- left open or closed as it was before.
pub rd_msr-Keeps :
    (size : SizeParam) (name cpu msr : Text) (args : List Text) (k : Kernel) (log : Log) (fd : ℕ)
    → Keeps fd log (rd_msr size (name ∷ cpu ∷ msr ∷ args) k log)
unfolding rd_msr open_and_seek open_count
rd_msr-Keeps size name cpu msr args k log fd = ground arith

-- Whatever the system answers, wrmsr with a cpu, a register and a value returns, and every
-- descriptor is left open or closed as it was before.
pub wr_msr-Keeps :
    (size : SizeParam) (name cpu msr value : Text) (args : List Text) (k : Kernel) (log : Log)
    (fd : ℕ)
    → Keeps fd log (wr_msr size (name ∷ cpu ∷ msr ∷ value ∷ args) k log)
unfolding wr_msr open_and_seek open_count
wr_msr-Keeps size name cpu msr value args k log fd = ground arith

pub open_and_seek-at :
    (k : Kernel) (log : Log) (cpu : ℤ) (msr mode fd : ℕ)
    → IsStorage k (msr_device cpu) (to_off msr) fd
    → is_minus_one (to_off msr) ≡ false
    → open_and_seek cpu msr mode k log
      ≡ done (some fd) (at_offset (msr_device cpu) (to_off msr) fd mode log)
unfolding open_and_seek
open_and_seek-at k log cpu msr mode fd storage h = rw (storage.opens, storage.seeks, h)

-- What wrmsr stores in a register that keeps it, a later rdmsr of this register prints, as all 16
-- digits of the 64-bit value; both commands succeed.
pub wr_msr-rd_msr :
    (k : Kernel) (log : Log) (size : SizeParam) (cpu msr value : Text) (fd : ℕ)
    → let cpu_number = to_int (strtol 0 cpu) in
      let offset = to_off (strtoul 0 msr).0 in
      IsStorage k (msr_device cpu_number) offset fd
      → is_minus_one offset ≡ false
      → let line : Text = text "0x" ++ (hex_padded 16 (strtoul 0 value).0 ++ text "\n") in
        (log1 log2 : Log) × (wr_msr size (text "wrmsr" ∷ cpu ∷ msr ∷ value ∷ []) k log
          ≡ done (pos 0) log1)
        × (rd_msr size (text "rdmsr" ∷ cpu ∷ msr ∷ []) k log1 ≡ done (pos 0) (printed line ∷ log2))
wr_msr-rd_msr k log size cpu msr value fd storage h =
    let path = msr_device (to_int (strtol 0 cpu)) in
    let offset = to_off (strtoul 0 msr).0 in
    let v = (strtoul 0 value).0 in
    let bytes = native_bytes k.big_endian 8 v in
    let eight : length bytes ≡ 8 = length-native_bytes k.big_endian 8 v in
    let log1 = after_write path offset fd 1 bytes log in
    let came = IsStorage-read k path offset fd 1 0 bytes 8 log storage eight in
    let back : native_word k.big_endian bytes ≡ v =
      native_word-native_bytes k.big_endian 8 v (omega (arith, strtoul-lt 0 value)) in
    (
      log1,
      closed fd ∷ got fd 8 (some bytes) ∷ at_offset path offset fd 0 log1,
      unfold wr_msr in
          rw (
            open_and_seek-at k log (to_int (strtol 0 cpu)) (strtoul 0 msr).0 1 fd storage h,
            ◌>>=◌,
            storage.writes,
            eight,
          ),
      unfold rd_msr in
          rw (
            open_and_seek-at k log1 (to_int (strtol 0 cpu)) (strtoul 0 msr).0 0 fd storage h,
            ◌>>=◌,
            came,
            eight,
            back,
          ),
    )
