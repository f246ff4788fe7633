-- ===== src/Scom/Laws.antt =====
-- The SCOM commands: which offset stands for an address, and what a register keeps.
use iotools.Base.{
  ℕ, ◌+◌, ◌-◌, ◌*◌, ◌/◌, ◌%◌, ◌^◌, ◌<◌, bit_and, ◌≡◌, sym, ap, ◌∙◌, false, List, [], ◌∷◌, ◌++◌,
  some, arith, ◌==◌, length,
}
use iotools.Base.Int.{pos, is_minus_one, to_unsigned, to_off}
use iotools.Base.Bits.{bit}
use iotools.Base.Bits.Laws.{bit_or-add-bit_and}
use iotools.Base.Bits.Masks.{bit_and-pow-zero}
use iotools.Base.Bits.Shifts.{bit-div_pow, bit_and-low_mask}
use iotools.Libc.Text.{Text, text}
use iotools.Libc.Strtoul.{strtoul, strtol}
use iotools.Libc.Strtoul.Laws.{strtoul-lt}
use iotools.Libc.Print.{hex_padded}
use iotools.Kernel.{Kernel, Log, done, got, closed, printed}
use iotools.Kernel.Calls.{◌>>=◌}
use iotools.Kernel.Devices.{open_count, Keeps, IsStorage, after_write, at_offset, IsStorage-read}
use iotools.Command.{SizeParam}
use iotools.Platform.{native_bytes, native_word}
use iotools.Platform.Laws.{native_word-native_bytes, length-native_bytes}
use iotools.Scom.{scom_offset, scom_device, open_and_seek, rd_scom, wr_scom}

-- Whatever the system answers, getscom with a chip and an address returns, and every descriptor is
-- left open or closed as it was before.
pub rd_scom-Keeps :
    (size : SizeParam) (name chip scom : Text) (args : List Text) (k : Kernel) (log : Log) (fd : ℕ)
    → Keeps fd log (rd_scom size (name ∷ chip ∷ scom ∷ args) k log)
unfolding rd_scom open_and_seek open_count
rd_scom-Keeps size name chip scom args k log fd = ground arith

-- Whatever the system answers, putscom with a chip, an address and a value returns, and every
-- descriptor is left open or closed as it was before.
pub wr_scom-Keeps :
    (size : SizeParam) (name chip scom value : Text) (args : List Text) (k : Kernel) (log : Log)
    (fd : ℕ)
    → Keeps fd log (wr_scom size (name ∷ chip ∷ scom ∷ value ∷ args) k log)
unfolding wr_scom open_and_seek open_count
wr_scom-Keeps size name chip scom value args k log fd = ground arith

open_and_seek-at :
    (k : Kernel) (log : Log) (chip scom mode fd : ℕ)
    → IsStorage k (scom_device chip) (to_off (scom_offset scom)) fd
    → is_minus_one (to_off (scom_offset scom)) ≡ false
    → open_and_seek chip scom mode k log
      ≡ done (some fd) (at_offset (scom_device chip) (to_off (scom_offset scom)) fd mode log)
unfolding open_and_seek
open_and_seek-at k log chip scom mode fd storage h = rw (storage.opens, storage.seeks, h)

-- What putscom stores in a register that keeps it, a later getscom of this register prints, as all 16
-- digits of the 64-bit value; both commands succeed.
pub wr_scom-rd_scom :
    (k : Kernel) (log : Log) (size : SizeParam) (chip scom value : Text) (fd : ℕ)
    → let number = to_unsigned 32 (strtol 0 chip) in
      let offset = to_off (scom_offset (strtoul 0 scom).0) in
      IsStorage k (scom_device number) offset fd
      → is_minus_one offset ≡ false
      → let line : Text = text "0x" ++ (hex_padded 16 (strtoul 0 value).0 ++ text "\n") in
        (log1 log2 : Log) × (wr_scom size (text "putscom" ∷ chip ∷ scom ∷ value ∷ []) k log
          ≡ done (pos 0) log1)
        × (rd_scom size (text "getscom" ∷ chip ∷ scom ∷ []) k log1
            ≡ done (pos 0) (printed line ∷ log2))
wr_scom-rd_scom k log size chip scom value fd storage h =
    let number = to_unsigned 32 (strtol 0 chip) in
    let a = (strtoul 0 scom).0 in
    let path = scom_device number in
    let offset = to_off (scom_offset a) in
    let v = (strtoul 0 value).0 in
    let bytes = native_bytes k.big_endian 8 v in
    let eight : length bytes ≡ 8 = length-native_bytes k.big_endian 8 v in
    let log1 = after_write path offset fd 1 bytes log in
    let came = IsStorage-read k path offset fd 1 0 bytes 8 log storage eight in
    let back : native_word k.big_endian bytes ≡ v =
      native_word-native_bytes k.big_endian 8 v (omega (arith, strtoul-lt 0 value)) in
    (
      log1,
      closed fd ∷ got fd 8 (some bytes) ∷ at_offset path offset fd 0 log1,
      unfold wr_scom in
          rw (open_and_seek-at k log number a 1 fd storage h, ◌>>=◌, storage.writes, eight),
      unfold rd_scom in
          rw (open_and_seek-at k log1 number a 0 fd storage h, ◌>>=◌, came, eight, back),
    )

high_digit : (x i d : ℕ) → x / 2 ^ i ≡ d → bit x i ≡ d % 2
high_digit x i d e =
    let f : i + 0 ≡ i = omega arith in (rw f at (sym (bit-div_pow i x 0))) ∙ ap (λ (t : ℕ). t % 2) e

high_digit_clear : (x i : ℕ) → x / 2 ^ i ≡ 0 → bit_and x (2 ^ i) ≡ 0
high_digit_clear x i e = (bit_and-pow-zero x i).1 (high_digit x i 0 e)

high_digit_set : (x i : ℕ) → x / 2 ^ i ≡ 1 → (bit_and x (2 ^ i) == 0) ≡ false
high_digit_set x i e =
    let one : bit x i ≡ 1 = high_digit x i 1 e in ground (arith, (bit_and-pow-zero x i).0)

-- A direct address of up to 59 bits stands at 8 times its value, and an indirect one, with bit 63, at
-- 2 ^ 62 more, which is still below the sign bit of the offset.
pub scom_offset_lem :
    (a : ℕ)
    → a < 2 ^ 59
    → (scom_offset a ≡ 8 * a)
      × (scom_offset (2 ^ 63 + a) ≡ 2 ^ 62 + 8 * a)
      × (scom_offset (2 ^ 63 + a) < 2 ^ 63)
unfolding scom_offset
scom_offset_lem a h =
    let low : bit_and a (2 ^ 63 - 1) ≡ a = bit_and-low_mask 63 a ∙ omega arith in
    let low' : bit_and (2 ^ 63 + a) (2 ^ 63 - 1) ≡ a =
      bit_and-low_mask 63 (2 ^ 63 + a) ∙ omega arith in
    let clear : bit_and a (2 ^ 63) ≡ 0 = high_digit_clear a 63 (omega arith) in
    let indirect : (bit_and (2 ^ 63 + a) (2 ^ 63) == 0) ≡ false =
      high_digit_set (2 ^ 63 + a) 63 (omega arith) in
    let apart : bit_and (a * 2 ^ 3) (2 ^ 62) ≡ 0 = high_digit_clear (a * 2 ^ 3) 62 (omega arith) in
    let sum = bit_or-add-bit_and 63 (a * 2 ^ 3) (2 ^ 62) (omega arith) (omega arith) in
    let whole : a * 2 ^ 3 % 2 ^ 64 ≡ a * 2 ^ 3 = omega arith in
    (
      rw (low, clear, whole) (omega arith),
      rw (low', indirect, whole) (omega arith),
      rw (low', indirect, whole) (omega arith),
    )
