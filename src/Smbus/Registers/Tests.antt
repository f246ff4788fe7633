-- ===== src/Smbus/Registers/Tests.antt =====
-- A device that keeps its registers, and the round trip on it.
use iotools.Base.{ℕ, ◌≡◌, refl, true, List, [], ◌∷◌, Option, none, some, if◌then◌else◌, arith}
use iotools.Base.Int.{ℤ, pos}
use iotools.Libc.Text.{text}
use iotools.Libc.Print.{upper_hex_padded}
use iotools.Libc.Strtoul.{strtoul}
use iotools.Kernel.{Kernel, Log, done, closed, printed}
use iotools.Kernel.Sample.{failing}
use iotools.Smbus.{size_32}
use iotools.Smbus.Transfer.{smbus_read_op, smbus_write_op}
use iotools.Smbus.Commands.{smbus_read, smbus_write, make_smbus_op}
use iotools.Smbus.Registers.{IsRegisters, is_store, last_stored}
use iotools.Smbus.Registers.Laws.IsNumber.{four}
use iotools.Smbus.Registers.RoundTrip.{smbus_write-smbus_read}

abbrev from_some : Option (ℤ × List ℕ) → ℤ × List ℕ
from_some none = (pos 0, [])
from_some (some r) = r

abbrev device : Kernel
device = record failing {
  open_file = λ log path flags. some 3;
  slave = λ log fd forced address. true;
  i2c = λ log fd call. if is_store call then (pos 0, []) else from_some (last_stored fd call log);
}

device-IsRegisters : (i2c_bus address : ℕ) → IsRegisters device i2c_bus address 3
device-IsRegisters i2c_bus address = record {
  opens = λ log. refl;
  answers = λ log forced. refl;
  stores = λ log call e. rw e refl;
  gives = λ log call r e came. rw (e, came) refl;
}

smbus_write-smbus_read_example :
    (log1 log2 : Log) × (smbus_write
        (make_smbus_op size_32 smbus_write_op)
        none
        (text "smbus_write32" ∷ text "1" ∷ text "0x50" ∷ text "4" ∷ text "0xdeadbeef" ∷ [])
        device
        []
      ≡ done (pos 0) (closed 3 ∷ log1))
    × (smbus_read
          (make_smbus_op size_32 smbus_read_op)
          none
          (text "smbus_read32" ∷ text "1" ∷ text "0x50" ∷ text "4" ∷ [])
          device
          (closed 3 ∷ log1)
        ≡ done (pos 0) (closed 3 ∷ printed (text "0xDEADBEEF\n") ∷ log2))
unfolding strtoul upper_hex_padded
smbus_write-smbus_read_example =
    smbus_write-smbus_read four 1 0x50 4 0xdeadbeef 3 (text "smbus_write32") (text "smbus_read32")
      (text "1") (text "0x50") (text "4") (text "0xdeadbeef") device [] (device-IsRegisters 1 0x50)
      refl (omega arith) refl (omega arith) refl (omega arith) refl (omega arith)
