-- ===== src/Smbus/Tests.antt =====
-- Runs of the SMBus commands, and the theorems at concrete data.
use iotools.Base.{ℕ, ◌≡◌, ◌≤◌, refl, true, false, List, [], ◌∷◌, ◌++◌, none, some, arith}
use iotools.Base.Int.{pos}
use iotools.Libc.Text.{Text, text, str_eq}
use iotools.Libc.Print.{dec, upper_hex_padded}
use iotools.Libc.Strtoul.{strtoul}
use iotools.Kernel.{Kernel, Log, done, opened, closed, addressed, printed}
use iotools.Kernel.Sample.{failing}
use iotools.Kernel.Devices.{Gains, output}
use iotools.Platform.{overwrite}
use iotools.Smbus.{SmbusOpParams, size_8, size_block, block_max, zeroed}
use iotools.Smbus.Parse.{
  parse_block, parse_pairs, store_pairs, parse_uint8_hex, store_byte, parse_io_width,
  parse_uint8_base,
}
use iotools.Smbus.Parse.Bytes.{Parses}
use iotools.Smbus.Parse.Laws.{IsParsed, block_len, parse_io_width-Parses}
use iotools.Smbus.Transfer.{print_read_data, smbus_read_op}
use iotools.Smbus.Blocks.{print_read_data-parse_io_width}
use iotools.Smbus.Commands.{no_params, smbus_read, smbus_prologue, smbus_writeread, make_smbus_op}
use iotools.Smbus.Commands.WriteRead.{writeread, is_bad_count, smbus_writeread_leaks}

-- A bus on which every call succeeds, and answers 7.
abbrev bus : Kernel
bus = record failing {
  open_file = λ log path flags. some 3;
  slave = λ log fd forced address. true;
  i2c = λ log fd call. (pos 7, []);
}

read_succeeds :
    (log : Log) × (smbus_read
        (make_smbus_op size_8 smbus_read_op)
        none
        (text "smbus_read8" ∷ text "0" ∷ text "0x50" ∷ text "4" ∷ [])
        bus
        []
      ≡ done (pos 0) (closed 3 ∷ printed (text "0x07\n") ∷ log))
unfolding smbus_read smbus_prologue smbus_read_op parse_uint8_base strtoul dec upper_hex_padded
read_succeeds = (_, refl)

parse_io_width-Parses_example :
    Parses
      (λ params'. IsParsed no_params params' × (block_len size_block params' ≤ block_max))
      []
      (parse_io_width (text "0x01ff") size_block no_params failing [])
parse_io_width-Parses_example =
    parse_io_width-Parses (text "0x01ff") size_block no_params failing [] (omega arith)

abbrev three_bytes : List ℕ
three_bytes = 0 ∷ 0xab ∷ 0xff ∷ []

print_read_data-parse_io_width_example :
    (log' : Log) × (s : Text) × (print_read_data size_block
        (pos 3)
        (overwrite three_bytes zeroed)
        failing
        []
      ≡ done tt log')
    × (output log' ≡ s ++ text "\n")
    × (parse_io_width s size_block no_params failing log'
        ≡ done (some (record no_params { memory = overwrite three_bytes zeroed; len = 3 })) log')
unfolding output
print_read_data-parse_io_width_example =
    print_read_data-parse_io_width three_bytes no_params failing []
      (omega arith, (omega arith, (omega arith, tt))) (omega arith) (omega arith)

abbrev opened_params : SmbusOpParams
opened_params = record no_params { fd = 3; address = 0x50 }

abbrev opened_log : Log
opened_log = addressed 3 false 0x50 true ∷ opened (text "/dev/i2c-0") 2 (some 3) ∷ []

abbrev one_byte_params : SmbusOpParams
one_byte_params = record opened_params { memory = overwrite (1 ∷ []) zeroed; len = 1 }

smbus_writeread_leaks_example : Gains 3 1 [] (
    smbus_writeread writeread none
      (text "smbus_writeread" ∷ text "0" ∷ text "0x50" ∷ text "01" ∷ text "33" ∷ [])
      bus
      [])
unfolding is_bad_count smbus_prologue parse_io_width parse_uint8_base strtoul dec str_eq parse_block
    parse_pairs store_pairs parse_uint8_hex store_byte
smbus_writeread_leaks_example =
    smbus_writeread_leaks none (text "smbus_writeread") (text "0") (text "0x50") (text "01")
      (text "33") [] opened_params one_byte_params bus [] opened_log opened_log 3 refl refl
