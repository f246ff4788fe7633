-- ===== src/Pci/Laws.antt =====
-- The config files hold little-endian words, whatever the machine; and what stays open on an error.
use iotools.Base.{
  ℕ, ◌*◌, ◌%◌, ◌^◌, ◌<◌, ◌≡◌, ◌∙◌, Bool, true, List, [], ◌∷◌, ◌++◌, Option, none, some, arith, ◌==◌,
  if◌then◌else◌, length,
}
use mathlib.Core.Path.{subst}
use native.Mathlib.Nat.{mod-lt, one-le-pow}
use iotools.Base.Int.{pos, to_unsigned}
use iotools.Libc.Text.{Text, text}
use iotools.Libc.Strtoul.{strtoul, strtol}
use iotools.Libc.Print.{hex_padded}
use iotools.Kernel.{Kernel, Log, done, opened, got, closed, printed}
use iotools.Kernel.Devices.{open_count, Gains, IsStorage, after_write, at_offset, IsStorage-read}
use iotools.Command.{SizeParam}
use iotools.Platform.{le_to_host, native_word, le_bytes, le_word}
use iotools.Platform.Laws.{
  le_to_host-native_word, native_bytes-host_to_le, IsBytes-le_bytes, length-le_bytes,
  le_word-le_bytes,
}
use iotools.Pci.{PciDevice, sysfs_file, width_of, parse_args, open_device, pci_read_x, pci_write_x}

-- The device and the offset that bus, device, function and register name on the command line.
abbrev pub device_of : Text → Text → Text → PciDevice
device_of bus dev func = record {
  segment = 0;
  bus = to_unsigned 32 (strtol 0 bus);
  device = (strtoul 0 dev).0 % 2 ^ 32;
  function = (strtoul 0 func).0 % 2 ^ 32;
}

abbrev pub offset_of : Text → ℕ
offset_of reg = (strtoul 0 reg).0 % 2 ^ 32

-- The word of little-endian bytes is read on every machine.
le_to_host-le_bytes :
    (big : Bool) (n w : ℕ) → w < 256 ^ n → le_to_host big n (native_word big (le_bytes n w)) ≡ w
le_to_host-le_bytes big n w h =
    let e = le_to_host-native_word big (le_bytes n w) (IsBytes-le_bytes n w) in
    subst (λ (m : ℕ). le_to_host big m (native_word big (le_bytes n w)) ≡ le_word (le_bytes n w))
      (length-le_bytes n w) e
    ∙ le_word-le_bytes n w h

-- On a machine of either byte order, pci_write puts the low bytes of the value into the config file,
-- the lowest first, at the offset of the register; and a later pci_read of the same register prints
-- this value, with two digits for every byte. Both commands succeed, if the config file under sysfs
-- can be opened and keeps what is written.
pub pci_write_x-pci_read_x :
    (k : Kernel) (log : Log) (size : SizeParam) (n : ℕ) (bus dev func reg value : Text) (fd : ℕ)
    → width_of size ≡ some n
    → let file = sysfs_file (device_of bus dev func) in
      let offset = pos (offset_of reg) in
      IsStorage k file offset fd
      → let v = (strtoul 0 value).0 % 256 ^ n in
        let log1 = after_write file offset fd 1 (le_bytes n v) log in
        (log2 : Log) × (pci_write_x size
            (text "pci_write" ∷ bus ∷ dev ∷ func ∷ reg ∷ value ∷ [])
            k
            log
          ≡ done (pos 0) log1)
        × (pci_read_x size (text "pci_read" ∷ bus ∷ dev ∷ func ∷ reg ∷ []) k log1
            ≡ done
                (pos 0)
                (closed fd ∷ printed (text "0x" ++ (hex_padded (n * 2) v ++ text "\n")) ∷ log2))
pci_write_x-pci_read_x k log size n bus dev func reg value fd width storage =
    let file = sysfs_file (device_of bus dev func) in
    let offset = pos (offset_of reg) in
    let small : (strtoul 0 value).0 % 256 ^ n < 256 ^ n =
      mod-lt (strtoul 0 value).0 (one-le-pow n 256 (omega arith)) in
    let v = (strtoul 0 value).0 % 256 ^ n in
    let bytes = le_bytes n v in
    let long = length-le_bytes n v in
    let same : (n == n) ≡ true = ground arith in
    let log1 = after_write file offset fd 1 bytes log in
    let came = IsStorage-read k file offset fd 1 0 bytes n log storage long in
    let back = le_to_host-le_bytes k.big_endian n v small in
    (
      got fd n (some bytes) ∷ at_offset file offset fd 0 log1,
      (unfold pci_write_x in
          unfold parse_args in
          unfold open_device in
          rw (
            storage.opens,
            storage.seeks,
            width,
            native_bytes-host_to_le k.big_endian n v,
            storage.writes,
            long,
            same,
          )),
      (unfold pci_read_x in
          unfold parse_args in
          unfold open_device in rw (storage.opens, storage.seeks, width, came, long, same, back)),
    )

-- What a read() of `n` bytes leaves open.
abbrev pub left_open : ℕ → Option (List ℕ) → ℕ
left_open n none = 1
left_open n (some bytes) = if length bytes == n then 0 else 1

-- When the config file was opened and the offset set, pci_read closes the descriptor if all bytes of
-- the register came; if read() failed or came short, the descriptor is open once more than before.
pub pci_read_x_leaks :
    (k : Kernel) (log : Log) (size : SizeParam) (n : ℕ) (name bus dev func reg : Text) (fd : ℕ)
    → width_of size ≡ some n
    → let file = sysfs_file (device_of bus dev func) in
      let offset = pos (offset_of reg) in
      k.open_file log file 0 ≡ some fd
      → k.lseek (opened file 0 (some fd) ∷ log) fd offset ≡ offset
      → Gains fd
          (left_open n (k.read (at_offset file offset fd 0 log) fd n))
          log
          (pci_read_x size (name ∷ bus ∷ dev ∷ func ∷ reg ∷ []) k log)
unfolding pci_read_x parse_args open_device open_count
pci_read_x_leaks k log size n name bus dev func reg fd width opens seeks =
    rw (opens, seeks, width) (ground arith)
