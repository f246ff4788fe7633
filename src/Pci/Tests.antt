-- ===== src/Pci/Tests.antt =====
-- Runs of the PCI commands, and the theorems at concrete data.
use iotools.Base.{arith, List, ◌≡◌, refl, [], ◌∷◌, none, some}
use iotools.Base.Int.{pos, minus_one}
use iotools.Libc.Text.{Text, text}
use iotools.Libc.Print.{hex_padded}
use iotools.Libc.Strtoul.{strtoul, strtol}
use iotools.Kernel.{Kernel, Log, done, printed, complained, opened, closed}
use iotools.Kernel.Sample.{failing, disk, disk-IsStorage}
use iotools.Kernel.Devices.{output, Gains, after_write}
use iotools.Pci.{pci_read_x, pci_write_x, parse_args, open_device, sysfs_file}
use iotools.Pci.Listing.{pci_list, device_line}
use iotools.Pci.Listing.Laws.{Entry, entries_of, lines_of, pci_list_lem}
use iotools.Pci.Listing.Laws.Entry.{device, itself, above}
use iotools.Libc.Print.{dec_int}
use iotools.Pci.Laws.{device_of, pci_write_x-pci_read_x, pci_read_x_leaks}

-- Both files are tried, with the segment in their names.
no_device :
    pci_read_x
      (some 8)
      (text "pci_read8" ∷ text "1" ∷ text "0" ∷ text "2" ∷ text "3" ∷ text "4" ∷ [])
      failing
      []
    ≡ done minus_one (
        complained (
          text
            "Unable to open file to access PCI device '0001:00:02.3': No such file or directory\n")
        ∷ opened (text "/proc/bus/pci/0001:00/02.3") 0 none
        ∷ opened (text "/sys/bus/pci/devices/0001:00:02.3/config") 0 none
        ∷ [])
unfolding pci_read_x parse_args open_device strtoul strtol hex_padded
no_device = refl

pci_write_x-pci_read_x_example :
    let file : Text = text "/sys/bus/pci/devices/0000:00:1f.3/config" in
    let log1 = after_write file (pos 0x40) 3 1 (0x34 ∷ 0x12 ∷ []) [] in
    (log2 : Log) × (pci_write_x
        (some 16)
        (text "pci_write" ∷ text "0" ∷ text "0x1f" ∷ text "3" ∷ text "0x40" ∷ text "0x51234" ∷ [])
        disk
        []
      ≡ done (pos 0) log1)
    × (pci_read_x
          (some 16)
          (text "pci_read" ∷ text "0" ∷ text "0x1f" ∷ text "3" ∷ text "0x40" ∷ [])
          disk
          log1
        ≡ done (pos 0) (closed 3 ∷ printed (text "0x1234\n") ∷ log2))
unfolding strtoul strtol hex_padded
pci_write_x-pci_read_x_example =
    pci_write_x-pci_read_x disk [] (some 16) 2 (text "0") (text "0x1f") (text "3") (text "0x40")
      (text "0x51234") 3 refl
      (disk-IsStorage (sysfs_file (device_of (text "0") (text "0x1f") (text "3"))) (pos 0x40))

pci_read_x_leaks_example : Gains 3 1 [] (
    pci_read_x
      (some 16)
      (text "pci_read16" ∷ text "0" ∷ text "0x1f" ∷ text "3" ∷ text "0x40" ∷ [])
      (record disk { read = λ log fd count. none })
      [])
pci_read_x_leaks_example =
    pci_read_x_leaks (record disk { read = λ log fd count. none }) [] (some 16) 2
      (text "pci_read16") (text "0") (text "0x1f") (text "3") (text "0x40") 3 refl refl refl

abbrev two_devices : List Entry
two_devices = itself ∷ device 0 31 3 ∷ above ∷ device 255 0 0 ∷ []

abbrev listing : Kernel
listing = record failing { list_dir = λ log path. some (entries_of two_devices) }

pci_list_lem_example :
    (log' : Log) × (pci_list none (text "pci_list" ∷ []) listing [] ≡ done (pos 0) log')
    × (output log' ≡ text "0 31 3\n255 0 0\n")
unfolding output lines_of device_line dec_int
pci_list_lem_example =
    pci_list_lem two_devices none (text "pci_list" ∷ []) listing []
      (
        tt,
        (
          (omega arith, (omega arith, omega arith)),
          (tt, ((omega arith, (omega arith, omega arith)), tt)),
        ),
      )
      refl
