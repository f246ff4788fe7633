-- ===== src/Pci/Listing.antt =====
-- pci_rw.c: pci_list, from the names in the directories of sysfs and procfs, and the whole table.
pub mod Laws
use iotools.Base.{
  ℕ, Bool, true, false, List, [], ◌∷◌, ◌++◌, Option, none, some, if◌then◌else◌, length,
}
use iotools.Base.Int.{ℤ, pos, minus_one, is_negative, to_signed}
use iotools.Libc.Text.{Text, text}
use iotools.Libc.Print.{dec_int}
use iotools.Libc.Scan.{scan_hex, scan_char}
use iotools.Kernel.{M}
use iotools.Kernel.Calls.{pure, ◌>>=◌, ◌>>◌, for_each, print, complain_errno, list_dir}
use iotools.Command.{SizeParam, CmdInfo, CmdGroup, make_cmd}
use iotools.Pci.{pci_rw_cmds}

abbrev pub sysfs_base_dir : Text
sysfs_base_dir = text "/sys/bus/pci/devices"

abbrev pub procfs_base_dir : Text
procfs_base_dir = text "/proc/bus/pci"

-- "%02x.%x": the numbers of the device and of the function
unfoldable pub scan_function : Text → Option (ℕ × ℕ)
scan_function s = elim (scan_hex 2 s) [
  | none ↦ none
  | some (dev, s1) ↦ elim (scan_char b'.' s1) [
    | none ↦ none
    | some s2 ↦ elim (scan_hex (length s2) s2) [ none ↦ none | some (fun, s3) ↦ some (dev, fun) ]
  ]
]

-- "%02x:%02x.%x"
unfoldable pub scan_device : Text → Option (ℕ × (ℕ × ℕ))
scan_device s = elim (scan_hex 2 s) [
  | none ↦ none
  | some (bus, s1) ↦ elim (scan_char b':' s1) [
    | none ↦ none
    | some s2 ↦ elim (scan_function s2) [ none ↦ none | some r ↦ some (bus, r) ]
  ]
]

-- "%04x:%02x:%02x.%x": the numbers behind the segment, if all four conversions succeed
unfoldable pub scan_name : Text → Option (ℕ × (ℕ × ℕ))
scan_name s = elim (scan_hex 4 s) [
  | none ↦ none
  | some (seg, s1) ↦ elim (scan_char b':' s1) [ none ↦ none | some s2 ↦ scan_device s2 ]
]

-- printf("%d %d %d\n") of words that are stored in ints
unfoldable pub device_line : ℕ → ℕ → ℕ → Text
device_line bus dev fun =
    dec_int (to_signed 32 bus)
    ++ (text " "
        ++ (dec_int (to_signed 32 dev) ++ (text " " ++ (dec_int (to_signed 32 fun) ++ text "\n"))))

abbrev pub opendir_failed : Text → M ℤ
opendir_failed path = complain_errno (text "opendir(" ++ (path ++ text ")")) >> pure minus_one

-- The body of the `while` of `pci_list_sysfs`
abbrev pub sysfs_entry : Text × Bool → M (Unit {0})
sysfs_entry (d_name, is_dir) = elim (scan_name d_name) [
  | none ↦ pure tt
  | some (bus, (dev, fun)) ↦ print (device_line bus dev fun)
]

-- `pci_list_sysfs`
unfoldable pub pci_list_sysfs : M ℤ
pci_list_sysfs = do
  dir ← list_dir sysfs_base_dir
  elim dir [
    | none ↦ opendir_failed sysfs_base_dir
    | some entries ↦ for_each entries sysfs_entry >> pure (pos 0)
  ]

-- The body of the inner `while` of `pci_list_procfs`
abbrev pub procfs_entry : ℕ → Text × Bool → M (Unit {0})
procfs_entry bus (d_name, is_dir) = elim (scan_function d_name) [
  | none ↦ pure tt
  | some (dev, fun) ↦ print (device_line bus dev fun)
]

abbrev pub list_bus : ℕ → Text → M ℤ → M ℤ
list_bus bus path next = do
  subdir ← list_dir path
  elim subdir [
    | none ↦ opendir_failed path
    | some entries ↦ for_each entries (procfs_entry bus) >> next
  ]

-- The `while` of `pci_list_procfs`
unfoldable pub list_buses : List (Text × Bool) → M ℤ
list_buses [] = pure (pos 0)
list_buses ((d_name, is_dir) ∷ entries) =
    let rest = list_buses entries in
    elim (scan_hex 2 d_name) [
      | none ↦ rest
      | some (bus, s) ↦
          if is_dir then list_bus bus (procfs_base_dir ++ (text "/" ++ d_name)) rest else rest
    ]

-- `pci_list_procfs`
unfoldable pub pci_list_procfs : M ℤ
unfolding list_buses
pci_list_procfs = do
  dir ← list_dir procfs_base_dir
  elim dir [ none ↦ opendir_failed procfs_base_dir | some entries ↦ list_buses entries ]

-- `pci_list`
unfoldable pub pci_list : SizeParam → List Text → M ℤ
unfolding pci_list_sysfs pci_list_procfs
pci_list size argv = do ret ← pci_list_sysfs; if is_negative ret then pci_list_procfs else pure ret

-- `pci_cmds`
unfoldable pub pci_cmds : List CmdInfo
unfolding pci_rw_cmds
pci_cmds = pci_rw_cmds ++ (make_cmd (text "pci_list") pci_list ∷ [])

-- `PCI_group`
unfoldable pub pci_group : CmdGroup
unfolding pci_cmds
pci_group = record {
  name = text "PCI";
  description = some (text "commands to access PCI registers");
  commands = pci_cmds;
}
