-- ===== src/Pci/Listing/Laws.antt =====
-- pci_list prints the numbers of the devices whose names it finds.
use cubical.Cubical.Data.Sigma.Properties.{≡-×}
use iotools.Base.{
  ℕ, ◌/◌, ◌%◌, ◌<◌, ◌≡◌, refl, sym, ◌∙◌, ap, Bool, true, false, not, ◌&&◌, List, [], ◌∷◌, ◌++◌,
  Option, none, some, arith, ◌==◌, length, All, ==_iff, append_assoc, append-nil,
}
use iotools.Base.Table.{passes, passes_lem, both_true}
use iotools.Base.Int.{pos}
use iotools.Libc.Text.{Text, text, str_eq, str_eq_iff}
use iotools.Libc.Print.{hex, hex_padded, digit_char}
use iotools.Libc.Strtoul.{is_space, skip_space}
use iotools.Libc.Scan.{scan_field, scan_hex, scan_char}
use iotools.Kernel.{Kernel, Log, done, printed, listed}
use iotools.Kernel.Calls.{◌>>=◌, for_each}
use iotools.Kernel.Devices.{output}
use iotools.Pci.{with_segment}
use iotools.Pci.Listing.{
  pci_list, sysfs_base_dir, sysfs_entry, SizeParam, device_line, scan_function, scan_device,
  scan_name,
}

abbrev lower_pair : ℕ → Text
lower_pair b = digit_char false (b / 16) ∷ digit_char false (b % 16) ∷ []

-- The conversion gives the number and leaves nothing.
abbrev is_number : ℕ → Option (ℕ × Text) → Bool
is_number b none = false
is_number b (some (v, end)) = v == b && str_eq end []

reads_byte : ℕ → Bool
reads_byte b =
    str_eq (hex_padded 2 b) (lower_pair b)
    && (not (is_space (digit_char false (b / 16))) && is_number b (scan_field (lower_pair b)))

reads_byte_all : passes reads_byte 256 ≡ true
unfolding passes reads_byte str_eq hex_padded digit_char is_space scan_field
reads_byte_all = refl

is_number-some : (b : ℕ) (r : Option (ℕ × Text)) → is_number b r ≡ true → r ≡ some (b, [])
is_number-some b none h = absurd (cc)
is_number-some b (some (v, end)) h =
    let both = both_true (v == b) (str_eq end []) h in
    ap some (≡-× ((==_iff v b).0 both.0) ((str_eq_iff end []).0 both.1))

-- Two characters are read alike whatever follows them.
scan_hex-behind :
    (x y b : ℕ) (rest : Text)
    → is_space x ≡ false
    → scan_field (x ∷ y ∷ []) ≡ some (b, [])
    → scan_hex 2 (x ∷ y ∷ rest) ≡ some (b, rest)
scan_hex-behind x y b rest h e =
    let stays : skip_space (x ∷ y ∷ rest) ≡ x ∷ y ∷ rest = unfold skip_space in (rw h refl) in
    unfold scan_hex in rw (stays, e) refl

scan_hex-byte :
    (b : ℕ) (rest : Text) → b < 256 → scan_hex 2 (hex_padded 2 b ++ rest) ≡ some (b, rest)
scan_hex-byte b rest h =
    let passed : reads_byte b ≡ true = passes_lem reads_byte 256 b reads_byte_all h in
    let (spelled, others) =
      both_true (str_eq (hex_padded 2 b) (lower_pair b))
        (not (is_space (digit_char false (b / 16))) && is_number b (scan_field (lower_pair b)))
        (unfold reads_byte in passed) in
    let (solid, number) =
      both_true (not (is_space (digit_char false (b / 16))))
        (is_number b (scan_field (lower_pair b))) others in
    let spelling : hex_padded 2 b ≡ lower_pair b =
      (str_eq_iff (hex_padded 2 b) (lower_pair b)).0 spelled in
    rw spelling (
      scan_hex-behind (digit_char false (b / 16)) (digit_char false (b % 16)) b rest (ground arith)
        (is_number-some b (scan_field (lower_pair b)) number))

reads_function : ℕ → Bool
reads_function f = is_number f (scan_hex (length (hex f)) (hex f))

reads_function_all : passes reads_function 16 ≡ true
unfolding passes reads_function str_eq hex digit_char scan_hex
reads_function_all = refl

scan_hex-function : (f : ℕ) → f < 16 → scan_hex (length (hex f)) (hex f) ≡ some (f, [])
scan_hex-function f h =
    is_number-some f (scan_hex (length (hex f)) (hex f))
      (unfold reads_function in passes_lem reads_function 16 f reads_function_all h)

-- The device file in the first segment, as open_device names it.
abbrev pub name_of : ℕ × (ℕ × ℕ) → Text
name_of (bus, (dev, fun)) =
    with_segment (text ":") (record { segment = 0; bus = bus; device = dev; function = fun })

zero_segment : hex_padded 4 0 ≡ text "0000"
unfolding hex_padded
zero_segment = refl

-- The formats, by what their conversions read.
scan_function-reads :
    (s rest end : Text) (dev fun : ℕ)
    → scan_hex 2 s ≡ some (dev, b'.' ∷ rest)
    → scan_hex (length rest) rest ≡ some (fun, end)
    → scan_function s ≡ some (dev, fun)
unfolding scan_function scan_char
scan_function-reads s rest end dev fun e e' = rw (scan_function, e, e') refl

scan_device-reads :
    (s rest : Text) (bus dev fun : ℕ)
    → scan_hex 2 s ≡ some (bus, b':' ∷ rest)
    → scan_function rest ≡ some (dev, fun)
    → scan_device s ≡ some (bus, (dev, fun))
unfolding scan_device scan_char
scan_device-reads s rest bus dev fun e e' = rw (scan_device, e, e') refl

scan_name-reads :
    (s rest : Text) (segment : ℕ) (r : Option (ℕ × (ℕ × ℕ)))
    → scan_hex 4 s ≡ some (segment, b':' ∷ rest)
    → scan_device rest ≡ r
    → scan_name s ≡ r
unfolding scan_name scan_char
scan_name-reads s rest segment r e e' = rw (scan_name, e) e'

no_segment : (rest : Text) → scan_hex 4 (text "0000:" ++ rest) ≡ some (0, text ":" ++ rest)
unfolding scan_hex
no_segment rest = refl

scan_name-name_of :
    (bus dev fun : ℕ)
    → bus < 256
    → dev < 256
    → fun < 16
    → scan_name (name_of (bus, (dev, fun))) ≡ some (bus, (dev, fun))
scan_name-name_of bus dev fun h h' h'' =
    let function = hex_padded 2 dev ++ (text "." ++ hex fun) in
    let device = hex_padded 2 bus ++ (text ":" ++ function) in
    rw zero_segment (
      scan_name-reads (text "0000:" ++ device) device 0 (some (bus, (dev, fun))) (no_segment device)
        (scan_device-reads device function bus dev fun (scan_hex-byte bus (text ":" ++ function) h)
          (scan_function-reads function (hex fun) [] dev fun
            (scan_hex-byte dev (text "." ++ hex fun) h') (scan_hex-function fun h''))))

-- What readdir gives: a device file, or the folder itself or the one above it.
pub data Entry : Type 0 where
  device : ℕ → ℕ → ℕ → Entry
  itself above : Entry

-- The lines for the devices, one after the other.
unfoldable pub lines_of : List Entry → Text
lines_of [] = []
lines_of (device bus dev fun ∷ entries) = device_line bus dev fun ++ lines_of entries
lines_of (itself ∷ entries) = lines_of entries
lines_of (above ∷ entries) = lines_of entries

-- What the system lists for them.
unfoldable pub entries_of : List Entry → List (Text × Bool)
entries_of [] = []
entries_of (device bus dev fun ∷ entries) = (name_of (bus, (dev, fun)), false) ∷ entries_of entries
entries_of (itself ∷ entries) = (text ".", true) ∷ entries_of entries
entries_of (above ∷ entries) = (text "..", true) ∷ entries_of entries

abbrev pub IsInRange : Entry → Type 0
IsInRange (device bus dev fun) = (bus < 256) × ((dev < 256) × (fun < 16))
IsInRange itself = Unit
IsInRange above = Unit

scan_name-itself : scan_name (text ".") ≡ none
unfolding scan_name scan_hex scan_field skip_space
scan_name-itself = refl

scan_name-above : scan_name (text "..") ≡ none
unfolding scan_name scan_hex scan_field skip_space
scan_name-above = refl

sysfs_entries :
    (entries : List Entry) (k : Kernel) (log : Log)
    → All IsInRange entries
    → (log' : Log) × (for_each (entries_of entries) sysfs_entry k log ≡ done tt log')
      × (output log' ≡ output log ++ lines_of entries)
unfolding for_each entries_of lines_of output
sysfs_entries [] k log h = (log, refl, sym (append-nil (output log)))
sysfs_entries (device bus dev fun ∷ entries) k log h =
    let line = device_line bus dev fun in
    let (log', e, o) = sysfs_entries entries k (printed line ∷ log) h.1 in
    let named = scan_name-name_of bus dev fun h.0.0 h.0.1.0 h.0.1.1 in
    (log', (rw (named, ◌>>=◌) e), o ∙ append_assoc (output log) line (lines_of entries))
sysfs_entries (itself ∷ entries) k log h =
    let (log', e, o) = sysfs_entries entries k log h.1 in
    (log', (rw (scan_name-itself, ◌>>=◌) e), o)
sysfs_entries (above ∷ entries) k log h =
    let (log', e, o) = sysfs_entries entries k log h.1 in (log', (rw (scan_name-above, ◌>>=◌) e), o)

-- Where sysfs lists the device files of the first segment, by the names under which open_device opens
-- them, and the entries "." and ".." anywhere among them, pci_list prints for each file the numbers of
-- the bus, the device and the function, in the order of the directory, nothing for the other two, and
-- returns 0.
pub pci_list_lem :
    (entries : List Entry) (size : SizeParam) (argv : List Text) (k : Kernel) (log : Log)
    → All IsInRange entries
    → k.list_dir log sysfs_base_dir ≡ some (entries_of entries)
    → (log' : Log) × (pci_list size argv k log ≡ done (pos 0) log')
      × (output log' ≡ output log ++ lines_of entries)
pci_list_lem entries size argv k log h e =
    let (log', ran, o) =
      sysfs_entries entries k (listed sysfs_base_dir (some (entries_of entries)) ∷ log) h in
    (log', unfold pci_list in (rw (e, ◌>>=◌, ran) refl), unfold output in o)
