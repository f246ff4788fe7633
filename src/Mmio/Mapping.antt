-- ===== src/Mmio/Mapping.antt =====
-- Which part of the memory is mapped, and that every mapping is undone.
use mathlib.Core.Path.{subst}
use native.Mathlib.Nat.{pow-suc, pow-le-pow_right, one-le-pow, mod-lt, div-add-mod'}
use iotools.Base.{
  ℕ, zero, suc, ◌+◌, ◌-◌, ◌*◌, ◌/◌, ◌%◌, ◌^◌, ◌≤◌, ◌<◌, bit_and, ◌≡◌, sym, List, [], ◌∷◌, ◌++◌,
  some, arith,
}
use iotools.Base.Bits.{bit_and_step, zero-bit_and}
use iotools.Base.Bits.Shifts.{bit_and-low_mask}
use iotools.Base.Int.{pos}
use iotools.Libc.Text.{Text, text}
use iotools.Libc.Strtoul.{strtoul}
use iotools.Libc.Strtoul.Laws.{strtoul-lt}
use iotools.Kernel.{Kernel, Log, done, opened, closed, mapped, unmapped, loaded, stored, printed}
use iotools.Kernel.Calls.{◌>>=◌}
use iotools.Kernel.Devices.{open_count, Keeps}
use iotools.Command.{SizeParam}
use iotools.Libc.Print.{hex_padded}
use iotools.Mmio.{
  width_of, prot_of, page_offset, page_address, open_mapping, close_mapping, mmio_read_x,
  mmio_write_x,
}

-- The digits of a number fall to a mask or to its complement.
bit_and-complement :
    (w a m : ℕ) → a < 2 ^ w → m < 2 ^ w → bit_and a (2 ^ w - 1 - m) + bit_and a m ≡ a
bit_and-complement zero a m h k =
    let e : a ≡ 0 = omega arith in
    rw e (omega (arith, zero-bit_and (2 ^ 0 - 1 - m), zero-bit_and m))
bit_and-complement (suc w) a m h k =
    let n = 2 ^ suc w - 1 - m in
    let half : n / 2 ≡ 2 ^ w - 1 - m / 2 =
      omega (arith, pow-suc 2 w, one-le-pow w 2 (omega arith)) in
    let low : n % 2 ≡ 1 - m % 2 = omega (arith, pow-suc 2 w, one-le-pow w 2 (omega arith)) in
    let rest =
      bit_and-complement w (a / 2) (m / 2) (omega (arith, pow-suc 2 w))
        (omega (arith, pow-suc 2 w)) in
    let upper = rw (half, low) at (bit_and_step a n) in
    let lower = bit_and_step a m in omega (arith, upper, lower, rest)

-- For pages of 2 ^ p bytes, the address of the page and the offset in it make up the address; the
-- offset lies in the page, and the page begins at a multiple of its size.
pub page_split :
    (p addr : ℕ)
    → p ≤ 64
    → addr < 2 ^ 64
    → let pgsize = 2 ^ p in
      (page_address pgsize addr + page_offset pgsize addr ≡ addr)
      × (page_offset pgsize addr < pgsize)
      × (page_address pgsize addr ≡ addr / pgsize * pgsize)
unfolding page_address page_offset
page_split p addr h k =
    let size : 2 ^ p ≤ 2 ^ 64 = pow-le-pow_right {n = 2} (omega arith) {i = p} {j = 64} h in
    let some_size : 1 ≤ 2 ^ p = one-le-pow p 2 (omega arith) in
    let whole = bit_and-complement 64 addr (2 ^ p - 1) k (omega arith) in
    let low = bit_and-low_mask p addr in
    let small = mod-lt addr {m = 2 ^ p} some_size in
    let parts = div-add-mod' addr (2 ^ p) in (whole, omega arith, omega arith)

pub page_size-split :
    (k : Kernel) (p addr : ℕ)
    → k.page_size ≡ 2 ^ p
    → p ≤ 64
    → addr < 2 ^ 64
    → (page_address k.page_size addr + page_offset k.page_size addr ≡ addr)
      × (page_offset k.page_size addr < k.page_size)
      × (page_address k.page_size addr ≡ addr / k.page_size * k.page_size)
page_size-split k p addr pages h small =
    subst
      (λ (n : ℕ).
        (page_address n addr + page_offset n addr ≡ addr)
        × (page_offset n addr < n)
        × (page_address n addr ≡ addr / n * n))
      (sym pages) (page_split p addr h small)

-- A mapping that the system grants.
pub open_mapping-at :
    (k : Kernel) (log : Log) (addr flags bytes fd mem : ℕ)
    → bytes + page_offset k.page_size addr < 2 ^ 32
    → k.open_file log (text "/dev/mem") flags ≡ some fd
    → ((log' : Log) (length prot fd' offset : ℕ)
        → k.mmap log' length prot fd' offset ≡ some (suc mem))
    → let off = page_offset k.page_size addr in
      open_mapping addr flags bytes k log
      ≡ done (some (record { fd = fd; mem = suc mem; off = off; length = bytes + off })) (
          mapped (bytes + off) (prot_of flags) fd (page_address k.page_size addr) (some (suc mem))
          ∷ opened (text "/dev/mem") flags (some fd)
          ∷ log)
open_mapping-at k log addr flags bytes fd mem small opens maps =
    let fits : (bytes + page_offset k.page_size addr) % 2 ^ 32
        ≡ bytes + page_offset k.page_size addr =
      omega arith in
    unfold open_mapping in rw (opens, maps, fits)

-- Where pages have 2 ^ p bytes and the system maps /dev/mem, mem_write makes one store, of its width
-- and with the low bits of the value, and mem_read one load, whose value it prints. Both access the
-- mapping at the place that stands for the address on the command line: the mapping's own place in
-- /dev/mem, and the distance of the access from its beginning, make up the address.
pub mmio_access :
    (k : Kernel) (log : Log) (p bytes fd mem : ℕ) (size : SizeParam) (addr value : Text)
    → k.page_size ≡ 2 ^ p
    → p ≤ 16
    → width_of size ≡ some bytes
    → ((log' : Log) (path : Text) (flags : ℕ) → k.open_file log' path flags ≡ some fd)
    → ((log' : Log) (length prot fd' offset : ℕ)
        → k.mmap log' length prot fd' offset ≡ some (suc mem))
    → let a = (strtoul 0 addr).0 in
      let v = (strtoul 0 value).0 in
      (page off : ℕ) × (page + off ≡ a)
      × (off < k.page_size)
      × (let start : ℕ → ℕ → Log = λ flags prot.
            mapped (8 + off) prot fd page (some (suc mem))
            ∷ opened (text "/dev/mem") flags (some fd)
            ∷ log in
          let finish : Log = closed fd ∷ unmapped (suc mem) (8 + off) ∷ [] in
          (mmio_write_x size (text "mem_write" ∷ addr ∷ value ∷ []) k log
            ≡ done (pos 0) (finish ++ (stored bytes (suc mem + off) (v % 256 ^ bytes) ∷ start 2 3)))
          × (let w = k.load (start 0 1) bytes (suc mem + off) in
              mmio_read_x 0 size (text "mem_read" ∷ addr ∷ []) k log
              ≡ done (pos 0) (
                  finish
                  ++ (printed (text "0x" ++ (hex_padded (bytes * 2) w ++ text "\n"))
                      ∷ loaded bytes (suc mem + off) w
                      ∷ start 0 1))))
mmio_access k log p bytes fd mem size addr value pages small width opens maps =
    let a = (strtoul 0 addr).0 in
    let (split, inside, aligned) = page_size-split k p a pages (omega arith) (strtoul-lt 0 addr) in
    let page_bound : 2 ^ p ≤ 2 ^ 16 =
      pow-le-pow_right {n = 2} (omega arith) {i = p} {j = 16} small in
    let at = λ (flags : ℕ).
      open_mapping-at k log a flags 8 fd mem (omega arith) (opens log (text "/dev/mem") flags)
        maps in
    (
      page_address k.page_size a,
      page_offset k.page_size a,
      split,
      inside,
      (
        unfold mmio_write_x in unfold close_mapping in rw (at 2, ◌>>=◌, width),
        unfold mmio_read_x in unfold close_mapping in rw (at 0, ◌>>=◌, width),
      ),
    )

-- Whatever the system answers, mmio_read and mem_read with an address return, and every descriptor is
-- left open or closed as it was before.
pub mmio_read_x-Keeps :
    (flags : ℕ) (size : SizeParam) (name addr : Text) (args : List Text) (k : Kernel) (log : Log)
    (fd : ℕ)
    → Keeps fd log (mmio_read_x flags size (name ∷ addr ∷ args) k log)
unfolding mmio_read_x open_mapping close_mapping open_count
mmio_read_x-Keeps flags size name addr args k log fd = ground arith

-- Whatever the system answers, mmio_write and mem_write with an address and a value return, and every
-- descriptor is left open or closed as it was before.
pub mmio_write_x-Keeps :
    (size : SizeParam) (name addr value : Text) (args : List Text) (k : Kernel) (log : Log) (fd : ℕ)
    → Keeps fd log (mmio_write_x size (name ∷ addr ∷ value ∷ args) k log)
unfolding mmio_write_x open_mapping close_mapping open_count
mmio_write_x-Keeps size name addr value args k log fd = ground arith
