-- ===== src/Mmio/Dump.antt =====
-- What mmio_dump and mem_dump load: every byte of the range once, in order, and within the mapping.
use native.Mathlib.Nat.{le_refl}
use iotools.Base.{
  ℕ, zero, suc, ◌+◌, ◌-◌, ◌*◌, ◌/◌, ◌%◌, ◌^◌, ◌≤◌, ◌<◌, bit_or, ◌≡◌, refl, sym, ◌∙◌, ap, List, [],
  ◌∷◌, ◌++◌, append_assoc, some, arith, ltb, Bool-cases, inl, inr, map,
}
use mathlib.Core.List.{reverse}
use iotools.Base.Int.{pos}
use iotools.Libc.Text.{Text, text}
use iotools.Libc.Strtoul.{strtoul}
use iotools.Kernel.{Kernel, Log, done, opened, closed, mapped, unmapped, loaded}
use iotools.Kernel.Calls.{◌>>=◌}
use iotools.Kernel.Loops.{log_of, Emits, Emits-then, concat_map}
use iotools.Command.{SizeParam}
use iotools.Libc.Strtoul.Laws.{strtoul-lt}
use iotools.Mmio.Mapping.{open_mapping-at, page_size-split}
use iotools.Mmio.{
  prot_of, page_offset, page_address, close_mapping, dump_loop, dump_round, end_dump,
  bytes_of_field, dump, mmio_dump,
}

-- An access to memory: a mapping, by its length, its descriptor and its place in the file, or a
-- load, by its width and its address.
pub data Access : Type 0 where
  map_at : ℕ → ℕ → ℕ → Access
  load_at : ℕ × ℕ → Access

-- The mappings and the loads of a log, the newest first.
unfoldable pub memory_of : Log → List Access
memory_of [] = []
memory_of (mapped length prot fd offset r ∷ log) = map_at length fd offset ∷ memory_of log
memory_of (loaded width addr value ∷ log) = load_at (width, addr) ∷ memory_of log
memory_of (e ∷ log) = memory_of log

-- `n` loads of the same width, one behind the other.
unfoldable pub run_of : ℕ → ℕ → ℕ → List (ℕ × ℕ)
run_of width zero addr = []
run_of width (suc n) addr = (width, addr) ∷ run_of width n (addr + width)

-- The words that fit into the range, and then the bytes that are left over.
unfoldable pub plan : ℕ → ℕ → List (ℕ × ℕ)
plan n addr = run_of 4 (n / 4) addr ++ run_of 1 (n % 4) (addr + n / 4 * 4)

dump_round-Emits :
    (k : Kernel) (log : Log) (limit left addr desired fields : ℕ)
    → addr + bytes_of_field left ≤ limit
    → Emits memory_of k
        (dump_round limit left addr desired fields)
        log
        (load_at (bytes_of_field left, addr) ∷ [])
unfolding memory_of
dump_round-Emits k log limit left addr desired fields h =
    (log_of (dump_round limit left addr desired fields k log), ground arith, ground arith)

end_dump-Emits : (k : Kernel) (log : Log) (fields : ℕ) → Emits memory_of k (end_dump fields) log []
unfolding memory_of
end_dump-Emits k log fields = (log_of (end_dump fields k log), ground arith, ground arith)

pub plan_empty : (addr : ℕ) → plan 0 addr ≡ []
unfolding plan run_of
plan_empty addr = refl

plan_byte :
    (left addr : ℕ)
    → suc left < 4
    → plan (suc left) addr ≡ (1, addr) ∷ plan (suc left - 1) (addr + 1)
unfolding plan run_of
plan_byte left addr h =
    let a : suc left / 4 ≡ 0 = omega arith in
    let b : suc left % 4 ≡ suc left = omega arith in
    let c : (suc left - 1) / 4 ≡ 0 = omega arith in
    let d : (suc left - 1) % 4 ≡ left = omega arith in
    let e : addr + 0 * 4 ≡ addr = omega arith in
    let f : addr + 1 + 0 * 4 ≡ addr + 1 = omega arith in rw (a, b, c, d, e, f)

plan_word :
    (left addr : ℕ)
    → 4 ≤ suc left
    → plan (suc left) addr ≡ (4, addr) ∷ plan (suc left - 4) (addr + 4)
unfolding plan run_of
plan_word left addr h =
    let a : suc left / 4 ≡ suc ((suc left - 4) / 4) = omega arith in
    let b : suc left % 4 ≡ (suc left - 4) % 4 = omega arith in
    let c : addr + suc ((suc left - 4) / 4) * 4 ≡ addr + 4 + (suc left - 4) / 4 * 4 = omega arith in
    rw (a, b, c)

pub plan_step :
    (left addr : ℕ)
    → let n = bytes_of_field (suc left) in
      plan (suc left) addr ≡ (n, addr) ∷ plan (suc left - n) (addr + n)
plan_step left addr = elim (Bool-cases (ltb (suc left) 4)) [
  | inl e ↦ rw e (plan_byte left addr (ground arith))
  | inr e ↦ rw e (plan_word left addr (ground arith))
]

pub bytes_of_field-le : (left : ℕ) → bytes_of_field (suc left) ≤ suc left
bytes_of_field-le left = ground arith

dump_loop-Emits :
    (k : Kernel) (limit fuel left addr desired fields : ℕ) (log : Log)
    → left ≤ fuel
    → addr + left ≤ limit
    → Emits memory_of k
        (dump_loop limit fuel left addr desired fields)
        log
        (map load_at (plan left addr))
unfolding dump_loop
dump_loop-Emits k limit zero zero addr desired fields log h within =
    rw (plan_empty addr) (end_dump-Emits k log fields)
dump_loop-Emits k limit zero (suc left) addr desired fields log h within = absurd (omega arith)
dump_loop-Emits k limit (suc fuel) zero addr desired fields log h within =
    rw (plan_empty addr) (end_dump-Emits k log fields)
dump_loop-Emits k limit (suc fuel) (suc left) addr desired fields log h within =
    let n = bytes_of_field (suc left) in
    let rest =
      dump_loop limit fuel (suc left - n) (addr + n) ((desired + n) % 2 ^ 64) ((fields + 1) % 4) in
    let some_bytes : n ≤ suc left = bytes_of_field-le left in
    rw (plan_step left addr) (
      Emits-then memory_of k (dump_round limit (suc left) addr desired fields) rest log
        (load_at (n, addr) ∷ []) (map load_at (plan (suc left - n) (addr + n)))
        (dump_round-Emits k log limit (suc left) addr desired fields (omega arith))
        (λ log'.
          dump_loop-Emits k limit fuel (suc left - n) (addr + n) ((desired + n) % 2 ^ 64)
            ((fields + 1) % 4) log' (ground arith) (omega arith)))

-- The range lies in a mapping that is longer by the offset in its first page.
pub range_in_mapping : (mem n off : ℕ) → mem + off + n ≤ mem + (n + off)
range_in_mapping mem n off = omega arith

-- The addresses of `n` bytes.
unfoldable pub range : ℕ → ℕ → List ℕ
range addr zero = []
range addr (suc n) = addr ∷ range (addr + 1) n

-- The bytes that a load reads.
abbrev pub bytes_of_load : ℕ × ℕ → List ℕ
bytes_of_load (width, addr) = range addr width

range-append : (m n addr : ℕ) → range addr (n + m) ≡ range addr m ++ range (addr + m) n
unfolding range
range-append zero n addr =
    let e : n + 0 ≡ n = omega arith in let f : addr + 0 ≡ addr = omega arith in rw (e, f)
range-append (suc m) n addr =
    let e : n + suc m ≡ suc (n + m) = omega arith in
    let f : addr + suc m ≡ addr + 1 + m = omega arith in rw (e, f, range-append m n (addr + 1))

concat_map-append :
    (xs ys : List (ℕ × ℕ))
    → concat_map bytes_of_load (xs ++ ys)
      ≡ concat_map bytes_of_load xs ++ concat_map bytes_of_load ys
concat_map-append [] ys = refl
concat_map-append (x ∷ xs) ys = rw (concat_map-append xs ys) (
    sym
      (append_assoc (bytes_of_load x) (concat_map bytes_of_load xs) (concat_map bytes_of_load ys)))

run_of-range :
    (width n addr : ℕ) → concat_map bytes_of_load (run_of width n addr) ≡ range addr (n * width)
unfolding run_of
run_of-range width zero addr = let e : 0 * width ≡ 0 = omega arith in rw e (unfold range in refl)
run_of-range width (suc n) addr =
    let e : suc n * width ≡ n * width + width = omega arith in
    rw (run_of-range width n (addr + width), e, range-append width (n * width) addr)

plan-range : (n addr : ℕ) → concat_map bytes_of_load (plan n addr) ≡ range addr n
unfolding plan
plan-range n addr =
    let whole : n % 4 + n / 4 * 4 ≡ n = omega arith in
    let ones : n % 4 * 1 ≡ n % 4 = omega arith in
    concat_map-append (run_of 4 (n / 4) addr) (run_of 1 (n % 4) (addr + n / 4 * 4))
    ∙ (rw (run_of-range 4 (n / 4) addr, run_of-range 1 (n % 4) (addr + n / 4 * 4), ones)
        (sym (range-append (n / 4 * 4) (n % 4) addr) ∙ ap (range addr) whole))

-- Where the system maps /dev/mem, mmio_dump as text returns 0, and its loads read every byte of the
-- range exactly once and in order: as many as the command line says, from the place in the mapping
-- that stands for the address. Before them it asks for one mapping and no other, as long as the offset
-- in its first page and the range together, so that every load lies within it, and at the place in
-- /dev/mem that makes up the address with that offset; it is undone. This needs that the number of
-- bytes, and a page, fit an unsigned int.
pub mmio_dump_covers :
    (k : Kernel) (log : Log) (flags p fd mem : ℕ) (size : SizeParam) (addr count : Text)
    → k.page_size ≡ 2 ^ p
    → p ≤ 63
    → let n = (strtoul 0 count).0 in
      n + k.page_size < 2 ^ 32
      → ((log' : Log) (path : Text) (flags : ℕ) → k.open_file log' path flags ≡ some fd)
      → ((log' : Log) (length prot fd' offset : ℕ)
          → k.mmap log' length prot fd' offset ≡ some (suc mem))
      → (page off : ℕ) × (page + off ≡ (strtoul 0 addr).0)
        × (off < k.page_size)
        × (log' : Log) × (loads : List (ℕ × ℕ)) × (mmio_dump flags size
              (text "mmio_dump" ∷ addr ∷ count ∷ [])
              k
              log
            ≡ done (pos 0) (closed fd ∷ unmapped (suc mem) (n + off) ∷ log'))
        × (memory_of log'
            ≡ reverse (map load_at loads) ++ (map_at (n + off) fd page ∷ memory_of log))
        × (concat_map bytes_of_load loads ≡ range (suc mem + off) n)
mmio_dump_covers k log flags p fd mem size addr count pages small fits opens maps =
    let a = (strtoul 0 addr).0 in
    let n = (strtoul 0 count).0 in
    let off = page_offset k.page_size a in
    let (split, inside, aligned) = page_size-split k p a pages (omega arith) (strtoul-lt 0 addr) in
    let cut : n % 2 ^ 32 ≡ n = omega arith in
    let at =
      open_mapping-at k log a (bit_or 0 flags) n fd mem (omega arith)
        (opens log (text "/dev/mem") (bit_or 0 flags)) maps in
    let start : Log =
      mapped (n + off) (prot_of (bit_or 0 flags)) fd (page_address k.page_size a) (some (suc mem))
      ∷ opened (text "/dev/mem") (bit_or 0 flags) (some fd)
      ∷ log in
    let (log', ran, calls) =
      dump_loop-Emits k (suc mem + (n + off)) n n (suc mem + off) a 0 start (le_refl n)
        (range_in_mapping (suc mem) n off) in
    (
      page_address k.page_size a,
      off,
      split,
      inside,
      log',
      plan n (suc mem + off),
      unfold mmio_dump in unfold dump in unfold close_mapping in rw (cut, at, ◌>>=◌, ran),
      calls ∙ (unfold memory_of in refl),
      plan-range n (suc mem + off),
    )
