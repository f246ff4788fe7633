-- ===== src/Mmio/Lines.antt =====
-- The text of mmio_dump and mem_dump, line by line.
use native.Mathlib.Nat.{le_refl}
use iotools.Base.{
  ℕ, zero, suc, ◌+◌, ◌-◌, ◌*◌, ◌%◌, ◌^◌, ◌≤◌, ◌<◌, bit_or, ◌≡◌, refl, ◌∙◌, ap, List, [], ◌∷◌, ◌++◌,
  append_assoc, append-nil, some, arith, ltb, false, ◌==◌, if◌then◌else◌, Bool-cases, inl, inr,
}
use iotools.Base.Int.{pos}
use iotools.Libc.Text.{Text, text}
use iotools.Libc.Print.{hex_padded}
use iotools.Libc.Strtoul.{strtoul}
use iotools.Libc.Strtoul.Laws.{strtoul-lt}
use iotools.Kernel.{Kernel, Log, done, opened, closed, mapped, unmapped, loaded, printed}
use iotools.Kernel.Calls.{◌>>=◌}
use iotools.Kernel.Devices.{output}
use iotools.Kernel.Loops.{then_done}
use iotools.Command.{SizeParam}
use iotools.Mmio.Mapping.{open_mapping-at, page_size-split}
use iotools.Mmio.Dump.{plan, plan_step, plan_empty, bytes_of_field-le, range_in_mapping}
use iotools.Mmio.{
  prot_of, page_offset, page_address, close_mapping, dump_loop, dump_round, end_dump,
  bytes_of_field, dump, mmio_dump,
}

regroup : (o h f t r : Text) → (o ++ (h ++ (f ++ t))) ++ r ≡ o ++ (h ++ (f ++ (t ++ r)))
regroup o h f t r =
    append_assoc o (h ++ (f ++ t)) r
    ∙ ap (λ (x : Text). o ++ x)
        (append_assoc h (f ++ t) r ∙ ap (λ (x : Text). h ++ x) (append_assoc f t r))

-- What stands in memory: the value of so many bytes at an address.
module _ (cell : ℕ → ℕ → ℕ) where
  -- A value with two digits for each of its bytes.
  abbrev pub field_text : ℕ × ℕ → Text
  field_text (width, addr) = text " 0x" ++ hex_padded (width * 2) (cell width addr)

  abbrev pub line_head : ℕ → Text
  line_head desired = text "0x" ++ (hex_padded 16 desired ++ text ":")

  -- The address behind a value, in 64 bits.
  abbrev pub behind : ℕ → ℕ × ℕ → ℕ
  behind desired (width, addr) = (desired + width) % 2 ^ 64

  -- Lines of four values, each line with the address of its first; the last may be shorter.
  unfoldable pub dump_lines : ℕ → List (ℕ × ℕ) → Text
  dump_lines d [] = []
  dump_lines d (p ∷ []) = line_head d ++ (field_text p ++ text "\n")
  dump_lines d (p ∷ q ∷ []) = line_head d ++ (field_text p ++ (field_text q ++ text "\n"))
  dump_lines d (p ∷ q ∷ r ∷ []) =
      line_head d ++ (field_text p ++ (field_text q ++ (field_text r ++ text "\n")))
  dump_lines d (p ∷ q ∷ r ∷ s ∷ rest) =
      line_head d
      ++ (field_text p
          ++ (field_text q
              ++ (field_text r
                  ++ (field_text s
                      ++ (text "\n"
                          ++ dump_lines (behind (behind (behind (behind d p) q) r) s) rest)))))

  abbrev head_at : ℕ → ℕ → Text
  head_at fields d = if fields == 0 then line_head d else []

  abbrev tail_at : ℕ → Text
  tail_at fields = if (fields + 1) % 4 == 0 then text "\n" else []

  -- The text from a place in a line on.
  unfoldable text_from : ℕ → ℕ → List (ℕ × ℕ) → Text
  text_from fields d [] = if fields == 0 then [] else text "\n"
  text_from fields d (p ∷ rest) =
      head_at fields d
      ++ (field_text p ++ (tail_at fields ++ text_from ((fields + 1) % 4) (behind d p) rest))

  text_from-dump_lines : (d : ℕ) (ps : List (ℕ × ℕ)) → text_from 0 d ps ≡ dump_lines d ps
  unfolding text_from dump_lines
  text_from-dump_lines d [] = refl
  text_from-dump_lines d (p ∷ []) = refl
  text_from-dump_lines d (p ∷ q ∷ []) = refl
  text_from-dump_lines d (p ∷ q ∷ r ∷ []) = refl
  text_from-dump_lines d (p ∷ q ∷ r ∷ s ∷ rest) =
      rw (text_from-dump_lines (behind (behind (behind (behind d p) q) r) s) rest) refl

  module _ (k : Kernel)
      (reads : (log : Log) (width addr : ℕ) → k.load log width addr ≡ cell width addr) where
    dump_round-output :
        (limit left addr d fields : ℕ) (log : Log)
        → addr + bytes_of_field left ≤ limit
        → let p : ℕ × ℕ = (bytes_of_field left, addr) in
          (log' : Log) × (dump_round limit left addr d fields k log ≡ done tt log')
          × (output log' ≡ output log ++ (head_at fields d ++ (field_text p ++ tail_at fields)))
    unfolding output
    dump_round-output limit left addr d fields log h =
        let n = bytes_of_field left in
        let below : ltb limit (addr + n) ≡ false = ground arith in
        let field : Text = field_text (n, addr) in
        elim (Bool-cases (fields == 0)) [
          | inl first ↦
              let log1 : Log = printed (line_head d) ∷ log in
              let log2 : Log = printed field ∷ loaded n addr (cell n addr) ∷ log1 in
              elim (Bool-cases ((fields + 1) % 4 == 0)) [
                | inl last ↦ (
                  printed (text "\n") ∷ log2,
                  rw (first, last, below, reads) refl,
                  rw
                      (
                        first,
                        last,
                        append_assoc (output log ++ line_head d) field (text "\n"),
                        append_assoc (output log) (line_head d) (field ++ text "\n"),
                      )
                      refl,
                )
                | inr more ↦ (
                  log2,
                  rw (first, more, below, reads) refl,
                  rw (first, more, append-nil field, append_assoc (output log) (line_head d) field)
                      refl,
                )
              ]
          | inr inside ↦
              let log2 : Log = printed field ∷ loaded n addr (cell n addr) ∷ log in
              elim (Bool-cases ((fields + 1) % 4 == 0)) [
                | inl last ↦ (
                  printed (text "\n") ∷ log2,
                  rw (inside, last, below, reads) refl,
                  rw (inside, last, append_assoc (output log) field (text "\n")) refl,
                )
                | inr more ↦ (
                  log2,
                  rw (inside, more, below, reads) refl,
                  rw (inside, more, append-nil field) refl,
                )
              ]
        ]

    end_dump-output :
        (d fields : ℕ) (log : Log)
        → (log' : Log) × (end_dump fields k log ≡ done tt log')
          × (output log' ≡ output log ++ text_from fields d [])
    unfolding output text_from
    end_dump-output d fields log = elim (Bool-cases (fields == 0)) [
      | inl none_open ↦ (log, rw none_open refl, rw (none_open, append-nil (output log)) refl)
      | inr line_open ↦ (printed (text "\n") ∷ log, rw line_open refl, rw line_open refl)
    ]

    dump_loop-output :
        (limit fuel left addr d fields : ℕ) (log : Log)
        → left ≤ fuel
        → addr + left ≤ limit
        → (log' : Log) × (dump_loop limit fuel left addr d fields k log ≡ done tt log')
          × (output log' ≡ output log ++ text_from fields d (plan left addr))
    unfolding dump_loop text_from
    dump_loop-output limit zero zero addr d fields log h within =
        rw (plan_empty addr) (end_dump-output d fields log)
    dump_loop-output limit zero (suc left) addr d fields log h within = absurd (omega arith)
    dump_loop-output limit (suc fuel) zero addr d fields log h within =
        rw (plan_empty addr) (end_dump-output d fields log)
    dump_loop-output limit (suc fuel) (suc left) addr d fields log h within =
        let n = bytes_of_field (suc left) in
        let some_bytes : n ≤ suc left = bytes_of_field-le left in
        let (log1, ran, said) =
          dump_round-output limit (suc left) addr d fields log (omega arith) in
        let (log2, ends, more) =
          dump_loop-output limit fuel (suc left - n) (addr + n) ((d + n) % 2 ^ 64)
            ((fields + 1) % 4) log1 (ground arith) (omega arith) in
        (
          log2,
          then_done (dump_round limit (suc left) addr d fields)
                (dump_loop limit fuel (suc left - n) (addr + n) ((d + n) % 2 ^ 64)
                  ((fields + 1) % 4))
                k ran
              ∙ ends,
          more
              ∙ rw (plan_step left addr) (
                  ap
                    (λ (o : Text).
                      o
                      ++ text_from ((fields + 1) % 4) ((d + n) % 2 ^ 64)
                          (plan (suc left - n) (addr + n)))
                    said
                  ∙ regroup (output log) (head_at fields d) (field_text (n, addr)) (tail_at fields)
                      (text_from ((fields + 1) % 4) ((d + n) % 2 ^ 64)
                        (plan (suc left - n) (addr + n)))),
        )

-- Where the system maps /dev/mem, and memory does not change meanwhile, mmio_dump without -b returns 0
-- and prints lines of four words each, led by the address of the first in 16 digits: the words of four
-- bytes that fit into the range, in order and with 8 digits each, then the bytes that are left over with
-- 2 digits each. This needs that the number of bytes, and a page, fit an unsigned int.
pub mmio_dump_prints :
    (k : Kernel) (cell : ℕ → ℕ → ℕ) (log : Log) (flags p fd mem : ℕ) (size : SizeParam)
    (addr count : Text)
    → k.page_size ≡ 2 ^ p
    → p ≤ 63
    → let n = (strtoul 0 count).0 in
      n + k.page_size < 2 ^ 32
      → ((log' : Log) (path : Text) (flags : ℕ) → k.open_file log' path flags ≡ some fd)
      → ((log' : Log) (length prot fd' offset : ℕ)
          → k.mmap log' length prot fd' offset ≡ some (suc mem))
      → ((log' : Log) (width place : ℕ) → k.load log' width place ≡ cell width place)
      → let start = suc mem + page_offset k.page_size (strtoul 0 addr).0 in
        (log' : Log) × (mmio_dump flags size (text "mmio_dump" ∷ addr ∷ count ∷ []) k log
          ≡ done (pos 0) log')
        × (output log' ≡ output log ++ dump_lines cell (strtoul 0 addr).0 (plan n start))
unfolding output
mmio_dump_prints k cell log flags p fd mem size addr count pages small fits opens maps reads =
    let a = (strtoul 0 addr).0 in
    let n = (strtoul 0 count).0 in
    let off = page_offset k.page_size a in
    let (split, inside, aligned) = page_size-split k p a pages (omega arith) (strtoul-lt 0 addr) in
    let cut : n % 2 ^ 32 ≡ n = omega arith in
    let at =
      open_mapping-at k log a (bit_or 0 flags) n fd mem (omega arith)
        (opens log (text "/dev/mem") (bit_or 0 flags)) maps in
    let start : Log =
      mapped (n + off) (prot_of (bit_or 0 flags)) fd (page_address k.page_size a) (some (suc mem))
      ∷ opened (text "/dev/mem") (bit_or 0 flags) (some fd)
      ∷ log in
    let (log', ran, said) =
      dump_loop-output cell k reads (suc mem + (n + off)) n n (suc mem + off) a 0 start (le_refl n)
        (range_in_mapping (suc mem) n off) in
    (
      closed fd ∷ unmapped (suc mem) (n + off) ∷ log',
      unfold mmio_dump in unfold dump in unfold close_mapping in rw (cut, at, ◌>>=◌, ran),
      said
          ∙ ap (λ (t : Text). output log ++ t)
              (text_from-dump_lines cell a (plan n (suc mem + off))),
    )
