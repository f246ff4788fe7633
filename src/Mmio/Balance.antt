-- ===== src/Mmio/Balance.antt =====
-- mmio_dump and mem_dump leave the descriptors as they were.
use iotools.Base.{
  ◌∙◌, length, ◌≤◌, ℕ, zero, suc, ◌+◌, ◌-◌, ◌%◌, ◌^◌, ◌≡◌, refl, true, false, Bool, Bool-cases, inl,
  inr, List, [], ◌∷◌, Option, none, some, arith, ◌==◌, if◌then◌else◌, bit_or, ◌<◌,
}
use iotools.Base.Bits.Laws.{bit_and_comm, bit_and-lt}
use iotools.Base.Int.{ℤ, pos, minus_one}
use iotools.Libc.Text.{Text, text, str_eq}
use iotools.Libc.Strtoul.{strtoul}
use iotools.Kernel.{printed, Kernel, Log, M}
use iotools.Kernel.Calls.{pure, ◌>>◌, ◌>>=◌, print, o_rdonly}
use iotools.Kernel.Devices.{open_count, Keeps}
use iotools.Kernel.Balance.{Returns, Returns-bind, IsSame, IsSame-bind, Returns-Keeps, held, closes}
use iotools.Command.{SizeParam}
use iotools.Mmio.Dump.{bytes_of_field-le}
use iotools.Mmio.{
  MmapInfo, open_mapping, close_mapping, bytes_of_field, dump_round, dump_loop, load_bytes,
  load_below, page_offset, dump_binary, dump_text, dump, mmio_dump,
}

load_below-IsSame :
    (limit n addr : ℕ) (k : Kernel) (log : Log) (fd : ℕ)
    → addr + n ≤ limit
    → Returns (IsSame fd log) (load_below limit n addr k log)
unfolding open_count
load_below-IsSame limit n addr k log fd h = ground arith

dump_round-IsSame :
    (limit left addr desired fields : ℕ) (k : Kernel) (log : Log) (fd : ℕ)
    → addr + bytes_of_field left ≤ limit
    → Returns (IsSame fd log) (dump_round limit left addr desired fields k log)
unfolding open_count
dump_round-IsSame limit left addr desired fields k log fd h = ground arith

dump_loop-IsSame :
    (limit fuel left addr desired fields : ℕ) (k : Kernel) (log : Log) (fd : ℕ)
    → addr + left ≤ limit
    → Returns (IsSame fd log) (dump_loop limit fuel left addr desired fields k log)
unfolding dump_loop
dump_loop-IsSame limit zero left addr desired fields k log fd h = unfold open_count in ground arith
dump_loop-IsSame limit (suc fuel) zero addr desired fields k log fd h =
    unfold open_count in ground arith
dump_loop-IsSame limit (suc fuel) (suc left) addr desired fields k log fd h =
    let n = bytes_of_field (suc left) in
    let some_bytes : n ≤ suc left = bytes_of_field-le left in
    IsSame-bind (dump_round limit (suc left) addr desired fields)
      (λ _.
        dump_loop limit fuel (suc left - n) (addr + n) ((desired + n) % 2 ^ 64) ((fields + 1) % 4))
      k log fd (dump_round-IsSame limit (suc left) addr desired fields k log fd (omega arith))
      (λ _ log'.
        dump_loop-IsSame limit fuel (suc left - n) (addr + n) ((desired + n) % 2 ^ 64)
          ((fields + 1) % 4) k log' fd (omega arith))

load_bytes-IsSame :
    (limit n addr : ℕ) (k : Kernel) (log : Log) (fd : ℕ)
    → addr + n ≤ limit
    → Returns (IsSame fd log) (load_bytes limit n addr k log)
unfolding load_bytes
load_bytes-IsSame limit zero addr k log fd h = refl
load_bytes-IsSame limit (suc n) addr k log fd h =
    IsSame-bind (load_below limit 1 addr)
      (λ b. load_bytes limit n (addr + 1) >>= λ bs. pure (b ∷ bs)) k log fd
      (load_below-IsSame limit 1 addr k log fd (omega arith))
      (λ b log'.
        IsSame-bind (load_bytes limit n (addr + 1)) (λ bs. pure (b ∷ bs)) k log' fd
          (load_bytes-IsSame limit n (addr + 1) k log' fd (omega arith)) (λ bs log''. refl))

-- A mapping comes with its descriptor open once more, and is as long as the offset and the bytes
-- together; a failure leaves all as it was.
abbrev Maps : ℕ → ℕ → Log → Option MmapInfo → Log → Type 0
Maps bytes fd log none log' = open_count fd log' ≡ open_count fd log
Maps bytes fd log (some m) log' =
    (open_count fd log' ≡ held fd m.fd (open_count fd log)) × (m.length ≡ bytes + m.off)

-- Pages have 64 KiB at most.
page_offset-lt : (pgsize addr : ℕ) → pgsize ≤ 2 ^ 16 → page_offset pgsize addr < 2 ^ 16
unfolding page_offset
page_offset-lt pgsize addr h =
    rw (bit_and_comm addr (pgsize - 1)) (bit_and-lt 16 (pgsize - 1) addr (omega arith))

open_mapping-Maps :
    (addr flags bytes : ℕ) (k : Kernel) (log : Log) (fd : ℕ)
    → k.page_size ≤ 2 ^ 16
    → bytes + 2 ^ 16 ≤ 2 ^ 32
    → Returns (Maps bytes fd log) (open_mapping addr flags bytes k log)
unfolding open_mapping open_count
open_mapping-Maps addr flags bytes k log fd pages small =
    let inside : page_offset k.page_size addr < 2 ^ 16 = page_offset-lt k.page_size addr pages in
    ground arith

-- What a dump leaves open once its bytes are printed.
closing-IsSame :
    {A : Type 0} (m : MmapInfo) (a : A) (k : Kernel) (log log' : Log) (fd : ℕ)
    → open_count fd log' ≡ held fd m.fd (open_count fd log)
    → Returns (IsSame fd log) ((close_mapping m >> pure a) k log')
unfolding close_mapping open_count
closing-IsSame m a k log log' fd h = closes fd m.fd (open_count fd log) (open_count fd log') h

dump_text-IsSame :
    (m : MmapInfo) (n desired : ℕ) (k : Kernel) (log log' : Log) (fd : ℕ)
    → open_count fd log' ≡ held fd m.fd (open_count fd log)
    → m.length ≡ n + m.off
    → Returns (IsSame fd log) (dump_text m n desired k log')
dump_text-IsSame m n desired k log log' fd h long =
    Returns-bind (IsSame fd log') (IsSame fd log)
      (dump_loop (m.mem + m.length) n n (m.mem + m.off) desired 0)
      (λ _. close_mapping m >> pure (pos 0)) k log'
      (dump_loop-IsSame (m.mem + m.length) n n (m.mem + m.off) desired 0 k log' fd (omega arith))
      (λ _ log'' same. closing-IsSame m (pos 0) k log log'' fd (same ∙ h))

dump_binary-IsSame :
    (m : MmapInfo) (n : ℕ) (k : Kernel) (log log' : Log) (fd : ℕ)
    → open_count fd log' ≡ held fd m.fd (open_count fd log)
    → m.length ≡ n + m.off
    → Returns (IsSame fd log) (dump_binary m n k log')
dump_binary-IsSame m n k log log' fd h long =
    let status : ℤ = if n == 0 then minus_one else pos 0 in
    Returns-bind (IsSame fd log') (IsSame fd log) (load_bytes (m.mem + m.length) n (m.mem + m.off))
      (λ bytes. print bytes >> (close_mapping m >> pure status)) k log'
      (load_bytes-IsSame (m.mem + m.length) n (m.mem + m.off) k log' fd (omega arith))
      (λ bytes log'' same.
        closing-IsSame m status k log (printed bytes ∷ log'') fd (unfold open_count in (same ∙ h)))

dump-IsSame :
    (flags desired n : ℕ) (binary : Bool) (k : Kernel) (log : Log) (fd : ℕ)
    → k.page_size ≤ 2 ^ 16
    → n + 2 ^ 16 ≤ 2 ^ 32
    → Returns (IsSame fd log) (dump flags desired n binary k log)
unfolding dump
dump-IsSame flags desired n binary k log fd pages small =
    let cut : n % 2 ^ 32 ≡ n = omega arith in
    rw cut (
      Returns-bind (Maps n fd log) (IsSame fd log) (open_mapping desired (bit_or o_rdonly flags) n)
        (λ mapping. elim mapping as (λ _. M ℤ) [
          | none ↦ pure minus_one
          | some m ↦ if binary then dump_binary m n else dump_text m n desired
        ])
        k log (open_mapping-Maps desired (bit_or o_rdonly flags) n k log fd pages small)
        (go binary))
  where
    go :
        (binary : Bool) (mapping : Option MmapInfo) (log' : Log)
        → Maps n fd log mapping log'
        → Returns (IsSame fd log) (
            elim mapping as (λ _. M ℤ) [
              | none ↦ pure minus_one
              | some m ↦ if binary then dump_binary m n else dump_text m n desired
            ]
              k log')
    go binary none log' same = same
    go true (some m) log' (h, long) = dump_binary-IsSame m n k log log' fd h long
    go false (some m) log' (h, long) = dump_text-IsSame m n desired k log log' fd h long

-- Whatever the system answers, mmio_dump and mem_dump with an address and a number of bytes, and with
-- or without one more argument, return, and leave every descriptor open or closed as it was before, if
-- a page has 64 KiB at most and the range is 64 KiB shorter than what an unsigned int can count.
pub mmio_dump-Keeps :
    (flags : ℕ) (size : SizeParam) (name addr count : Text) (args : List Text) (k : Kernel)
    (log : Log) (fd : ℕ)
    → length args ≤ 1
    → k.page_size ≤ 2 ^ 16
    → (strtoul 0 count).0 + 2 ^ 16 ≤ 2 ^ 32
    → Keeps fd log (mmio_dump flags size (name ∷ addr ∷ count ∷ args) k log)
unfolding mmio_dump
mmio_dump-Keeps flags size name addr count [] k log fd h pages small =
    Returns-Keeps fd log (mmio_dump flags size (name ∷ addr ∷ count ∷ []) k log)
      (dump-IsSame flags (strtoul 0 addr).0 (strtoul 0 count).0 false k log fd pages small)
mmio_dump-Keeps flags size name addr count (u ∷ []) k log fd h pages small =
    Returns-Keeps fd log (mmio_dump flags size (name ∷ addr ∷ count ∷ u ∷ []) k log)
      (elim (Bool-cases (str_eq u (text "-b"))) [
        | inl e ↦
            rw (Returns, e)
              (dump-IsSame flags (strtoul 0 addr).0 (strtoul 0 count).0 true k log fd pages small)
        | inr e ↦ rw (Returns, e) refl
      ])
mmio_dump-Keeps flags size name addr count (u ∷ v ∷ args) k log fd h pages small =
    absurd (omega arith)
