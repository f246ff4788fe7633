-- ===== src/Program/Uses/Dump.antt =====
-- mmio_dump and mem_dump.
use iotools.Base.{
  ℕ, zero, suc, ◌+◌, ◌-◌, ◌%◌, ◌^◌, ◌==◌, bit_or, ◌≡◌, refl, true, false, Bool, [], ◌∷◌, Option,
  none, some, arith, if◌then◌else◌, Bool-cases, inl, inr, length,
}
use iotools.Base.Int.{ℤ, pos, minus_one}
use iotools.Libc.Text.{text, str_eq}
use iotools.Libc.Strtoul.{strtoul}
use iotools.Kernel.{Kernel, Log, M}
use iotools.Kernel.Calls.{◌>>=◌, pure, print, o_rdonly}
use iotools.Kernel.Devices.{open_count}
use iotools.Kernel.Uses.{
  uses_open, Leaves, Orderly, InUse, Quietly, Quietly-Stays, Quietly-bind, Stays-Orderly,
  Leaves-bind,
}
use iotools.Mmio.{
  MmapInfo, open_mapping, close_mapping, dump_round, dump_loop, load_bytes, load_below, dump_binary,
  dump_text, bytes_of_field, dump, mmio_dump,
}
use iotools.Program.Uses.{IsOrderly}

load_below-Quietly :
    (limit n addr : ℕ) (k : Kernel) (log : Log) (fd : ℕ)
    → Quietly fd log (load_below limit n addr k log)
unfolding open_count uses_open
load_below-Quietly limit n addr k log fd = ground arith

dump_loop-Quietly :
    (limit fuel left addr desired fields : ℕ) (k : Kernel) (log : Log) (fd : ℕ)
    → Quietly fd log (dump_loop limit fuel left addr desired fields k log)
unfolding dump_loop open_count uses_open
dump_loop-Quietly limit zero left addr desired fields k log fd = ground arith
dump_loop-Quietly limit (suc fuel) zero addr desired fields k log fd = ground arith
dump_loop-Quietly limit (suc fuel) (suc left) addr desired fields k log fd =
    let n = bytes_of_field (suc left) in
    Quietly-bind (dump_round limit (suc left) addr desired fields)
      (λ _.
        dump_loop limit fuel (suc left - n) (addr + n) ((desired + n) % 2 ^ 64) ((fields + 1) % 4))
      k log fd (ground arith)
      (λ _ log'.
        dump_loop-Quietly limit fuel (suc left - n) (addr + n) ((desired + n) % 2 ^ 64)
          ((fields + 1) % 4) k log' fd)

load_bytes-Quietly :
    (limit n addr : ℕ) (k : Kernel) (log : Log) (fd : ℕ)
    → Quietly fd log (load_bytes limit n addr k log)
unfolding load_bytes open_count uses_open
load_bytes-Quietly limit zero addr k log fd = (refl, refl)
load_bytes-Quietly limit (suc n) addr k log fd =
    Quietly-bind (load_below limit 1 addr)
      (λ b. load_bytes limit n (addr + 1) >>= λ bs. pure (b ∷ bs)) k log fd
      (load_below-Quietly limit 1 addr k log fd)
      (λ b log'.
        Quietly-bind (load_bytes limit n (addr + 1)) (λ bs. pure (b ∷ bs)) k log' fd
          (load_bytes-Quietly limit n (addr + 1) k log' fd) (λ bs log''. (refl, refl)))

dump_binary-Orderly :
    (m : MmapInfo) (n : ℕ) (k : Kernel) (log : Log)
    → InUse m.fd log
    → Orderly (dump_binary m n k log)
unfolding close_mapping open_count uses_open
dump_binary-Orderly m n k log h =
    Stays-Orderly (load_bytes (m.mem + m.length) n (m.mem + m.off))
      (λ bytes.
        print bytes >>= λ _. close_mapping m >>= λ _. pure (if n == 0 then minus_one else pos 0))
      k log m.fd
      (Quietly-Stays m.fd log (load_bytes (m.mem + m.length) n (m.mem + m.off) k log)
        (load_bytes-Quietly (m.mem + m.length) n (m.mem + m.off) k log m.fd) h)
      (λ bytes log' h'. ground arith)

dump_text-Orderly :
    (m : MmapInfo) (n desired : ℕ) (k : Kernel) (log : Log)
    → InUse m.fd log
    → Orderly (dump_text m n desired k log)
unfolding close_mapping open_count uses_open
dump_text-Orderly m n desired k log h =
    Stays-Orderly (dump_loop (m.mem + m.length) n n (m.mem + m.off) desired 0)
      (λ _. close_mapping m >>= λ _. pure (pos 0)) k log m.fd
      (Quietly-Stays m.fd log (dump_loop (m.mem + m.length) n n (m.mem + m.off) desired 0 k log)
        (dump_loop-Quietly (m.mem + m.length) n n (m.mem + m.off) desired 0 k log m.fd) h)
      (λ _ log' h'. ground arith)

-- A mapping comes with its descriptor open.
abbrev Mapped : Option MmapInfo → Log → Type 0
Mapped none log = uses_open log ≡ true
Mapped (some m) log = InUse m.fd log

open_mapping-Mapped :
    (addr flags bytes : ℕ) (k : Kernel) (log : Log)
    → uses_open log ≡ true
    → Leaves Mapped (open_mapping addr flags bytes k log)
unfolding open_mapping open_count uses_open
open_mapping-Mapped addr flags bytes k log h = ground arith

dump-Orderly :
    (flags desired n : ℕ) (binary : Bool) (k : Kernel) (log : Log)
    → uses_open log ≡ true
    → Orderly (dump flags desired n binary k log)
unfolding dump
dump-Orderly flags desired n binary k log h =
    Leaves-bind (open_mapping desired (bit_or o_rdonly flags) (n % 2 ^ 32))
      (λ mapping. elim mapping as (λ _. M ℤ) [
        | none ↦ pure minus_one
        | some m ↦ if binary then dump_binary m n else dump_text m n desired
      ])
      k log Mapped (λ _ log'. uses_open log' ≡ true)
      (open_mapping-Mapped desired (bit_or o_rdonly flags) (n % 2 ^ 32) k log h) (go binary)
  where
    go :
        (binary : Bool) (mapping : Option MmapInfo) (log' : Log)
        → Mapped mapping log'
        → Orderly (
            elim mapping as (λ _. M ℤ) [
              | none ↦ pure minus_one
              | some m ↦ if binary then dump_binary m n else dump_text m n desired
            ]
              k log')
    go binary none log' h' = h'
    go true (some m) log' h' = dump_binary-Orderly m n k log' h'
    go false (some m) log' h' = dump_text-Orderly m n desired k log' h'

pub mmio_dump-IsOrderly : (flags : ℕ) → IsOrderly (mmio_dump flags)
unfolding mmio_dump
mmio_dump-IsOrderly flags size [] k log h = tt
mmio_dump-IsOrderly flags size (name ∷ []) k log h = tt
mmio_dump-IsOrderly flags size (name ∷ a ∷ []) k log h = tt
mmio_dump-IsOrderly flags size (name ∷ a ∷ b ∷ []) k log h =
    dump-Orderly flags (strtoul 0 a).0 (strtoul 0 b).0 false k log h
mmio_dump-IsOrderly flags size (name ∷ a ∷ b ∷ c ∷ []) k log h =
    elim (Bool-cases (str_eq c (text "-b"))) [
      | inl e ↦ rw (Leaves, e) (dump-Orderly flags (strtoul 0 a).0 (strtoul 0 b).0 true k log h)
      | inr e ↦ rw (Leaves, e) h
    ]
mmio_dump-IsOrderly flags size (name ∷ a ∷ b ∷ c ∷ d ∷ args) k log h =
    let many : (suc (suc (suc (suc (suc (length args))))) == 4) ≡ false = ground arith in
    rw (Leaves, many) (dump-Orderly flags (strtoul 0 a).0 (strtoul 0 b).0 false k log h)
