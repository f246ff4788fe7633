-- ===== src/Kernel/Devices.antt =====
-- What a log says of the descriptors and of the devices behind them.
use mathlib.Core.Path.{subst}
use iotools.Base.{
  ◌++◌, ℕ, ◌+◌, ◌-◌, ◌≡◌, true, ◌&&◌, List, [], ◌∷◌, Option, none, some, ◌==◌, if◌then◌else◌,
  length, arith,
}
use iotools.Base.Int.{ℤ, pos, int_eq, int_eq_refl}
use iotools.Libc.Text.{Text, str_eq, str_eq_refl}
use iotools.Kernel.{
  printed, Log, Kernel, opened, sought, put, closed, Outcome, done, replaced, running, undefined,
}

-- How often a descriptor was opened and not closed since.
unfoldable pub open_count : ℕ → Log → ℕ
open_count fd [] = 0
open_count fd (opened path flags (some fd') ∷ log) =
    let n = open_count fd log in if fd == fd' then n + 1 else n
open_count fd (closed fd' ∷ log) = let n = open_count fd log in if fd == fd' then n - 1 else n
open_count fd (e ∷ log) = open_count fd log

-- The function returns, and leaves the descriptor open or closed as it was.
abbrev pub Keeps : {A : Type 0} → ℕ → Log → Outcome A → Type 0
Keeps fd log (done a log') = open_count fd log' ≡ open_count fd log
Keeps fd log (replaced log') = ⊥
Keeps fd log (running log') = ⊥
Keeps fd log undefined = ⊥

-- The function returns, and leaves the descriptor open `n` times more often than before.
abbrev pub Gains : {A : Type 0} → ℕ → ℕ → Log → Outcome A → Type 0
Gains fd n log (done a log') = open_count fd log' ≡ n + open_count fd log
Gains fd n log (replaced log') = ⊥
Gains fd n log (running log') = ⊥
Gains fd n log undefined = ⊥

-- What was printed, in the order of the calls.
unfoldable pub output : Log → Text
output [] = []
output (printed s ∷ log) = output log ++ s
output (e ∷ log) = output log

-- The file that a descriptor was last opened on.
unfoldable pub path_of : ℕ → Log → Text
path_of fd [] = []
path_of fd (opened path flags (some fd') ∷ log) =
    let rest = path_of fd log in if fd == fd' then path else rest
path_of fd (e ∷ log) = path_of fd log

-- The offset that a descriptor was last set to.
unfoldable pub position_of : ℕ → Log → ℤ
position_of fd [] = pos 0
position_of fd (sought fd' offset r ∷ log) =
    let rest = position_of fd log in if fd == fd' then offset else rest
position_of fd (e ∷ log) = position_of fd log

-- The bytes last written to a file at an offset.
unfoldable pub last_write : Text → ℤ → Log → Option (List ℕ)
unfolding path_of position_of
last_write path offset [] = none
last_write path offset (put fd bytes (some n) ∷ log) =
    let rest = last_write path offset log in
    if str_eq path (path_of fd log) && int_eq offset (position_of fd log) then some bytes else rest
last_write path offset (e ∷ log) = last_write path offset log

-- The descriptor `fd` is what opening the device at `path` gives, and the device keeps, at `offset`,
-- the bytes that were last written there.
pub record IsStorage (k : Kernel) (path : Text) (offset : ℤ) (fd : ℕ) : Type 0 where
  pub opens : (log : Log) (flags : ℕ) → k.open_file log path flags ≡ some fd
  pub seeks : (log : Log) → k.lseek log fd offset ≡ offset
  pub writes : (log : Log) (bytes : List ℕ) → k.write log fd bytes ≡ some (length bytes)
  pub reads :
      (log : Log) (bytes : List ℕ)
      → last_write (path_of fd log) (position_of fd log) log ≡ some bytes
      → k.read log fd (length bytes) ≡ some bytes

-- The log after a device was opened, positioned, written to and closed.
abbrev pub after_write : Text → ℤ → ℕ → ℕ → List ℕ → Log → Log
after_write path offset fd flags bytes log =
    closed fd
    ∷ put fd bytes (some (length bytes))
    ∷ sought fd offset offset
    ∷ opened path flags (some fd)
    ∷ log

-- The log after it was opened and positioned again.
abbrev pub at_offset : Text → ℤ → ℕ → ℕ → Log → Log
at_offset path offset fd flags log = sought fd offset offset ∷ opened path flags (some fd) ∷ log

-- A device that was written to and opened again gives back what was written.
pub last_write-after_write :
    (path : Text) (offset : ℤ) (fd flags flags' : ℕ) (bytes : List ℕ) (log : Log)
    → let log' = at_offset path offset fd flags' (after_write path offset fd flags bytes log) in
      last_write (path_of fd log') (position_of fd log') log' ≡ some bytes
unfolding last_write
last_write-after_write path offset fd flags flags' bytes log =
    let same : (fd == fd) ≡ true = ground arith in rw (same, str_eq_refl path, int_eq_refl offset)

-- Reading there gives these bytes.
pub IsStorage-read :
    (k : Kernel) (path : Text) (offset : ℤ) (fd flags flags' : ℕ) (bytes : List ℕ) (n : ℕ)
    (log : Log)
    → IsStorage k path offset fd
    → length bytes ≡ n
    → let log' = at_offset path offset fd flags' (after_write path offset fd flags bytes log) in
      k.read log' fd n ≡ some bytes
IsStorage-read k path offset fd flags flags' bytes n log storage e =
    let log' = at_offset path offset fd flags' (after_write path offset fd flags bytes log) in
    let came : k.read log' fd (length bytes) ≡ some bytes =
      storage.reads log' bytes (last_write-after_write path offset fd flags flags' bytes log) in
    subst (λ (m : ℕ). k.read log' fd m ≡ some bytes) e came
