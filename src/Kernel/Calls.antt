-- ===== src/Kernel/Calls.antt =====
-- The steps from which the program's functions are composed, and the system calls.
use iotools.Base.{
  ℕ, Bool, true, false, List, [], ◌∷◌, ◌++◌, Option, none, some, get_elem?, if◌then◌else◌,
}
use iotools.Base.Int.{ℤ}
use iotools.Libc.Text.{Text, text}
use iotools.Kernel.{
  Event, opened, sought, got, put, closed, raised, read_port, wrote_port, mapped, unmapped, loaded,
  stored, linked, removed, resolved, bound, executed, printed, complained, done, replaced, running,
  undefined, M, I2cCall, addressed, transferred, listed, globbed, cpuid_ran, Registers, tsc_ran,
  timed,
}

module _ {A : Type 0} where
  abbrev pub pure : A → M A
  pure a k log = done a log

  -- The behaviour is undefined from here on.
  abbrev pub fault : M A
  fault k log = undefined

infixl 5 ◌>>=◌ ◌>>◌
abbrev pub ◌>>=◌ : {A B : Type 0} → M A → (A → M B) → M B
◌>>=◌ m f k log = elim (m k log) [
  | done a log' ↦ f a k log'
  | replaced log' ↦ replaced log'
  | running log' ↦ running log'
  | undefined ↦ undefined
]

abbrev pub ◌>>◌ : {A B : Type 0} → M A → M B → M B
m >> n = m >>= λ _. n

-- `for (x in list) body(x);`
unfoldable pub for_each : {A : Type 0} → List A → (A → M (Unit {0})) → M (Unit {0})
for_each [] body = pure tt
for_each (x ∷ xs) body = body x >> for_each xs body

-- `argv[i]`, for an i at which the code follows the pointer: argv[argc] is NULL.
abbrev pub arg : List Text → ℕ → M Text
arg argv i k log = elim (get_elem? argv i) [ none ↦ undefined | some s ↦ done s log ]

-- An event that is never answered.
abbrev pub note : Event → M (Unit {0})
note e k log = done tt (e ∷ log)

-- printf and fprintf(stdout)
abbrev pub print : Text → M (Unit {0})
print s = note (printed s)

-- fprintf(stderr)
abbrev pub complain : Text → M (Unit {0})
complain s = note (complained s)

abbrev pub errno : M ℕ
errno k log = done (k.errno log) log

-- strerror(errno)
abbrev pub error_text : M Text
error_text k log = done (k.strerror (k.errno log)) log

-- `fprintf(stderr, "…: %s\n", strerror(errno))`
abbrev pub complain_errno : Text → M (Unit {0})
complain_errno s = error_text >>= λ e. complain (s ++ (text ": " ++ (e ++ text "\n")))

abbrev pub o_rdonly : ℕ
o_rdonly = 0

abbrev pub o_wronly : ℕ
o_wronly = 1

abbrev pub o_rdwr : ℕ
o_rdwr = 2

abbrev pub open_file : Text → ℕ → M (Option ℕ)
open_file path flags k log =
    let r = k.open_file log path flags in done r (opened path flags r ∷ log)

abbrev pub lseek : ℕ → ℤ → M ℤ
lseek fd offset k log = let r = k.lseek log fd offset in done r (sought fd offset r ∷ log)

abbrev pub read : ℕ → ℕ → M (Option (List ℕ))
read fd count k log = let r = k.read log fd count in done r (got fd count r ∷ log)

abbrev pub write : ℕ → List ℕ → M (Option ℕ)
write fd bytes k log = let r = k.write log fd bytes in done r (put fd bytes r ∷ log)

abbrev pub close : ℕ → M (Unit {0})
close fd = note (closed fd)

abbrev pub iopl : ℕ → M Bool
iopl level k log = let r = k.iopl log level in done r (raised level r ∷ log)

abbrev pub port_in : ℕ → ℕ → M ℕ
port_in width port k log = let r = k.port_in log width port in done r (read_port width port r ∷ log)

abbrev pub port_out : ℕ → ℕ → ℕ → M (Unit {0})
port_out width port value = note (wrote_port width port value)

abbrev pub mmap : ℕ → ℕ → ℕ → ℕ → M (Option ℕ)
mmap length prot fd offset k log =
    let r = k.mmap log length prot fd offset in done r (mapped length prot fd offset r ∷ log)

abbrev pub munmap : ℕ → ℕ → M (Unit {0})
munmap address length = note (unmapped address length)

abbrev pub load : ℕ → ℕ → M ℕ
load width address k log = let r = k.load log width address in done r (loaded width address r ∷ log)

abbrev pub store : ℕ → ℕ → ℕ → M (Unit {0})
store width address value = note (stored width address value)

abbrev pub symlink : Text → Text → M Bool
symlink target link k log = let r = k.symlink log target link in done r (linked target link r ∷ log)

abbrev pub unlink : Text → M Bool
unlink path k log = let r = k.unlink log path in done r (removed path r ∷ log)

abbrev pub readlink : Text → M (Option Text)
readlink path k log = let r = k.readlink log path in done r (resolved path r ∷ log)

abbrev pub setaffinity : ℤ → M Bool
setaffinity cpu k log = let r = k.setaffinity log cpu in done r (bound cpu r ∷ log)

-- A call that succeeds does not return.
abbrev pub execvp : List Text → M (Unit {0})
execvp argv k log =
    if k.execvp log argv
    then replaced (executed argv true ∷ log)
    else done tt (executed argv false ∷ log)

-- ioctl(fd, forced ? I2C_SLAVE_FORCE : I2C_SLAVE, address)
abbrev pub slave : ℕ → Bool → ℕ → M Bool
slave fd forced address k log =
    let r = k.slave log fd forced address in done r (addressed fd forced address r ∷ log)

-- A call of linux-i2c-dev.h: its result, and the bytes that it put into the memory it was given.
abbrev pub i2c : ℕ → I2cCall → M (ℤ × List ℕ)
i2c fd call k log = let r = k.i2c log fd call in done r (transferred fd call r.0 r.1 ∷ log)

-- opendir, and readdir to the end; closedir is no event
abbrev pub list_dir : Text → M (Option (List (Text × Bool)))
list_dir path k log = let r = k.list_dir log path in done r (listed path r ∷ log)

-- glob(pattern, 0, NULL, …): the first path that fits
abbrev pub glob : Text → M (Option Text)
glob pattern k log = let r = k.glob log pattern in done r (globbed pattern r ∷ log)

abbrev pub glob_error : Text → M ℤ
glob_error pattern k log = done (k.glob_error log pattern) log

abbrev pub cpuid_instruction : ℕ → ℕ → M Registers
cpuid_instruction function index k log =
    let r = k.cpuid log function index in done r (cpuid_ran function index r ∷ log)

abbrev pub rdtsc_instruction : M ℕ
rdtsc_instruction k log = let r = k.rdtsc log in done r (tsc_ran r ∷ log)

-- gettimeofday
abbrev pub time : M (ℕ × ℕ)
time k log = let t = k.time log in done t (timed t.0 t.1 ∷ log)

abbrev pub online_cpus : M ℤ
online_cpus k log = done (k.online_cpus log) log

-- The fuel of a loop is spent.
abbrev pub still_running : {A : Type 0} → M A
still_running k log = running log

abbrev pub arch_x86 : M Bool
arch_x86 k log = done k.arch_x86 log

abbrev pub big_endian : M Bool
big_endian k log = done k.big_endian log

abbrev pub page_size : M ℕ
page_size k log = done k.page_size log
