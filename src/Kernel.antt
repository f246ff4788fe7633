-- ===== src/Kernel.antt =====
-- The world outside the program: the operating system, the hardware behind it, and the choices of
-- the build. The program never implements these, so `Kernel` is a parameter of everything that
-- calls them: each answer is an unknown function of all that has happened before (the log) and of
-- the call's arguments. `M` is the type of a C function that makes such calls.
pub mod Calls
pub mod Balance
pub mod Loops
pub mod Devices
pub mod Uses
pub mod Bounds
pub mod Sample
use iotools.Base.{ℕ, Bool, List, ◌∷◌, Option}
use iotools.Base.Int.{ℤ}
use iotools.Libc.Text.{Text}

-- A call of linux-i2c-dev.h on an open i2c device, and the combined transfer I2C_RDWR. A register is
-- what the header calls a command; `bytes` is what a call reads from the memory that it is given.
pub data I2cCall : Type 0 where
  read_byte : I2cCall
  read_byte_data read_word_data read_block_data : ℕ → I2cCall  -- the register
  read_i2c_block_data : ℕ → ℕ → I2cCall  -- the register, the number of bytes
  write_quick write_byte : ℕ → I2cCall  -- the value
  write_byte_data write_word_data : ℕ → ℕ → I2cCall  -- the register, the value
  write_block_data write_i2c_block_data : ℕ → List ℕ → I2cCall  -- the register, the bytes
  process_call : ℕ → ℕ → I2cCall  -- the register, the value
  block_process_call : ℕ → List ℕ → I2cCall  -- the register, the bytes
  rdwr : ℕ → List ℕ → ℕ → I2cCall  -- the address, the bytes to write, the number to read

-- What the cpuid instruction puts into the registers.
pub record Registers : Type 0 where
  pub eax : ℕ
  pub ebx : ℕ
  pub ecx : ℕ
  pub edx : ℕ

-- A call that the program made, with its answer, and what it printed. `none` is the -1 of a
-- failed call that otherwise returns a descriptor, a count or an address.
pub data Event : Type 0 where
  opened : Text → ℕ → Option ℕ → Event  -- open(path, flags)
  sought : ℕ → ℤ → ℤ → Event  -- lseek(fd, offset, SEEK_SET)
  got : ℕ → ℕ → Option (List ℕ) → Event  -- read(fd, buf, count): the bytes that came
  put : ℕ → List ℕ → Option ℕ → Event  -- write(fd, bytes)
  closed : ℕ → Event  -- close(fd)
  raised : ℕ → Bool → Event  -- iopl(level), whether it succeeded
  read_port : ℕ → ℕ → ℕ → Event  -- inb, inw, inl: the width in bytes, the port, the value
  wrote_port : ℕ → ℕ → ℕ → Event  -- outb, outw, outl: the width in bytes, the port, the value
  mapped : ℕ → ℕ → ℕ → ℕ → Option ℕ → Event  -- mmap: length, prot, fd, offset
  unmapped : ℕ → ℕ → Event  -- munmap(address, length)
  loaded : ℕ → ℕ → ℕ → Event  -- a load through a mapping: width in bytes, address, value
  stored : ℕ → ℕ → ℕ → Event  -- a store through a mapping: width in bytes, address, value
  linked : Text → Text → Bool → Event  -- symlink(target, link)
  removed : Text → Bool → Event  -- unlink(path)
  resolved : Text → Option Text → Event  -- readlink(path)
  bound : ℤ → Bool → Event  -- sched_setaffinity of this process to one cpu
  executed : List Text → Bool → Event  -- execvp(argv[0], argv)
  addressed : ℕ → Bool → ℕ → Bool → Event  -- ioctl(fd, I2C_SLAVE or I2C_SLAVE_FORCE, address)
  transferred : ℕ → I2cCall → ℤ → List ℕ → Event  -- an i2c call: its result, and the bytes that came
  listed : Text → Option (List (Text × Bool)) → Event  -- a directory: names, and which are directories
  globbed : Text → Option Text → Event  -- glob(pattern), the first path
  cpuid_ran : ℕ → ℕ → Registers → Event  -- the cpuid instruction: function, index, registers
  tsc_ran : ℕ → Event  -- the rdtsc instruction
  timed : ℕ → ℕ → Event  -- gettimeofday: seconds, microseconds
  printed : Text → Event  -- to stdout
  complained : Text → Event  -- to stderr

-- The newest event comes first.
abbrev pub Log : Type 0
Log = List Event

pub record Kernel : Type 0 where
  pub open_file : Log → Text → ℕ → Option ℕ
  pub lseek : Log → ℕ → ℤ → ℤ
  pub read : Log → ℕ → ℕ → Option (List ℕ)
  pub write : Log → ℕ → List ℕ → Option ℕ
  pub iopl : Log → ℕ → Bool
  pub port_in : Log → ℕ → ℕ → ℕ
  pub mmap : Log → ℕ → ℕ → ℕ → ℕ → Option ℕ
  pub load : Log → ℕ → ℕ → ℕ
  pub symlink : Log → Text → Text → Bool
  pub unlink : Log → Text → Bool
  pub readlink : Log → Text → Option Text
  pub setaffinity : Log → ℤ → Bool
  pub execvp : Log → List Text → Bool
  pub slave : Log → ℕ → Bool → ℕ → Bool
  pub i2c : Log → ℕ → I2cCall → ℤ × List ℕ
  pub list_dir : Log → Text → Option (List (Text × Bool))
  pub glob : Log → Text → Option Text
  pub glob_error : Log → Text → ℤ
  pub cpuid : Log → ℕ → ℕ → Registers
  pub rdtsc : Log → ℕ
  pub time : Log → ℕ × ℕ
  pub online_cpus : Log → ℤ  -- sysconf(_SC_NPROCESSORS_ONLN)
  pub errno : Log → ℕ
  pub strerror : ℕ → Text
  pub page_size : ℕ  -- getpagesize()
  pub arch_x86 : Bool  -- ARCH_X86 of platform.h
  pub big_endian : Bool  -- IS_BIG_ENDIAN of platform.h

-- How a C function ends: it returns, the process is replaced by another program, or the source
-- leaves the behaviour undefined (a null pointer is followed, a shift is out of range). A loop that
-- may run for ever is `running` when its fuel is spent.
pub data Outcome (A : Type 0) : Type 0 where
  done : A → Log → Outcome A
  replaced : Log → Outcome A
  running : Log → Outcome A
  undefined : Outcome A

abbrev pub M : Type 0 → Type 0
M A = Kernel → Log → Outcome A
