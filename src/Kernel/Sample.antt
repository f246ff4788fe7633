-- ===== src/Kernel/Sample.antt =====
-- A concrete kernel, on which the tests run: every call fails but those that a test gives anew.
use iotools.Base.{refl, true, false, none, some, length, []}
use iotools.Base.Int.{ℤ, pos, minus_one}
use iotools.Libc.Text.{Text, text}
use iotools.Kernel.{Kernel}
use iotools.Kernel.Devices.{IsStorage, last_write, path_of, position_of}

abbrev pub failing : Kernel
failing = record {
  open_file = λ log path flags. none;
  lseek = λ log fd offset. minus_one;
  read = λ log fd count. none;
  write = λ log fd bytes. none;
  iopl = λ log level. false;
  port_in = λ log width port. 0;
  mmap = λ log length prot fd offset. none;
  load = λ log width address. 0;
  symlink = λ log target link. false;
  unlink = λ log path. false;
  readlink = λ log path. none;
  setaffinity = λ log cpu. false;
  execvp = λ log argv. false;
  slave = λ log fd forced address. false;
  i2c = λ log fd call. (minus_one, []);
  list_dir = λ log path. none;
  glob = λ log pattern. none;
  glob_error = λ log pattern. pos 3;
  cpuid = λ log function index. record { eax = 0; ebx = 0; ecx = 0; edx = 0 };
  rdtsc = λ log. 0;
  time = λ log. (0, 0);
  online_cpus = λ log. pos 1;
  errno = λ log. 2;
  strerror = λ n. text "No such file or directory";
  page_size = 4096;
  arch_x86 = true;
  big_endian = false;
}

-- Files open as descriptor 3, and keep what is written to them.
abbrev pub disk : Kernel
disk = record failing {
  open_file = λ log path flags. some 3;
  lseek = λ log fd offset. offset;
  write = λ log fd bytes. some (length bytes);
  read = λ log fd count. last_write (path_of fd log) (position_of fd log) log;
}

pub disk-IsStorage : (path : Text) (offset : ℤ) → IsStorage disk path offset 3
disk-IsStorage path offset = record {
  opens = λ log flags. refl;
  seeks = λ log. refl;
  writes = λ log bytes. refl;
  reads = λ log bytes e. e;
}
