-- ===== src/Lib.antt =====
-- iotools: small commands, collected in one binary, that read and write the registers of a machine:
-- io ports, CMOS memory, model specific registers, memory mapped, PCI and SCOM registers, devices on the
-- SMBus; and commands on the cpus.
--
-- The program's parts. Every source file with commands has a table of them (`cmd_info`) in a group
-- (`cmd_group`), and a constructor function registers the group in commands.c. main (iotools.c) calls
-- run_command (commands.c). It finds the command by argv[1] or by the name of the link through which
-- the binary was called, checks the number of arguments and the privilege level (check_prereqs), and
-- calls the entry point. A command line that names no command goes to iotools_fallback (iotools.c).
--
-- The files:
--   Base      numbers, Booleans, lists, C integer conversions and the bits of words
--   Libc      texts (strcmp, strrchr), printf's conversions, strtoul and its family, sscanf's %x
--   Kernel    what the program calls and does not implement: the system calls, the port instructions
--             and loads from mapped memory. A `Kernel` answers every call, from the log of all that
--             happened before and the arguments; a function of the program takes the kernel and the
--             log, and returns a result with a longer log. Kernel/Devices reads from a log which
--             descriptors are open and what was written to a device, Kernel/Uses whether each one was
--             open when it was used.
--   Command   commands.h: the tables and groups. `privdata` is the first argument of an entry point,
--             to which the table applies it.
--   Commands  commands.c: Locate (locate_command, register_command_group), Prereqs (check_prereqs,
--             _run_command), Run (run_command), Links (make_command_links, clean_command_links,
--             list_commands), Safety (the accesses to argv), Balance (the open descriptors). The list
--             of groups is in the order of group_head.
--   Program   the groups of all files, as REGISTER_CMD_GROUP registers them in a build for one machine
--             (program_groups, register_all): Order (the order is the linker's), Safety (every line of
--             every command), Uses (the descriptors that a run uses)
--   Iotools   iotools.c: Fallback (usage, version, iotools_fallback), Main (main)
--   Logic     logic.c: or, and, xor, bts, btr, shl, shr, not (logic_op, not, shift)
--   Platform  platform.h: le_to_host and host_to_le for both byte orders (Words: on words of a width)
--   Cmos      cmos_rw.c: cmos_rd, cmos_wr
--   Msr       msr.c: open_and_seek, rd_msr, wr_msr
--   IoPort    io_rw.c: io_read_x, io_write_x, over port instructions or /dev/port
--   Mmio      mmio_rw.c: open_mapping, mmio_read_x, mmio_write_x, mmio_dump
--   Pci       pci_rw.c: open_device, pci_read_x, pci_write_x; Listing (pci_list)
--   Scom      scom.c: open_and_seek, rd_scom, wr_scom; Cpu (cpu_to_pir, pir_to_chipid and the commands on
--             them). What the local variables hold before they are assigned is a parameter.
--   Smbus     smbus_rw.c: Parse (parse_io_width and what it calls), Transfer (print_read_data and the
--             operations perform_op), Commands (smbus_prologue, smbus_read, smbus_write,
--             smbus_process_call, smbus_writeread, the table), Blocks (blocks as text), Registers (a device
--             that keeps its registers)
--   Misc      misc.c: busy_loop, rdtsc, cpuid, cpu_list, runon
--
-- The bounds. int has 32 bits and unsigned long 64, as on 64-bit Linux machines; a conversion to a
-- narrower type is written out as a remainder. Printing a number has the number itself as fuel, which
-- is enough since every round divides by the base. The loop of mmio_dump has the number of bytes as
-- fuel, of which every round prints at least one. The loop of busy_loop has the number of its rounds as
-- fuel; it may run for ever, so that spent fuel is the outcome `running`; a million times 16384 rounds
-- are enough for every line, since the clock is read every 16384 rounds and each reading is at least
-- one microsecond later. All other loops are over a list or a count. What C leaves undefined (a shift
-- by too many bits, argv beyond its end) is the outcome `undefined`.
--
-- A load of mmio_dump beyond the length of its mapping is `undefined` as well, and so is the reply to a
-- call of linux-i2c-dev.h that does not fit the array of smbus_rw.c; the reply to I2C_RDWR is no longer
-- than the read count that the ioctl passes. The length that parse_io_width takes of a block is cut to
-- an int. Kernel/Bounds says what Linux bounds.
--
-- Not modelled: the branch of misc.c for klibc (CPU_ZERO, CPU_SET and local_setaffinity under
-- __KLIBC__), since the program is modelled as built with glibc; malloc and the buffering of stdio,
-- which are taken to succeed; closedir, globfree and the end of a process; linux-i2c-dev.h, which is a
-- copy from another project, and whose calls are answers of the kernel.
pub mod Base
pub mod Libc
pub mod Kernel
pub mod Command
pub mod Commands
pub mod Iotools
pub mod Logic
pub mod Platform
pub mod Program
pub mod Cmos
pub mod Msr
pub mod IoPort
pub mod Mmio
pub mod Pci
pub mod Scom
pub mod Misc
pub mod Smbus
