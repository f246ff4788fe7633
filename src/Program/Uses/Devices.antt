-- ===== src/Program/Uses/Devices.antt =====
-- The commands on registers in files and ports.
use iotools.Base.{ℕ, arith}
use iotools.Kernel.Devices.{open_count}
use iotools.Kernel.Uses.{uses_open}
use iotools.Cmos.{cmos_rd, cmos_wr}
use iotools.Msr.{rd_msr, wr_msr}
use iotools.Scom.{rd_scom, wr_scom}
use iotools.IoPort.{io_read_x, io_write_x, port_read, port_write}
use iotools.Pci.{pci_read_x, pci_write_x, parse_args, open_device}
use iotools.Mmio.{mmio_read_x, mmio_write_x, open_mapping, close_mapping}
use iotools.Program.Uses.{IsOrderly}

pub cmos_rd-IsOrderly : IsOrderly cmos_rd
unfolding cmos_rd open_count uses_open
cmos_rd-IsOrderly size argv k log h = ground arith

pub cmos_wr-IsOrderly : IsOrderly cmos_wr
unfolding cmos_wr open_count uses_open
cmos_wr-IsOrderly size argv k log h = ground arith

pub rd_msr-IsOrderly : IsOrderly rd_msr
unfolding rd_msr iotools.Msr.open_and_seek open_count uses_open
rd_msr-IsOrderly size argv k log h = ground arith

pub wr_msr-IsOrderly : IsOrderly wr_msr
unfolding wr_msr iotools.Msr.open_and_seek open_count uses_open
wr_msr-IsOrderly size argv k log h = ground arith

pub rd_scom-IsOrderly : IsOrderly rd_scom
unfolding rd_scom iotools.Scom.open_and_seek open_count uses_open
rd_scom-IsOrderly size argv k log h = ground arith

pub wr_scom-IsOrderly : IsOrderly wr_scom
unfolding wr_scom iotools.Scom.open_and_seek open_count uses_open
wr_scom-IsOrderly size argv k log h = ground arith

pub io_read_x-IsOrderly : IsOrderly io_read_x
unfolding io_read_x port_read open_count uses_open
io_read_x-IsOrderly size argv k log h = ground arith

pub io_write_x-IsOrderly : IsOrderly io_write_x
unfolding io_write_x port_write open_count uses_open
io_write_x-IsOrderly size argv k log h = ground arith

pub pci_read_x-IsOrderly : IsOrderly pci_read_x
unfolding pci_read_x parse_args open_device open_count uses_open
pci_read_x-IsOrderly size argv k log h = ground arith

pub pci_write_x-IsOrderly : IsOrderly pci_write_x
unfolding pci_write_x parse_args open_device open_count uses_open
pci_write_x-IsOrderly size argv k log h = ground arith

pub mmio_read_x-IsOrderly : (flags : ℕ) → IsOrderly (mmio_read_x flags)
unfolding mmio_read_x open_mapping close_mapping open_count uses_open
mmio_read_x-IsOrderly flags size argv k log h = ground arith

pub mmio_write_x-IsOrderly : IsOrderly mmio_write_x
unfolding mmio_write_x open_mapping close_mapping open_count uses_open
mmio_write_x-IsOrderly size argv k log h = ground arith
