-- ===== src/Program/Uses/Tables.antt =====
-- The tables of commands.
use iotools.Base.{ℕ, Bool, true, false, List, ◌++◌, All, All-append}
use iotools.Libc.Text.{Text, text}
use iotools.Command.{CmdInfo, CmdGroup}
use iotools.Cmos.{cmos_group, cmos_cmds}
use iotools.IoPort.{io_group, io_cmds}
use iotools.Logic.{or_op, and_op, xor_op, shl_op, shr_op, bts_op, btr_op, logic_group, logic_cmds}
use iotools.Misc.{misc_group, misc_cmds}
use iotools.Mmio.{mmio_group, mem_group, mmio_cmds, cacheable_mmio_cmds, cmds_of, o_sync}
use iotools.Msr.{msr_group, msr_cmds}
use iotools.Pci.{pci_rw_cmds}
use iotools.Pci.Listing.{pci_group, pci_cmds}
use iotools.Scom.{scom_rw_cmds}
use iotools.Scom.Cpu.{Locals, scom_cmds, scom_group}
use iotools.Smbus.{
  SmbusSize, size_8, size_16, size_32, size_64, size_block, size_byte, quick, proc_call,
  block_proc_call, write_read,
}
use iotools.Smbus.Transfer.{
  smbus_read_op, smbus_write_op, smbus_process_call_op, smbus_block_process_call_op,
  smbus_writeread_op,
}
use iotools.Smbus.Commands.{smbus_group, smbus_cmds, smbus_rw_cmds, smbus_other_cmds, make_smbus_op}
use iotools.Program.{Machine, x86, power, other, is_x86, machine_groups, program_groups}
use iotools.Program.Uses.{IsOrderlyCmd}
use iotools.Program.Uses.Devices.{
  cmos_rd-IsOrderly, cmos_wr-IsOrderly, rd_msr-IsOrderly, wr_msr-IsOrderly, rd_scom-IsOrderly,
  wr_scom-IsOrderly, io_read_x-IsOrderly, io_write_x-IsOrderly, pci_read_x-IsOrderly,
  pci_write_x-IsOrderly, mmio_read_x-IsOrderly, mmio_write_x-IsOrderly,
}
use iotools.Program.Uses.Dump.{mmio_dump-IsOrderly}
use iotools.Program.Uses.Cpu.{cpu_to_ex-IsOrderly, cpu_to_chipid-IsOrderly}
use iotools.Program.Uses.Lists.{pci_list-IsOrderly}
use iotools.Program.Uses.Others.{
  logic_op-IsOrderly, complement-IsOrderly, shift-IsOrderly, rdtsc-IsOrderly, cpuid-IsOrderly,
  runon-IsOrderly, cpu_list-IsOrderly, busy_loop-IsOrderly,
}
use iotools.Program.Uses.Transfer.{
  smbus_read_op-IsStaying, smbus_write_op-IsStaying, smbus_process_call_op-IsStaying,
  smbus_block_process_call_op-IsStaying, smbus_writeread_op-IsStaying,
}
use iotools.Program.Uses.Smbus.{
  smbus_read-IsOrderly, smbus_write-IsOrderly, smbus_process_call-IsOrderly,
  smbus_writeread-IsOrderly,
}

abbrev IsOrderlyTable : List CmdInfo → Type 0
IsOrderlyTable cs = All IsOrderlyCmd cs

both : (xs ys : List CmdInfo) → IsOrderlyTable xs → IsOrderlyTable ys → IsOrderlyTable (xs ++ ys)
both xs ys = All-append IsOrderlyCmd xs ys

cmos_cmds-IsOrderlyTable : IsOrderlyTable cmos_cmds
unfolding cmos_cmds
cmos_cmds-IsOrderlyTable = (cmos_rd-IsOrderly, (cmos_wr-IsOrderly, tt))

msr_cmds-IsOrderlyTable : IsOrderlyTable msr_cmds
unfolding msr_cmds
msr_cmds-IsOrderlyTable = (rd_msr-IsOrderly, (wr_msr-IsOrderly, tt))

scom_cmds-IsOrderlyTable : (locals : Locals) → IsOrderlyTable (scom_cmds locals)
unfolding scom_cmds scom_rw_cmds
scom_cmds-IsOrderlyTable locals = (
  rd_scom-IsOrderly,
  (wr_scom-IsOrderly, (cpu_to_chipid-IsOrderly locals, (cpu_to_ex-IsOrderly locals, tt))),
)

io_cmds-IsOrderlyTable : IsOrderlyTable io_cmds
unfolding io_cmds
io_cmds-IsOrderlyTable =
    let r = io_read_x-IsOrderly in let w = io_write_x-IsOrderly in (r, (w, (r, (w, (r, (w, tt))))))

pci_cmds-IsOrderlyTable : IsOrderlyTable pci_cmds
unfolding pci_cmds pci_rw_cmds
pci_cmds-IsOrderlyTable =
    let r = pci_read_x-IsOrderly in
    let w = pci_write_x-IsOrderly in (r, (w, (r, (w, (r, (w, (pci_list-IsOrderly, tt)))))))

logic_cmds-IsOrderlyTable : IsOrderlyTable logic_cmds
unfolding logic_cmds
logic_cmds-IsOrderlyTable = (
  logic_op-IsOrderly or_op,
  (
    logic_op-IsOrderly and_op,
    (
      logic_op-IsOrderly xor_op,
      (
        shift-IsOrderly shl_op,
        (
          shift-IsOrderly shr_op,
          (complement-IsOrderly, (logic_op-IsOrderly btr_op, (logic_op-IsOrderly bts_op, tt))),
        ),
      ),
    ),
  ),
)

misc_cmds-IsOrderlyTable : (for_x86 : Bool) (fuel : ℕ) → IsOrderlyTable (misc_cmds for_x86 fuel)
unfolding misc_cmds
misc_cmds-IsOrderlyTable true fuel = (
  rdtsc-IsOrderly,
  (cpuid-IsOrderly, (busy_loop-IsOrderly fuel, (cpu_list-IsOrderly, (runon-IsOrderly, tt)))),
)
misc_cmds-IsOrderlyTable false fuel =
    (busy_loop-IsOrderly fuel, (cpu_list-IsOrderly, (runon-IsOrderly, tt)))

mmio_table-IsOrderlyTable : (prefix : Text) (flags : ℕ) → IsOrderlyTable (cmds_of prefix flags)
mmio_table-IsOrderlyTable prefix flags =
    let r = mmio_read_x-IsOrderly flags in
    let w = mmio_write_x-IsOrderly in
    (r, (w, (r, (w, (r, (w, (r, (w, (mmio_dump-IsOrderly flags, tt)))))))))

pair-IsOrderlyTable :
    (name : Text) (op_size : SmbusSize) → IsOrderlyTable (smbus_rw_cmds name op_size)
pair-IsOrderlyTable name op_size = (
  smbus_read-IsOrderly (make_smbus_op op_size smbus_read_op) smbus_read_op-IsStaying,
  (smbus_write-IsOrderly (make_smbus_op op_size smbus_write_op) smbus_write_op-IsStaying, tt),
)

others-IsOrderlyTable : IsOrderlyTable smbus_other_cmds
others-IsOrderlyTable = (
  smbus_read-IsOrderly (make_smbus_op size_byte smbus_read_op) smbus_read_op-IsStaying,
  (
    smbus_write-IsOrderly (make_smbus_op size_byte smbus_write_op) smbus_write_op-IsStaying,
    (
      smbus_write-IsOrderly (make_smbus_op quick smbus_write_op) smbus_write_op-IsStaying,
      (
        smbus_process_call-IsOrderly (make_smbus_op proc_call smbus_process_call_op)
            smbus_process_call_op-IsStaying,
        (
          smbus_process_call-IsOrderly (make_smbus_op block_proc_call smbus_block_process_call_op)
              smbus_block_process_call_op-IsStaying,
          (
            smbus_writeread-IsOrderly (make_smbus_op write_read smbus_writeread_op)
                smbus_writeread_op-IsStaying,
            tt,
          ),
        ),
      ),
    ),
  ),
)

smbus_cmds-IsOrderlyTable : IsOrderlyTable smbus_cmds
unfolding smbus_cmds
smbus_cmds-IsOrderlyTable =
    let rest5 = smbus_rw_cmds (text "block") size_block ++ smbus_other_cmds in
    let rest4 = smbus_rw_cmds (text "64") size_64 ++ rest5 in
    let rest3 = smbus_rw_cmds (text "32") size_32 ++ rest4 in
    let rest2 = smbus_rw_cmds (text "16") size_16 ++ rest3 in
    both (smbus_rw_cmds (text "8") size_8) rest2 (pair-IsOrderlyTable (text "8") size_8) (
      both (smbus_rw_cmds (text "16") size_16) rest3 (pair-IsOrderlyTable (text "16") size_16) (
        both (smbus_rw_cmds (text "32") size_32) rest4 (pair-IsOrderlyTable (text "32") size_32) (
          both (smbus_rw_cmds (text "64") size_64) rest5 (pair-IsOrderlyTable (text "64") size_64) (
            both (smbus_rw_cmds (text "block") size_block) smbus_other_cmds
              (pair-IsOrderlyTable (text "block") size_block) others-IsOrderlyTable))))

abbrev pub IsOrderlyGroup : CmdGroup → Type 0
IsOrderlyGroup g = IsOrderlyTable g.commands

pub program_groups-IsOrderlyGroup :
    (machine : Machine) (locals : Locals) (fuel : ℕ)
    → All IsOrderlyGroup (program_groups machine locals fuel)
unfolding program_groups cmos_group io_group logic_group misc_group mmio_group mem_group pci_group
    smbus_group msr_group scom_group mmio_cmds cacheable_mmio_cmds
program_groups-IsOrderlyGroup machine locals fuel = (
  cmos_cmds-IsOrderlyTable,
  (
    io_cmds-IsOrderlyTable,
    (
      logic_cmds-IsOrderlyTable,
      (
        misc_cmds-IsOrderlyTable (is_x86 machine) fuel,
        (
          mmio_table-IsOrderlyTable (text "mmio") o_sync,
          (
            mmio_table-IsOrderlyTable (text "mem") 0,
            (pci_cmds-IsOrderlyTable, (smbus_cmds-IsOrderlyTable, of_machine machine)),
          ),
        ),
      ),
    ),
  ),
)
  where
    of_machine : (m : Machine) → All IsOrderlyGroup (machine_groups m locals)
    of_machine x86 = (msr_cmds-IsOrderlyTable, tt)
    of_machine power = (scom_cmds-IsOrderlyTable locals, tt)
    of_machine other = tt
