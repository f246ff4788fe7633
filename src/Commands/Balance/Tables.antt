-- ===== src/Commands/Balance/Tables.antt =====
-- The tables of commands that close what they open.
use iotools.Base.{
  arith, length, suc, ◌≤◌, ℕ, ◌≡◌, refl, true, false, zero, get_elem?, some, List, [], ◌∷◌, ◌++◌,
  none, some, All, All-append, take,
}
use mathlib.Core.Path.{subst}
use iotools.Commands.Prereqs.{run_located}
use iotools.Libc.Text.{Text, text, str_eq}
use iotools.Kernel.Bounds.{IsBounded}
use iotools.Command.{make_cmd_with_params, CmdInfo, fixed_args, make_cmd_with_params_size}
use iotools.Commands.Balance.{
  is_dump, long_enough, IsModest, IsBalanced, guarded-IsBalanced, one_arg, two_args, with_one,
  with_two, with_three, with_four,
}
use iotools.Kernel.{Kernel, Log}
use iotools.Kernel.Devices.{Keeps}
use iotools.Cmos.{cmos_cmds, cmos_rd, cmos_wr}
use iotools.Cmos.Laws.{cmos_rd-Keeps, cmos_wr-Keeps}
use iotools.Msr.{msr_cmds, rd_msr, wr_msr}
use iotools.Msr.Laws.{rd_msr-Keeps, wr_msr-Keeps}
use iotools.Scom.{scom_rw_cmds, rd_scom, wr_scom}
use iotools.Scom.Laws.{rd_scom-Keeps, wr_scom-Keeps}
use iotools.Mmio.Balance.{mmio_dump-Keeps}
use iotools.Mmio.{
  mmio_dump, dump_params, mmio_cmds, cacheable_mmio_cmds, mmio_read_x, mmio_write_x, rw_cmd_pair,
  cmds_of, o_sync,
}
use iotools.Mmio.Mapping.{mmio_read_x-Keeps, mmio_write_x-Keeps}
use iotools.Smbus.{
  SmbusSize, SmbusOp, size_8, size_16, size_32, size_64, size_block, size_byte, quick, proc_call,
  block_proc_call,
}
use iotools.Smbus.Transfer.{
  has_no_register, smbus_read_op, smbus_write_op, smbus_process_call_op,
  smbus_block_process_call_op,
}
use iotools.Smbus.Transfer.Laws.{
  smbus_read_op-IsSame, smbus_write_op-IsSame, smbus_process_call_op-IsSame,
  smbus_block_process_call_op-IsSame,
}
use iotools.Smbus.Commands.{
  smbus_cmds, smbus_rw_cmds, smbus_other_cmds, smbus_read, smbus_write, smbus_process_call,
  make_smbus_op,
}
use iotools.Smbus.Commands.Laws.{
  IsKeeper, smbus_read-Keeps, smbus_write-Keeps, smbus_process_call-Keeps,
}

pub cmos_cmds-IsBalanced : All IsBalanced cmos_cmds
unfolding cmos_cmds
cmos_cmds-IsBalanced = (
  with_one (text "cmos_read") (text "<index>") cmos_rd
      (λ a n k log fd bounded short. cmos_rd-Keeps none n a [] k log fd),
  (
    with_two (text "cmos_write") (text "<index> <data>") cmos_wr
        (λ a b n k log fd bounded short. cmos_wr-Keeps none n a b [] k log fd),
    tt,
  ),
)

pub msr_cmds-IsBalanced : All IsBalanced msr_cmds
unfolding msr_cmds
msr_cmds-IsBalanced = (
  with_two (text "rdmsr") (text "<cpu> <msr>") rd_msr
      (λ a b n k log fd bounded short. rd_msr-Keeps none n a b [] k log fd),
  (
    with_three (text "wrmsr") (text "<cpu> <msr> <data>") wr_msr
        (λ a b c n k log fd bounded short. wr_msr-Keeps none n a b c [] k log fd),
    tt,
  ),
)

pub scom_rw_cmds-IsBalanced : All IsBalanced scom_rw_cmds
unfolding scom_rw_cmds
scom_rw_cmds-IsBalanced = (
  with_two (text "getscom") (text "<chipid> <scom>") rd_scom
      (λ a b n k log fd bounded short. rd_scom-Keeps none n a b [] k log fd),
  (
    with_three (text "putscom") (text "<chipid> <scom> <data>") wr_scom
        (λ a b c n k log fd bounded short. wr_scom-Keeps none n a b c [] k log fd),
    tt,
  ),
)

rw_cmd_pair-IsBalanced :
    (prefix digits : Text) (bits flags : ℕ) → All IsBalanced (rw_cmd_pair prefix digits bits flags)
rw_cmd_pair-IsBalanced prefix digits bits flags = (
  guarded-IsBalanced
      (make_cmd_with_params_size (prefix ++ (text "_read" ++ digits)) (mmio_read_x flags)
        (fixed_args 2 (text "<addr>") 0) bits)
      (fixed_args 2 (text "<addr>") 0) refl
      (λ name args k log fd low high bounded modest.
        one_arg (λ (s : List Text). Keeps fd log (mmio_read_x flags (some bits) (name ∷ s) k log))
          (λ a. mmio_read_x-Keeps flags (some bits) name a [] k log fd) args low high),
  (
    guarded-IsBalanced
        (make_cmd_with_params_size (prefix ++ (text "_write" ++ digits)) mmio_write_x
          (fixed_args 3 (text "<addr> <value>") 0) bits)
        (fixed_args 3 (text "<addr> <value>") 0) refl
        (λ name args k log fd low high bounded modest.
          two_args (λ (s : List Text). Keeps fd log (mmio_write_x (some bits) (name ∷ s) k log))
            (λ a b. mmio_write_x-Keeps (some bits) name a b [] k log fd) args low high),
    tt,
  ),
)

both : (xs ys : List CmdInfo) → All IsBalanced xs → All IsBalanced ys → All IsBalanced (xs ++ ys)
both xs ys = All-append IsBalanced xs ys

dump-IsBalanced :
    (name : Text) (flags : ℕ)
    → is_dump name ≡ true
    → IsBalanced (make_cmd_with_params name (mmio_dump flags) dump_params)
dump-IsBalanced command flags named =
    guarded-IsBalanced (make_cmd_with_params command (mmio_dump flags) dump_params) dump_params refl
      go
  where
    go :
        (name : Text) (args : List Text) (k : Kernel) (log : Log) (fd : ℕ)
        → 3 ≤ suc (length args)
        → suc (length args) ≤ 4
        → IsBounded k
        → IsModest command args
        → Keeps fd log (mmio_dump flags none (name ∷ args) k log)
    go name [] k log fd low high bounded modest = absurd (omega arith)
    go name (a ∷ []) k log fd low high bounded modest = absurd (omega arith)
    go name (a ∷ b ∷ args) k log fd low high bounded modest =
        mmio_dump-Keeps flags none name a b args k log fd (omega arith) bounded.pages
          (long_enough command a b args named modest.1)

mmio_table-IsBalanced :
    (prefix : Text) (flags : ℕ)
    → is_dump (prefix ++ text "_dump") ≡ true
    → All IsBalanced (cmds_of prefix flags)
mmio_table-IsBalanced prefix flags named =
    let pair : Text → ℕ → List CmdInfo = λ digits bits. rw_cmd_pair prefix digits bits flags in
    let last : List CmdInfo =
      make_cmd_with_params (prefix ++ text "_dump") (mmio_dump flags) dump_params ∷ [] in
    let rest4 = pair (text "64") 64 ++ last in
    let rest3 = pair (text "32") 32 ++ rest4 in
    let rest2 = pair (text "16") 16 ++ rest3 in
    both (pair (text "8") 8) rest2 (rw_cmd_pair-IsBalanced prefix (text "8") 8 flags) (
      both (pair (text "16") 16) rest3 (rw_cmd_pair-IsBalanced prefix (text "16") 16 flags) (
        both (pair (text "32") 32) rest4 (rw_cmd_pair-IsBalanced prefix (text "32") 32 flags) (
          both (pair (text "64") 64) last (rw_cmd_pair-IsBalanced prefix (text "64") 64 flags)
            (dump-IsBalanced (prefix ++ text "_dump") flags named, tt))))

abbrev reading : SmbusSize → SmbusOp
reading op_size = make_smbus_op op_size smbus_read_op

abbrev writing : SmbusSize → SmbusOp
writing op_size = make_smbus_op op_size smbus_write_op

reading-IsKeeper : (op_size : SmbusSize) (k : Kernel) → IsBounded k → IsKeeper k (reading op_size)
reading-IsKeeper op_size k bounded params log fd =
    smbus_read_op-IsSame params op_size k log fd bounded

writing-IsKeeper : (op_size : SmbusSize) (k : Kernel) → IsKeeper k (writing op_size)
writing-IsKeeper op_size k params = smbus_write_op-IsSame params op_size k

smbus_rw_cmds-IsBalanced :
    (name : Text) (op_size : SmbusSize)
    → has_no_register op_size ≡ false
    → All IsBalanced (smbus_rw_cmds name op_size)
smbus_rw_cmds-IsBalanced name op_size h = (
  with_three (text "smbus_read" ++ name) (text "<adapter> <address> <register>")
      (smbus_read (reading op_size))
      (λ a b c n k log fd bounded short.
        smbus_read-Keeps (reading op_size) k (reading-IsKeeper op_size k bounded) fd none n a b
          (c ∷ []) log refl),
  (
    with_four (text "smbus_write" ++ name) (text "<adapter> <address> <register> <value>")
        (smbus_write (writing op_size))
        (λ a b c d n k log fd bounded short.
          smbus_write-Keeps (writing op_size) k (writing-IsKeeper op_size k) fd none n a b c d
            (d ∷ []) log (rw h refl) short.1.1.1.0),
    tt,
  ),
)

smbus_other-IsBalanced : All IsBalanced (take 5 smbus_other_cmds)
smbus_other-IsBalanced = (
  with_two (text "smbus_receive_byte") (text "<adapter> <address>") (smbus_read (reading size_byte))
      (λ a b n k log fd bounded short.
        smbus_read-Keeps (reading size_byte) k (reading-IsKeeper size_byte k bounded) fd none n a b
          [] log refl),
  (
    with_three (text "smbus_send_byte") (text "<adapter> <address> <value>")
        (smbus_write (writing size_byte))
        (λ a b c n k log fd bounded short.
          smbus_write-Keeps (writing size_byte) k (writing-IsKeeper size_byte k) fd none n a b c c
            [] log refl short.1.1.0),
    (
      with_three (text "smbus_quick") (text "<adapter> <address> <0|1>")
          (smbus_write (writing quick))
          (λ a b c n k log fd bounded short.
            smbus_write-Keeps (writing quick) k (writing-IsKeeper quick k) fd none n a b c c [] log
              refl short.1.1.0),
      (
        with_four (text "smbus_process_call") (text "<adapter> <address> <register> <value>")
            (smbus_process_call (make_smbus_op proc_call smbus_process_call_op))
            (λ a b c d n k log fd bounded short.
              smbus_process_call-Keeps (make_smbus_op proc_call smbus_process_call_op) k
                (λ params. smbus_process_call_op-IsSame params proc_call k) fd none n a b c d [] log
                short.1.1.1.0),
        (
          with_four (text "smbus_block_process_call")
              (text "<adapter> <address> <register> <value>")
              (smbus_process_call (make_smbus_op block_proc_call smbus_block_process_call_op))
              (λ a b c d n k log fd bounded short.
                smbus_process_call-Keeps (make_smbus_op block_proc_call smbus_block_process_call_op)
                  k
                  (λ params log' fd'.
                    smbus_block_process_call_op-IsSame params block_proc_call k log' fd' bounded)
                  fd none n a b c d [] log short.1.1.1.0),
          tt,
        ),
      ),
    ),
  ),
)

pub smbus_cmds-IsBalanced : All IsBalanced (take 15 smbus_cmds)
unfolding smbus_cmds
smbus_cmds-IsBalanced =
    let rest5 = smbus_rw_cmds (text "block") size_block ++ take 5 smbus_other_cmds in
    let rest4 = smbus_rw_cmds (text "64") size_64 ++ rest5 in
    let rest3 = smbus_rw_cmds (text "32") size_32 ++ rest4 in
    let rest2 = smbus_rw_cmds (text "16") size_16 ++ rest3 in
    both (smbus_rw_cmds (text "8") size_8) rest2 (smbus_rw_cmds-IsBalanced (text "8") size_8 refl) (
      both (smbus_rw_cmds (text "16") size_16) rest3
        (smbus_rw_cmds-IsBalanced (text "16") size_16 refl)
        (both (smbus_rw_cmds (text "32") size_32) rest4
          (smbus_rw_cmds-IsBalanced (text "32") size_32 refl)
          (both (smbus_rw_cmds (text "64") size_64) rest5
            (smbus_rw_cmds-IsBalanced (text "64") size_64 refl)
            (both (smbus_rw_cmds (text "block") size_block) (take 5 smbus_other_cmds)
              (smbus_rw_cmds-IsBalanced (text "block") size_block refl) smbus_other-IsBalanced))))

pub mmio_cmds-IsBalanced : All IsBalanced mmio_cmds
unfolding mmio_cmds str_eq
mmio_cmds-IsBalanced = mmio_table-IsBalanced (text "mmio") o_sync refl

pub cacheable_mmio_cmds-IsBalanced : All IsBalanced cacheable_mmio_cmds
unfolding cacheable_mmio_cmds str_eq
cacheable_mmio_cmds-IsBalanced = mmio_table-IsBalanced (text "mem") 0 refl

abbrev pub balanced_cmds : List CmdInfo
balanced_cmds =
    cmos_cmds
    ++ (msr_cmds ++ (scom_rw_cmds ++ (mmio_cmds ++ (cacheable_mmio_cmds ++ take 15 smbus_cmds))))

balanced_cmds-IsBalanced : All IsBalanced balanced_cmds
balanced_cmds-IsBalanced =
    let rest4 = cacheable_mmio_cmds ++ take 15 smbus_cmds in
    let rest3 = mmio_cmds ++ rest4 in
    let rest2 = scom_rw_cmds ++ rest3 in
    both cmos_cmds (msr_cmds ++ rest2) cmos_cmds-IsBalanced (
      both msr_cmds rest2 msr_cmds-IsBalanced (
        both scom_rw_cmds rest3 scom_rw_cmds-IsBalanced (
          both mmio_cmds rest4 mmio_cmds-IsBalanced (
            both cacheable_mmio_cmds (take 15 smbus_cmds) cacheable_mmio_cmds-IsBalanced
              smbus_cmds-IsBalanced))))

All-get_elem? :
    {A : Type 0} (P : A → Type 0) (xs : List A) (i : ℕ) (x : A)
    → get_elem? xs i ≡ some x
    → All P xs
    → P x
All-get_elem? P [] i x e h = absurd (cc)
All-get_elem? P (y ∷ ys) zero x e h = let same : y ≡ x = cc in subst P same h.0
All-get_elem? P (y ∷ ys) (suc i) x e h = All-get_elem? P ys i x e h.1

-- Run with any list of arguments, and whatever the system answers, every command of the CMOS, MSR,
-- MMIO and MEM tables, getscom and putscom, and every SMBus command but smbus_writeread returns, and
-- leaves each descriptor open or closed as it was before. This needs that an int can count the
-- characters of each argument, that a dump is of 2 ^ 32 - 2 ^ 16 bytes at most, that a page of the
-- system has 2 ^ 16 bytes at most, and that a reply on an SMBus has 32 bytes at most.
pub tables-Keeps :
    (i : ℕ) (c : CmdInfo) (name : Text) (args : List Text) (k : Kernel) (log : Log) (fd : ℕ)
    → get_elem? balanced_cmds i ≡ some c
    → IsBounded k
    → IsModest c.name args
    → Keeps fd log (run_located (name ∷ args) c k log)
tables-Keeps i c name args k log fd e bounded modest =
    All-get_elem? IsBalanced balanced_cmds i c e balanced_cmds-IsBalanced k log name args fd bounded
      modest
