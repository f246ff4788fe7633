-- ===== src/Commands/Safety.antt =====
-- The guard on the number of arguments makes every access to argv of an entry point safe.
pub mod Steps
pub mod Entries
pub mod WriteRead
pub mod Tables
use mathlib.Core.Path.{subst}
use iotools.Base.{
  ℕ, suc, ◌≤◌, ◌≡◌, refl, true, not, ◌&&◌, List, [], ◌∷◌, ◌++◌, none, some, arith, ◌==◌,
  if◌then◌else◌, length, All, All-append, Bool-cases, inl, inr, sym, take,
}
use iotools.Base.Int.{ℤ}
use iotools.Libc.Text.{Text, text}
use iotools.Kernel.{Kernel, Log, Outcome, done, replaced, running, undefined, M, raised}
use iotools.Kernel.Devices.{Keeps}
use iotools.Command.{
  PrereqParams, CmdInfo, SizeParam, fixed_args, var_args, make_cmd_with_params,
  make_cmd_with_params_size,
}
use iotools.Commands.Prereqs.{run_located}
use iotools.Commands.Prereqs.Laws.{permitted, run_located_refused, run_located-permitted}
use iotools.Commands.Balance.{one_arg, two_args}
use iotools.Pci.{
  rd_params, wr_params, pci_read_x, pci_write_x, parse_args, open_device, pci_rw_cmds,
}

-- The function returns, the process is replaced, or a loop goes on.
abbrev pub Defined : {A : Type 0} → Outcome A → Type 0
Defined (done a log) = Unit {0}
Defined (replaced log) = Unit {0}
Defined (running log) = Unit {0}
Defined undefined = ⊥

abbrev pub IsSafe : CmdInfo → Type 0
IsSafe c =
    (k : Kernel) (log : Log) (name : Text) (args : List Text)
    → Defined (run_located (name ∷ args) c k log)

pub Keeps-Defined : {A : Type 0} (fd : ℕ) (log : Log) (o : Outcome A) → Keeps fd log o → Defined o
Keeps-Defined fd log (done a log') h = tt
Keeps-Defined fd log (replaced log') h = absurd h
Keeps-Defined fd log (running log') h = absurd h
Keeps-Defined fd log undefined h = absurd h

-- A line is safe if the entry point is, for a number of arguments that the parameters allow.
pub guarded-Defined :
    (c : CmdInfo) (p : PrereqParams) (name : Text) (args : List Text) (k : Kernel) (log : Log)
    → c.params ≡ some p
    → ((log' : Log)
        → p.min_args ≤ suc (length args)
        → suc (length args) ≤ p.max_args
        → Defined (c.entry c.sizedata (name ∷ args) k log'))
    → Defined (run_located (name ∷ args) c k log)
guarded-Defined c p name args k log e safe = elim (Bool-cases (permitted k log p (name ∷ args))) [
  | inl granted ↦
      let raised_log : Log =
        if k.arch_x86 && not (p.iopl_needed == 0) then raised p.iopl_needed true ∷ log else log in
      subst Defined (sym (run_located-permitted k log (name ∷ args) c p e granted))
        (safe raised_log (ground arith) (ground arith))
  | inr refused ↦ subst Defined (sym (run_located_refused k log name args c p e refused)) tt
]

-- Without parameters the entry point is called at once.
pub unguarded-Defined :
    (c : CmdInfo) (name : Text) (args : List Text) (k : Kernel) (log : Log)
    → c.params ≡ none
    → Defined (c.entry c.sizedata (name ∷ args) k log)
    → Defined (run_located (name ∷ args) c k log)
unfolding run_located
unguarded-Defined c name args k log e h = rw e h

-- A command whose entry point is safe for the numbers of arguments that its parameters allow is safe
-- for all.
pub guarded-IsSafe :
    (c : CmdInfo) (p : PrereqParams)
    → c.params ≡ some p
    → ((name : Text) (args : List Text) (k : Kernel) (log : Log)
        → p.min_args ≤ suc (length args)
        → suc (length args) ≤ p.max_args
        → Defined (c.entry c.sizedata (name ∷ args) k log))
    → IsSafe c
guarded-IsSafe c p e safe k log name args =
    guarded-Defined c p name args k log e (λ log'. safe name args k log')

pci_read_x-Defined_four :
    (size : SizeParam) (name a b c d : Text) (k : Kernel) (log : Log)
    → Defined (pci_read_x size (name ∷ a ∷ b ∷ c ∷ d ∷ []) k log)
unfolding pci_read_x parse_args open_device
pci_read_x-Defined_four size name a b c d k log = ground arith

pci_read_x-Defined_five :
    (size : SizeParam) (name a b c d e : Text) (k : Kernel) (log : Log)
    → Defined (pci_read_x size (name ∷ a ∷ b ∷ c ∷ d ∷ e ∷ []) k log)
unfolding pci_read_x parse_args open_device
pci_read_x-Defined_five size name a b c d e k log = ground arith

pci_write_x-Defined_five :
    (size : SizeParam) (name a b c d e : Text) (k : Kernel) (log : Log)
    → Defined (pci_write_x size (name ∷ a ∷ b ∷ c ∷ d ∷ e ∷ []) k log)
unfolding pci_write_x parse_args open_device
pci_write_x-Defined_five size name a b c d e k log = ground arith

pci_write_x-Defined_six :
    (size : SizeParam) (name a b c d e f : Text) (k : Kernel) (log : Log)
    → Defined (pci_write_x size (name ∷ a ∷ b ∷ c ∷ d ∷ e ∷ f ∷ []) k log)
unfolding pci_write_x parse_args open_device
pci_write_x-Defined_six size name a b c d e f k log = ground arith

pci_read_x-Defined :
    (size : SizeParam) (name : Text) (args : List Text) (k : Kernel) (log : Log)
    → 5 ≤ suc (length args)
    → suc (length args) ≤ 6
    → Defined (pci_read_x size (name ∷ args) k log)
pci_read_x-Defined size name [] k log low high = absurd (omega arith)
pci_read_x-Defined size name (a ∷ []) k log low high = absurd (omega arith)
pci_read_x-Defined size name (a ∷ b ∷ []) k log low high = absurd (omega arith)
pci_read_x-Defined size name (a ∷ b ∷ c ∷ []) k log low high = absurd (omega arith)
pci_read_x-Defined size name (a ∷ b ∷ c ∷ d ∷ []) k log low high =
    pci_read_x-Defined_four size name a b c d k log
pci_read_x-Defined size name (a ∷ b ∷ c ∷ d ∷ e ∷ []) k log low high =
    pci_read_x-Defined_five size name a b c d e k log
pci_read_x-Defined size name (a ∷ b ∷ c ∷ d ∷ e ∷ f ∷ args) k log low high = absurd (omega arith)

pci_write_x-Defined :
    (size : SizeParam) (name : Text) (args : List Text) (k : Kernel) (log : Log)
    → 6 ≤ suc (length args)
    → suc (length args) ≤ 7
    → Defined (pci_write_x size (name ∷ args) k log)
pci_write_x-Defined size name [] k log low high = absurd (omega arith)
pci_write_x-Defined size name (a ∷ []) k log low high = absurd (omega arith)
pci_write_x-Defined size name (a ∷ b ∷ []) k log low high = absurd (omega arith)
pci_write_x-Defined size name (a ∷ b ∷ c ∷ []) k log low high = absurd (omega arith)
pci_write_x-Defined size name (a ∷ b ∷ c ∷ d ∷ []) k log low high = absurd (omega arith)
pci_write_x-Defined size name (a ∷ b ∷ c ∷ d ∷ e ∷ []) k log low high =
    pci_write_x-Defined_five size name a b c d e k log
pci_write_x-Defined size name (a ∷ b ∷ c ∷ d ∷ e ∷ f ∷ []) k log low high =
    pci_write_x-Defined_six size name a b c d e f k log
pci_write_x-Defined size name (a ∷ b ∷ c ∷ d ∷ e ∷ f ∷ g ∷ args) k log low high =
    absurd (omega arith)

reading-IsSafe :
    (name : Text) (bits : ℕ) → IsSafe (make_cmd_with_params_size name pci_read_x rd_params bits)
reading-IsSafe name bits =
    guarded-IsSafe (make_cmd_with_params_size name pci_read_x rd_params bits) rd_params refl
      (pci_read_x-Defined (some bits))

writing-IsSafe :
    (name : Text) (bits : ℕ) → IsSafe (make_cmd_with_params_size name pci_write_x wr_params bits)
writing-IsSafe name bits =
    guarded-IsSafe (make_cmd_with_params_size name pci_write_x wr_params bits) wr_params refl
      (pci_write_x-Defined (some bits))

pub pci_rw_cmds-IsSafe : All IsSafe pci_rw_cmds
unfolding pci_rw_cmds
pci_rw_cmds-IsSafe = (
  reading-IsSafe (text "pci_read8") 8,
  (
    writing-IsSafe (text "pci_write8") 8,
    (
      reading-IsSafe (text "pci_read16") 16,
      (
        writing-IsSafe (text "pci_write16") 16,
        (reading-IsSafe (text "pci_read32") 32, (writing-IsSafe (text "pci_write32") 32, tt)),
      ),
    ),
  ),
)
