-- ===== src/Commands/Balance.antt =====
-- Which commands close what they open, run as the tables and the guard on the arguments run them.
pub mod Tables
use mathlib.Core.Path.{subst}
use iotools.Base.{
  ℕ, suc, ◌≤◌, ◌<◌, ◌+◌, ◌-◌, ◌^◌, Bool, false, ◌||◌, ltb, ◌≡◌, refl, sym, ◌∙◌, true, not, ◌&&◌,
  List, [], ◌∷◌, ◌++◌, none, some, arith, ◌==◌, if◌then◌else◌, length, All, Bool-cases, inl, inr,
}
use iotools.Base.Int.{ℤ}
use iotools.Libc.Text.{Text, text, str_eq}
use iotools.Libc.Strtoul.{strtoul}
use iotools.Kernel.Bounds.{IsBounded}
use iotools.Kernel.{Kernel, Log, Outcome, done, replaced, running, undefined, M, raised}
use iotools.Kernel.Devices.{Keeps, open_count}
use iotools.Command.{PrereqParams, CmdInfo, SizeParam, fixed_args, make_cmd_with_params}
use iotools.Commands.Prereqs.{run_located}
use iotools.Commands.Prereqs.Laws.{permitted, run_located_refused, run_located-permitted}

abbrev pub is_dump : Text → Bool
is_dump command = str_eq command (text "mmio_dump") || str_eq command (text "mem_dump")

-- A dump of more bytes than an unsigned int counts, but for the last 64 KiB.
unfoldable pub is_long_dump : Text → List Text → Bool
unfolding str_eq
is_long_dump command (a ∷ b ∷ args) = is_dump command && ltb (2 ^ 32 - 2 ^ 16) (strtoul 0 b).0
is_long_dump command args = false

pub long_enough :
    (command a b : Text) (args : List Text)
    → is_dump command ≡ true
    → is_long_dump command (a ∷ b ∷ args) ≡ false
    → (strtoul 0 b).0 + 2 ^ 16 ≤ 2 ^ 32
unfolding is_long_dump
long_enough command a b args named modest =
    let fits : ltb (2 ^ 32 - 2 ^ 16) (strtoul 0 b).0 ≡ false = rw named at modest in ground arith

-- An int counts the characters of each argument, and the line asks for no dump that is too long.
abbrev pub IsModest : Text → List Text → Type 0
IsModest command args =
    All (λ (s : Text). length s < 2 ^ 31) args × (is_long_dump command args ≡ false)

-- On a system within its bounds, and if the line is modest, the command returns, and every descriptor
-- is left open or closed as it was before.
abbrev pub IsBalanced : CmdInfo → Type 0
IsBalanced c =
    (k : Kernel) (log : Log) (name : Text) (args : List Text) (fd : ℕ)
    → IsBounded k
    → IsModest c.name args
    → Keeps fd log (run_located (name ∷ args) c k log)

Keeps-weaken :
    {A : Type 0} (fd : ℕ) (log log' : Log) (o : Outcome A)
    → open_count fd log' ≡ open_count fd log
    → Keeps fd log' o
    → Keeps fd log o
Keeps-weaken fd log log' (done a log'') same h = h ∙ same
Keeps-weaken fd log log' (replaced log'') same h = absurd h
Keeps-weaken fd log log' (running log'') same h = absurd h
Keeps-weaken fd log log' undefined same h = absurd h

-- A command is balanced if its entry point is for the numbers of arguments that its parameters allow.
pub guarded-IsBalanced :
    (c : CmdInfo) (p : PrereqParams)
    → c.params ≡ some p
    → ((name : Text) (args : List Text) (k : Kernel) (log : Log) (fd : ℕ)
        → p.min_args ≤ suc (length args)
        → suc (length args) ≤ p.max_args
        → IsBounded k
        → IsModest c.name args
        → Keeps fd log (c.entry c.sizedata (name ∷ args) k log))
    → IsBalanced c
guarded-IsBalanced c p e keeps k log name args fd bounded modest =
    elim (Bool-cases (permitted k log p (name ∷ args))) [
      | inl granted ↦
          let raised_log : Log =
            if k.arch_x86 && not (p.iopl_needed == 0)
            then raised p.iopl_needed true ∷ log
            else log in
          subst (Keeps fd log) (sym (run_located-permitted k log (name ∷ args) c p e granted)) (
            Keeps-weaken fd log raised_log (c.entry c.sizedata (name ∷ args) k raised_log)
              (unfold open_count in ground arith)
              (keeps name args k raised_log fd (ground arith) (ground arith) bounded modest))
      | inr refused ↦
          subst (Keeps fd log) (sym (run_located_refused k log name args c p e refused))
            (unfold open_count in ground arith)
    ]

-- What holds of a list of a length, by its elements.
module _ (P : List Text → Type 0) where
  pub one_arg :
      ((a : Text) → P (a ∷ []))
      → (args : List Text) → 2 ≤ suc (length args)
      → suc (length args) ≤ 2
      → P args
  one_arg h [] low high = absurd (omega arith)
  one_arg h (a ∷ []) low high = h a
  one_arg h (a ∷ b ∷ args) low high = absurd (omega arith)

  pub two_args :
      ((a b : Text) → P (a ∷ b ∷ []))
      → (args : List Text) → 3 ≤ suc (length args)
      → suc (length args) ≤ 3
      → P args
  two_args h [] low high = absurd (omega arith)
  two_args h (a ∷ []) low high = absurd (omega arith)
  two_args h (a ∷ b ∷ []) low high = h a b
  two_args h (a ∷ b ∷ c ∷ args) low high = absurd (omega arith)

  pub three_args :
      ((a b c : Text) → P (a ∷ b ∷ c ∷ []))
      → (args : List Text) → 4 ≤ suc (length args)
      → suc (length args) ≤ 4
      → P args
  three_args h [] low high = absurd (omega arith)
  three_args h (a ∷ []) low high = absurd (omega arith)
  three_args h (a ∷ b ∷ []) low high = absurd (omega arith)
  three_args h (a ∷ b ∷ c ∷ []) low high = h a b c
  three_args h (a ∷ b ∷ c ∷ d ∷ args) low high = absurd (omega arith)

  pub four_args :
      ((a b c d : Text) → P (a ∷ b ∷ c ∷ d ∷ []))
      → (args : List Text) → 5 ≤ suc (length args)
      → suc (length args) ≤ 5
      → P args
  four_args h [] low high = absurd (omega arith)
  four_args h (a ∷ []) low high = absurd (omega arith)
  four_args h (a ∷ b ∷ []) low high = absurd (omega arith)
  four_args h (a ∷ b ∷ c ∷ []) low high = absurd (omega arith)
  four_args h (a ∷ b ∷ c ∷ d ∷ []) low high = h a b c d
  four_args h (a ∷ b ∷ c ∷ d ∷ e ∷ args) low high = absurd (omega arith)

-- Commands without a size.
module _ (name usage : Text) (entry : SizeParam → List Text → M ℤ) where
  abbrev KeepsWith : List Text → Type 0
  KeepsWith args =
      (name : Text) (k : Kernel) (log : Log) (fd : ℕ)
      → IsBounded k
      → All (λ (s : Text). length s < 2 ^ 31) args
      → Keeps fd log (entry none (name ∷ args) k log)

  pub with_one :
      ((a : Text) → KeepsWith (a ∷ []))
      → IsBalanced (make_cmd_with_params name entry (fixed_args 2 usage 0))
  with_one h =
      guarded-IsBalanced (make_cmd_with_params name entry (fixed_args 2 usage 0))
        (fixed_args 2 usage 0) refl
        (λ name args k log fd low high bounded modest.
          one_arg KeepsWith h args low high name k log fd bounded modest.0)

  pub with_two :
      ((a b : Text) → KeepsWith (a ∷ b ∷ []))
      → IsBalanced (make_cmd_with_params name entry (fixed_args 3 usage 0))
  with_two h =
      guarded-IsBalanced (make_cmd_with_params name entry (fixed_args 3 usage 0))
        (fixed_args 3 usage 0) refl
        (λ name args k log fd low high bounded modest.
          two_args KeepsWith h args low high name k log fd bounded modest.0)

  pub with_three :
      ((a b c : Text) → KeepsWith (a ∷ b ∷ c ∷ []))
      → IsBalanced (make_cmd_with_params name entry (fixed_args 4 usage 0))
  with_three h =
      guarded-IsBalanced (make_cmd_with_params name entry (fixed_args 4 usage 0))
        (fixed_args 4 usage 0) refl
        (λ name args k log fd low high bounded modest.
          three_args KeepsWith h args low high name k log fd bounded modest.0)

  pub with_four :
      ((a b c d : Text) → KeepsWith (a ∷ b ∷ c ∷ d ∷ []))
      → IsBalanced (make_cmd_with_params name entry (fixed_args 5 usage 0))
  with_four h =
      guarded-IsBalanced (make_cmd_with_params name entry (fixed_args 5 usage 0))
        (fixed_args 5 usage 0) refl
        (λ name args k log fd low high bounded modest.
          four_args KeepsWith h args low high name k log fd bounded modest.0)
