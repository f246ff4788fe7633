-- ===== src/Commands/Safety/Tables.antt =====
-- The port commands never read behind the end of argv.
use iotools.Base.{ℕ, refl, List, [], ◌∷◌, some, arith, All}
use iotools.Libc.Text.{Text, text}
use iotools.Kernel.{Kernel, Log}
use iotools.Command.{SizeParam, make_cmd_with_params_size}
use iotools.Commands.Balance.{one_arg, two_args}
use iotools.Commands.Safety.{Defined, IsSafe, guarded-IsSafe}
use iotools.IoPort.{io_cmds, rd_params, wr_params, io_read_x, io_write_x, port_read, port_write}

io_read_x-Defined :
    (size : SizeParam) (name a : Text) (k : Kernel) (log : Log)
    → Defined (io_read_x size (name ∷ a ∷ []) k log)
unfolding io_read_x port_read
io_read_x-Defined size name a k log = ground arith

io_write_x-Defined :
    (size : SizeParam) (name a b : Text) (k : Kernel) (log : Log)
    → Defined (io_write_x size (name ∷ a ∷ b ∷ []) k log)
unfolding io_write_x port_write
io_write_x-Defined size name a b k log = ground arith

reading-IsSafe :
    (name : Text) (bits : ℕ) → IsSafe (make_cmd_with_params_size name io_read_x rd_params bits)
reading-IsSafe name bits =
    guarded-IsSafe (make_cmd_with_params_size name io_read_x rd_params bits) rd_params refl
      (λ name args k log.
        one_arg (λ (s : List Text). Defined (io_read_x (some bits) (name ∷ s) k log))
          (λ a. io_read_x-Defined (some bits) name a k log) args)

writing-IsSafe :
    (name : Text) (bits : ℕ) → IsSafe (make_cmd_with_params_size name io_write_x wr_params bits)
writing-IsSafe name bits =
    guarded-IsSafe (make_cmd_with_params_size name io_write_x wr_params bits) wr_params refl
      (λ name args k log.
        two_args (λ (s : List Text). Defined (io_write_x (some bits) (name ∷ s) k log))
          (λ a b. io_write_x-Defined (some bits) name a b k log) args)

pub io_cmds-IsSafe : All IsSafe io_cmds
unfolding io_cmds
io_cmds-IsSafe = (
  reading-IsSafe (text "io_read8") 8,
  (
    writing-IsSafe (text "io_write8") 8,
    (
      reading-IsSafe (text "io_read16") 16,
      (
        writing-IsSafe (text "io_write16") 16,
        (reading-IsSafe (text "io_read32") 32, (writing-IsSafe (text "io_write32") 32, tt)),
      ),
    ),
  ),
)
