-- ===== src/IoPort/Tests.antt =====
-- Runs of the port commands, and the theorems at concrete data.
use iotools.Base.{◌≡◌, refl, false, [], ◌∷◌, ◌++◌, none, some, inl, inr, arith, length}
use iotools.Base.Int.{pos}
use iotools.Libc.Text.{Text, text}
use iotools.Libc.Print.{hex_padded}
use iotools.Libc.Strtoul.{strtoul}
use iotools.Kernel.{done, printed, complained, opened, read_port, wrote_port}
use iotools.Kernel.Sample.{failing}
use iotools.IoPort.{io_in, io_read_x, io_write_x, port_read, open_port}
use iotools.IoPort.Laws.{io_write_x_on_x86, io_read_x_on_x86}

-- Without the ports' file, a 32-bit read prints 0xffff.
fallback :
    io_read_x
      (some 32)
      (text "io_read32" ∷ text "0x80" ∷ [])
      (record failing { arch_x86 = false })
      []
    ≡ done (pos 0) (
        printed (text "0x0000ffff\n")
        ∷ complained (text "open(\"/dev/port\"): No such file or directory\n")
        ∷ opened (text "/dev/port") 0 none
        ∷ [])
unfolding io_read_x port_read io_in open_port strtoul hex_padded
fallback = refl

io_write_x_on_x86_example :
    io_write_x (some 8) (text "io_write8" ∷ text "0x80" ∷ text "0x1ff" ∷ []) failing []
    ≡ done (pos 0) (wrote_port 1 0x80 0xff ∷ [])
unfolding strtoul
io_write_x_on_x86_example =
    io_write_x_on_x86 failing [] 8 (text "io_write8") (text "0x80") (text "0x1ff") [] refl
      (inl refl)

io_read_x_on_x86_example :
    (line : Text) × (io_read_x (some 16) (text "io_read16" ∷ text "0x80" ∷ []) failing []
      ≡ done (pos 0) (printed (line ++ text "\n") ∷ read_port 2 0x80 0 ∷ []))
    × (length line ≡ 6)
    × (strtoul 0 line ≡ (0, []))
unfolding strtoul
io_read_x_on_x86_example =
    io_read_x_on_x86 failing [] 16 (text "io_read16") (text "0x80") [] refl (inr (inl refl))
      (omega arith)
