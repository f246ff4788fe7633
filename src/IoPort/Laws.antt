-- ===== src/IoPort/Laws.antt =====
-- The commands on the io ports: which port is accessed, at which width, and with which value.
use iotools.Base.{
  ℕ, ◌+◌, ◌%◌, ◌/◌, ◌^◌, ◌≤◌, ◌<◌, ◌≡◌, refl, ◌⊎◌, inl, inr, true, List, [], ◌∷◌, ◌++◌, some, arith,
  length,
}
use iotools.Base.Int.{pos}
use iotools.Libc.Text.{Text, text}
use iotools.Libc.Strtoul.{strtoul}
use iotools.Libc.Strtoul.Laws.{strtoul-hex_padded}
use iotools.Libc.Print.Laws.{length-hex_padded}
use iotools.Libc.Print.{hex_padded}
use iotools.Kernel.{Kernel, Log, done, read_port, wrote_port, printed}
use iotools.IoPort.{port_read, port_write, io_read_x, io_write_x}

-- The widths that the table of commands has.
abbrev pub IsWidth : ℕ → Type 0
IsWidth bits = (bits ≡ 8) ⊎ ((bits ≡ 16) ⊎ (bits ≡ 32))

IsWidth-digits :
    (bits : ℕ) → IsWidth bits → (1 ≤ bits / 4) × (2 ^ bits ≡ 16 ^ (bits / 4)) × (2 ^ bits < 2 ^ 64)
IsWidth-digits bits (inl e) = rw e (omega arith, refl, omega arith)
IsWidth-digits bits (inr (inl e)) = rw e (omega arith, refl, omega arith)
IsWidth-digits bits (inr (inr e)) = rw e (omega arith, refl, omega arith)

-- On x86 an io_write command makes one port access: of its width, at the low 16 bits of the
-- address, with the low bits of the value.
pub io_write_x_on_x86 :
    (k : Kernel) (log : Log) (bits : ℕ) (name address value : Text) (args : List Text)
    → k.arch_x86 ≡ true
    → IsWidth bits
    → io_write_x (some bits) (name ∷ address ∷ value ∷ args) k log
      ≡ done (pos 0) (
          wrote_port (bits / 8) ((strtoul 0 address).0 % 2 ^ 16) ((strtoul 0 value).0 % 2 ^ bits)
          ∷ log)
unfolding io_write_x port_write
io_write_x_on_x86 k log bits name address value args x86 (inl e) = rw (e, x86)
io_write_x_on_x86 k log bits name address value args x86 (inr (inl e)) = rw (e, x86)
io_write_x_on_x86 k log bits name address value args x86 (inr (inr e)) = rw (e, x86)

-- On x86 an io_read command makes one port access, of its width and at the low 16 bits of the
-- address, and prints a line with two digits for every byte. From this line strtoul gets back the
-- value that the port gave, if it fits the width.
pub io_read_x_on_x86 :
    (k : Kernel) (log : Log) (bits : ℕ) (name address : Text) (args : List Text)
    → k.arch_x86 ≡ true
    → IsWidth bits
    → let port = (strtoul 0 address).0 % 2 ^ 16 in
      let v = k.port_in log (bits / 8) port in
      v < 2 ^ bits
      → (line : Text) × (io_read_x (some bits) (name ∷ address ∷ args) k log
          ≡ done (pos 0) (printed (line ++ text "\n") ∷ read_port (bits / 8) port v ∷ log))
        × (length line ≡ 2 + bits / 4)
        × (strtoul 0 line ≡ (v, []))
io_read_x_on_x86 k log bits name address args x86 w h =
    let v = k.port_in log (bits / 8) ((strtoul 0 address).0 % 2 ^ 16) in
    let (one, digits, small) = IsWidth-digits bits w in
    (
      b'0' ∷ b'x' ∷ hex_padded (bits / 4) v,
      reads w,
      omega (arith, length-hex_padded (bits / 4) v one (omega arith)),
      strtoul-hex_padded (bits / 4) v (omega arith),
    )
  where
    reads :
        IsWidth bits
        → let port = (strtoul 0 address).0 % 2 ^ 16 in
          let v = k.port_in log (bits / 8) port in
          io_read_x (some bits) (name ∷ address ∷ args) k log
          ≡ done (pos 0) (
              printed ((b'0' ∷ b'x' ∷ hex_padded (bits / 4) v) ++ text "\n")
              ∷ read_port (bits / 8) port v
              ∷ log)
    reads (inl e) = unfold io_read_x in unfold port_read in rw (e, x86)
    reads (inr (inl e)) = unfold io_read_x in unfold port_read in rw (e, x86)
    reads (inr (inr e)) = unfold io_read_x in unfold port_read in rw (e, x86)
