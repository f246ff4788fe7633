-- ===== src/Iotools.antt =====
-- iotools.c: the options of the binary itself, and `main`.
pub mod Fallback
pub mod Main
