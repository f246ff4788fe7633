-- ===== src/Libc.antt =====
-- The functions of the C library that the program uses: <string.h> and <stdlib.h> on texts as
-- lists of bytes without the closing NUL, and the conversions of printf. `unsigned long`, `long`
-- and `unsigned long long` have 64 bits, `int` has 32 (the LP64 data model).
pub mod Text
pub mod Print
pub mod Strtoul
pub mod Scan
