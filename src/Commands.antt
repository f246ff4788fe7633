-- ===== src/Commands.antt =====
-- commands.c: the registered groups, and what is done with them. `group_head`, the list of the
-- registered groups with the newest first, is passed as a value.
pub mod Locate
pub mod Prereqs
pub mod Links
pub mod Run
pub mod Balance
pub mod Safety
pub mod Tests
