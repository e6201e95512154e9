-- ===== src/Paging.antt =====
-- mm/paging.c, two-level i386 paging.
pub mod Defs
pub mod Directory
pub mod Flags
pub mod Mapping
pub mod Translation
pub mod Roundtrip
pub mod Isolation
pub mod UserDirectory
pub mod UserSpace
mod Tests
