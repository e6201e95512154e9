-- ===== src/Fat.antt =====
-- The FAT32 driver of fs/fat32.c.
pub mod Cache
pub mod Table
pub mod Data
pub mod Names
pub mod Mount
pub mod Directory
pub mod Fsck
mod Tests
