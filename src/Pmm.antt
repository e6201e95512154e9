-- ===== src/Pmm.antt =====
-- mem/pmm.c, the physical memory manager.
pub mod Bitmap
pub mod State
pub mod Alloc
pub mod Refs
pub mod Scan
pub mod Count
pub mod Invariant
pub mod Lowest
pub mod Steps
pub mod Sharing
pub mod Reserved
pub mod Init
pub mod Regions
pub mod Boot
pub mod Ready
pub mod Reserve
pub mod Booted
pub mod Sample
mod Tests
