-- ===== src/Disk.antt =====
-- Block devices as their clients see them: the callbacks `read` and `write` of struct BlockDevice
-- (include/blkdev.h) for one block, and what they promise. A device is known by a number.
use coffee_os_aurora_refresh.Base.{
  ℕ, ◌≡◌, Bool, true, false, ◌&&◌, Option, none, some, Array, ◌==◌, if◌then◌else◌,
}
pub mod Registry
pub mod Blocks
mod Tests

-- The bytes of a block.
abbrev pub Sector : Type 0
Sector = Array ℕ

-- The callbacks of all devices over what the devices hold, `D`: device, block, and its bytes.
pub record Disks (D : Type 0) : Type 0 where
  pub read : D → ℕ → ℕ → Option Sector
  pub write : D → ℕ → ℕ → Sector → Option D

-- The blocks that a device takes, and what a block holds.
pub record IsDisks {D : Type 0} (disks : Disks D) : Type 0 where
  pub accepts : ℕ → ℕ → Bool
  pub holds : D → ℕ → ℕ → Sector
  pub read_in :
      (d : D) (dev lba : ℕ) → accepts dev lba ≡ true → disks.read d dev lba ≡ some (holds d dev lba)
  pub read_out : (d : D) (dev lba : ℕ) → accepts dev lba ≡ false → disks.read d dev lba ≡ none
  pub write_in :
      (d : D) (dev lba : ℕ) (x : Sector)
      → accepts dev lba ≡ true
      → (d' : D) × (disks.write d dev lba x ≡ some d')
        × ((e j : ℕ) → holds d' e j ≡ (if e == dev && j == lba then x else holds d e j))
  pub write_out :
      (d : D) (dev lba : ℕ) (x : Sector) → accepts dev lba ≡ false → disks.write d dev lba x ≡ none
