-- ===== src/Fat/Cache.antt =====
-- The sector cache of fs/fat32.c: 32 direct-mapped slots, written back when a slot is needed for
-- another block or on a flush. A sector buffer is copied whole.
use coffee_os_aurora_refresh.Base.{
  ℕ, zero, suc, ◌+◌, ◌%◌, Bool, true, false, not, ◌&&◌, ◌||◌, Option, none, some, Array, update,
  ltb, ◌==◌, if◌then◌else◌,
}
use coffee_os_aurora_refresh.Base.Fallible.{M, pure, fail, guard, modify, gets, ◌>>=◌, ◌>>◌}
use coffee_os_aurora_refresh.Disk.{Sector, Disks}
pub mod View
pub mod Ops
pub mod Flush

-- FAT32_CACHE_BLOCKS
abbrev pub cache_blocks : ℕ
cache_blocks = 32

-- struct SectorCacheEntry with the slot's sector_cache_owner.
pub record SectorCacheEntry : Type 0 where
  pub lba : ℕ
  pub dirty : Bool
  pub valid : Bool
  pub bytes : Sector
  pub owner : Option ℕ

-- struct Fat32Volume: the device, the fields of its BPB that are used after mounting, the
-- geometry, and the counters.
pub record Fat32Volume : Type 0 where
  pub dev : ℕ
  pub fs_info_sector : ℕ
  pub backup_boot_sector : ℕ
  pub fat_size_32 : ℕ
  pub fat_start_lba : ℕ
  pub fat2_start_lba : ℕ
  pub data_start_lba : ℕ
  pub sectors_per_cluster : ℕ
  pub bytes_per_cluster : ℕ
  pub root_cluster : ℕ
  pub total_clusters : ℕ
  pub free_clusters : ℕ
  pub next_free : ℕ

-- The cache, the volume that a call is about, and the devices.
pub record Fat (D : Type 0) : Type 0 where
  pub sector_cache : Array SectorCacheEntry
  pub vol : Fat32Volume
  pub disk : D

abbrev pub owned_by : Option ℕ → ℕ → Bool
owned_by none dev = false
owned_by (some o) dev = o == dev

-- A slot holds a block of a device.
abbrev pub caches : SectorCacheEntry → ℕ → ℕ → Bool
caches e dev lba = e.valid && e.lba == lba && owned_by e.owner dev

abbrev pub no_owner : Option ℕ → Bool
no_owner none = true
no_owner (some o) = false

module _ {D : Type 0} (disks : Disks D) where
  -- The write of a slot to the device that owns it.
  unfoldable pub write_back : SectorCacheEntry → D → Option D
  write_back e d = elim e.owner [ none ↦ some d | some o ↦ disks.write d o e.lba e.bytes ]

  unfoldable pub cache_flush_slot : ℕ → M (Fat D) (Unit {0})
  cache_flush_slot slot s =
      let e = s.sector_cache slot in
      let written : Option (Unit {0}) × Fat D = elim (write_back e s.disk) [
        | none ↦ (none, s)
        | some d ↦ (
          some tt,
          record s {
            sector_cache = update s.sector_cache slot (record e { dirty = false });
            disk = d;
          },
        )
      ] in
      if not (ltb slot cache_blocks) || not e.valid || not e.dirty || no_owner e.owner
      then (some tt, s)
      else written

  -- A read from the volume's device into a slot. A read that fails is taken to leave the slot as it is.
  unfoldable pub fill_slot : ℕ → ℕ → M (Fat D) (Unit {0})
  fill_slot slot lba s = elim (disks.read s.disk s.vol.dev lba) [
    | none ↦ (none, s)
    | some x ↦ (
      some tt,
      record s {
        sector_cache =
            update s.sector_cache slot (record {
              lba = lba;
              dirty = false;
              valid = true;
              bytes = x;
              owner = some s.vol.dev;
            });
      },
    )
  ]

  unfoldable pub cache_read : ℕ → M (Fat D) Sector
  cache_read lba s =
      let slot = lba % cache_blocks in
      let missed : Option Sector × Fat D =
        (do cache_flush_slot slot; fill_slot slot lba; gets (λ t. (t.sector_cache slot).bytes)) s in
      if caches (s.sector_cache slot) s.vol.dev lba
      then (some (s.sector_cache slot).bytes, s)
      else missed

  -- The slot given over to a block of the volume's device, with its bytes.
  unfoldable pub put_slot : ℕ → ℕ → Sector → M (Fat D) (Unit {0})
  put_slot slot lba x s = (
    some tt,
    record s {
      sector_cache =
          update s.sector_cache slot
            (record { lba = lba; dirty = true; valid = true; bytes = x; owner = some s.vol.dev });
    },
  )

  unfoldable pub cache_write : ℕ → Sector → M (Fat D) (Unit {0})
  cache_write lba x s =
      let slot = lba % cache_blocks in
      let missed : Option (Unit {0}) × Fat D = (do cache_flush_slot slot; put_slot slot lba x) s in
      if caches (s.sector_cache slot) s.vol.dev lba then put_slot slot lba x s else missed

  -- The loop of fat32_cache_flush, from slot i on with n slots left.
  unfoldable pub flush_slots : ℕ → ℕ → M (Fat D) (Unit {0})
  flush_slots zero i s = (some tt, s)
  flush_slots (suc n) i s =
      let flushed : Option (Unit {0}) × Fat D = (cache_flush_slot i >> flush_slots n (i + 1)) s in
      let rest = flush_slots n (i + 1) s in
      if owned_by (s.sector_cache i).owner s.vol.dev then flushed else rest

  unfoldable pub fat32_cache_flush : M (Fat D) (Unit {0})
  fat32_cache_flush = flush_slots cache_blocks 0

  unfoldable pub cache_invalidate_lba : ℕ → M (Fat D) (Unit {0})
  cache_invalidate_lba lba s =
      let slot = lba % cache_blocks in
      let e = s.sector_cache slot in
      (
        some tt,
        if caches e s.vol.dev lba
            then record s {
              sector_cache =
                  update s.sector_cache slot
                    (record e { valid = false; dirty = false; owner = none });
            }
            else s,
      )
