-- ===== src/Fat/Fsck.antt =====
-- fat32_fsck and fat32_unmount of fs/fat32.c. A mounted volume has passed the tests of its parameter
-- block, so the test of it in fat32_fsck is left out.
use coffee_os_aurora_refresh.Base.{
  ℕ, zero, suc, ◌+◌, Bool, true, false, ◌&&◌, Option, none, some, ◌==◌, if◌then◌else◌, u32,
}
use coffee_os_aurora_refresh.Base.Fallible.{M, pure, guard, ◌>>=◌, ◌>>◌}
use coffee_os_aurora_refresh.Disk.{Sector, Disks}
use coffee_os_aurora_refresh.Fat.Cache.{Fat, fat32_cache_flush}
use coffee_os_aurora_refresh.Fat.Table.{
  block_size, fat32_read_fat, set_counters, device_read, fat32_update_fsinfo,
}
use coffee_os_aurora_refresh.Fat.Mount.{fat32_sync}

-- Whether n bytes from index i on are the same in two sectors.
unfoldable pub same_bytes : ℕ → ℕ → Sector → Sector → Bool
same_bytes zero i x y = true
same_bytes (suc n) i x y = let rest = same_bytes n (i + 1) x y in if x i == y i then rest else false

module _ {D : Type 0} (disks : Disks D) where
  -- How many of n clusters from one on are free.
  unfoldable pub count_free : ℕ → ℕ → ℕ → M (Fat D) ℕ
  count_free zero cluster free_count s = (some free_count, s)
  count_free (suc n) cluster free_count s =
      (do
        value ← fat32_read_fat disks cluster
        count_free n (cluster + 1) (if value == 0 then free_count + 1 else free_count))
        s

  -- A write to the device that leaves the cache as it is.
  unfoldable pub write_past_cache : ℕ → Sector → M (Fat D) (Unit {0})
  write_past_cache lba x s = elim (disks.write s.disk s.vol.dev lba x) [
    | none ↦ (none, s)
    | some d ↦ (some tt, record s { disk = d })
  ]

  -- The sectors of the second table that differ from the first are overwritten, from sector i on
  -- with n left. The result counts them.
  unfoldable pub repair_loop : ℕ → ℕ → ℕ → M (Fat D) ℕ
  repair_loop zero i issues s = (some issues, s)
  repair_loop (suc n) i issues s =
      (do
        fat1 ← device_read disks (u32 (s.vol.fat_start_lba + i))
        fat2 ← device_read disks (u32 (s.vol.fat2_start_lba + i))
        λ t.
            let same = repair_loop n (i + 1) issues t in
            let repaired : Option ℕ × Fat D =
              (do
                write_past_cache (u32 (s.vol.fat2_start_lba + i)) fat1
                repair_loop n (i + 1) (issues + 1))
                t in
            if same_bytes block_size 0 fat1 fat2 then same else repaired)
        s

  -- fat32_fsck of a mounted volume: the number of repairs, and none is the code's -1.
  unfoldable pub fat32_fsck : M (Fat D) ℕ
  fat32_fsck s =
      (do
        fat32_cache_flush disks
        sector0 ← device_read disks 0
        guard (sector0 510 == 85 && sector0 511 == 170)
        free_count ← count_free s.vol.total_clusters 2 0
        set_counters disks free_count s.vol.next_free
        issues ←
            repair_loop s.vol.fat_size_32 0 (if free_count == s.vol.free_clusters then 0 else 1)
        fat32_update_fsinfo disks
        pure issues)
        s

  -- fat32_unmount of a volume, mounted or not: whether the slot is mounted afterwards.
  unfoldable pub fat32_unmount : Bool → M (Fat D) Bool
  fat32_unmount mounted s =
      let synced : Option Bool × Fat D = (do fat32_sync disks; pure false) s in
      if mounted then synced else (some false, s)
