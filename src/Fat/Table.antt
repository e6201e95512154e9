-- ===== src/Fat/Table.antt =====
-- The file allocation table of fs/fat32.c: reading and writing entries, both copies, the FSInfo
-- sectors, and the allocation and walking of cluster chains. Every state keeps the volume of the
-- call, so the null tests of `vol` are not modelled. Numbers are 32 bits: `u32` is where the code can wrap.
use coffee_os_aurora_refresh.Base.{
  ℕ, zero, suc, ◌+◌, ◌-◌, ◌*◌, ◌/◌, ◌%◌, Bool, true, false, not, ◌&&◌, ◌||◌, Option, none, some,
  Array, update, ltb, leb, ◌==◌, if◌then◌else◌, u32, sub32,
}
use coffee_os_aurora_refresh.Base.Bytes.{get32, put32}
use coffee_os_aurora_refresh.Base.Fallible.{
  M, pure, fail, guard, modify, gets, or_else, and_then, ◌>>=◌, ◌>>◌,
}
use coffee_os_aurora_refresh.Disk.{Sector, Disks}
use coffee_os_aurora_refresh.Fat.Cache.{
  Fat32Volume, Fat, cache_read, cache_write, cache_invalidate_lba, fat32_cache_flush,
}
pub mod View
pub mod Entries
pub mod Copies
pub mod FsInfo
pub mod Barrier
pub mod Search
pub mod Alloc
pub mod Chains
pub mod Walks
pub mod Freeing

-- FAT32_BAD, FAT32_EOC, BLOCK_SIZE
abbrev pub fat32_bad : ℕ
fat32_bad = 268435447

abbrev pub fat32_eoc : ℕ
fat32_eoc = 268435448

abbrev pub block_size : ℕ
block_size = 512

abbrev pub fat32_is_eoc : ℕ → Bool
fat32_is_eoc value = leb fat32_eoc value

-- The cluster numbers of a volume, as the code tests them.
abbrev pub in_volume : Fat32Volume → ℕ → Bool
in_volume vol cluster = leb 2 cluster && leb cluster (u32 (vol.total_clusters + 1))

-- `value & 0x0FFFFFFF`, and the entry that keeps the top four bits of `old`.
abbrev pub masked : ℕ → ℕ
masked value = value % 268435456

abbrev pub merged : ℕ → ℕ → ℕ
merged old value = old / 268435456 * 268435456 + masked value

-- The sector of an entry within a FAT, and its place in the sector.
abbrev pub fat_sector : ℕ → ℕ → ℕ
fat_sector start cluster = u32 (start + u32 (cluster * 4) / block_size)

abbrev pub fat_offset : ℕ → ℕ
fat_offset cluster = u32 (cluster * 4) % block_size

-- A sector with one FAT entry replaced.
abbrev pub put_entry : Sector → ℕ → ℕ → Sector
put_entry sector offset value = put32 sector offset (merged (get32 sector offset) value)

-- The next cluster number in the cyclic order of the search.
abbrev pub next_cluster : Fat32Volume → ℕ → ℕ
next_cluster vol cluster = if cluster == u32 (vol.total_clusters + 1) then 2 else u32 (cluster + 1)

-- The FSInfo sector as it is written: three signatures when the one read has none, and the counters.
unfoldable pub fsinfo_sector : Sector → ℕ → ℕ → Sector
fsinfo_sector sector free next =
    let signed : Sector =
      if get32 sector 0 == 1096897106 && get32 sector 484 == 1631679090
      then sector
      else put32 (put32 (put32 (λ i. 0) 0 1096897106) 484 1631679090) 508 2857697280 in
    put32 (put32 signed 488 free) 492 next

-- The test that ends a chain walk.
abbrev pub last_value : ℕ → Bool
last_value next = fat32_is_eoc next || next == fat32_bad || next == 0

module _ {D : Type 0} (disks : Disks D) where
  unfoldable pub fat32_read_fat : ℕ → M (Fat D) ℕ
  fat32_read_fat cluster s =
      let read : Option ℕ × Fat D =
        or_else
          ((do
            sector ← cache_read disks (fat_sector s.vol.fat_start_lba cluster)
            gets (λ t. masked (get32 sector (fat_offset cluster))))
            s)
          fat32_bad in
      if in_volume s.vol cluster then read else (some fat32_bad, s)

  -- One copy of an entry.
  unfoldable pub write_entry : ℕ → ℕ → ℕ → M (Fat D) (Unit {0})
  write_entry start cluster value = do
    sector ← cache_read disks (fat_sector start cluster)
    cache_write disks (fat_sector start cluster) (put_entry sector (fat_offset cluster) value)

  unfoldable pub fat32_write_fat : ℕ → ℕ → M (Fat D) (Unit {0})
  fat32_write_fat cluster value s =
      let written : Option (Unit {0}) × Fat D =
        (do
          write_entry s.vol.fat_start_lba cluster value
          write_entry s.vol.fat2_start_lba cluster value)
          s in
      if in_volume s.vol cluster then written else (none, s)

  -- A block read from the volume's device and one written to it, past the cache, whose copy of the
  -- block written is dropped.
  unfoldable pub device_read : ℕ → M (Fat D) Sector
  device_read lba s = (disks.read s.disk s.vol.dev lba, s)

  unfoldable pub device_write : ℕ → Sector → M (Fat D) (Unit {0})
  device_write lba x s = elim (disks.write s.disk s.vol.dev lba x) [
    | none ↦ (none, s)
    | some d ↦ cache_invalidate_lba disks lba (record s { disk = d })
  ]

  unfoldable pub fat32_update_fsinfo : M (Fat D) (Unit {0})
  fat32_update_fsinfo s =
      (do
        sector ← device_read s.vol.fs_info_sector
        device_write s.vol.fs_info_sector (fsinfo_sector sector s.vol.free_clusters s.vol.next_free)
        device_write (u32 (s.vol.backup_boot_sector + 1))
            (fsinfo_sector sector s.vol.free_clusters s.vol.next_free))
        s

  unfoldable pub fat32_write_barrier : M (Fat D) (Unit {0})
  fat32_write_barrier = do fat32_cache_flush disks; fat32_update_fsinfo

  -- The counters of the volume.
  unfoldable pub set_counters : ℕ → ℕ → M (Fat D) (Unit {0})
  set_counters free next s =
      (some tt, record s { vol = record (s.vol) { free_clusters = free; next_free = next } })

  -- The free cluster that the search found, taken.
  unfoldable pub take_cluster : ℕ → M (Fat D) ℕ
  take_cluster cluster s =
      (do
        fat32_write_fat cluster fat32_eoc
        set_counters (s.vol.free_clusters - 1) (next_cluster s.vol cluster)
        fat32_write_barrier
        pure cluster)
        s

  -- The search loop from a cluster on, with n clusters left to look at. It fails where the code
  -- returns FAT32_BAD.
  unfoldable pub search_free : ℕ → ℕ → M (Fat D) ℕ
  search_free zero cluster = fail
  search_free (suc n) cluster = do
    value ← fat32_read_fat cluster
    λ s.
        let rest = search_free n (next_cluster s.vol cluster) s in
        let found = take_cluster cluster s in if value == 0 then found else rest

  unfoldable pub fat32_alloc_cluster : M (Fat D) ℕ
  fat32_alloc_cluster s =
      let start = if in_volume s.vol s.vol.next_free then s.vol.next_free else 2 in
      let found : Option ℕ × Fat D =
        (do set_counters s.vol.free_clusters start; search_free s.vol.total_clusters start) s in
      if s.vol.total_clusters == 0 then (none, s) else found

  -- The loop of fat32_free_chain, with n rounds left before its safety counter stops it. The result
  -- is how many clusters were freed.
  unfoldable pub free_loop : ℕ → ℕ → M (Fat D) ℕ
  free_loop zero current s =
      let stopped : Option ℕ × Fat D = (do fat32_read_fat current; fail) s in
      if in_volume s.vol current then stopped else (some 0, s)
  free_loop (suc n) current s =
      let round : Option ℕ × Fat D =
        (do
          next ← fat32_read_fat current
          fat32_write_fat current 0
          λ t.
              let rest = free_loop n next t in
              if last_value next then (some 1, t) else and_then rest (λ k. pure (suc k)))
          s in
      if in_volume s.vol current then round else (some 0, s)

  unfoldable pub fat32_free_chain : ℕ → M (Fat D) (Unit {0})
  fat32_free_chain cluster s =
      let freed : Option (Unit {0}) × Fat D =
        (do
          k ← free_loop s.vol.total_clusters cluster
          λ t.
              set_counters (u32 (t.vol.free_clusters + k))
                (if ltb cluster t.vol.next_free || ltb t.vol.next_free 2
                  then cluster
                  else t.vol.next_free)
                t
          fat32_write_barrier)
          s in
      if ltb cluster 2 then (some tt, s) else freed

  -- The loop of fat32_chain_length: a walk that its safety counter stops gives FAT32_BAD.
  unfoldable pub length_loop : ℕ → ℕ → ℕ → M (Fat D) ℕ
  length_loop zero current length s =
      let stopped : Option ℕ × Fat D = (do fat32_read_fat current; pure fat32_bad) s in
      if in_volume s.vol current then stopped else (some length, s)
  length_loop (suc n) current length s =
      let round : Option ℕ × Fat D =
        (do
          next ← fat32_read_fat current
          λ t.
              let rest = length_loop n next (length + 1) t in
              if last_value next then (some (length + 1), t) else rest)
          s in
      if in_volume s.vol current then round else (some length, s)

  unfoldable pub fat32_chain_length : ℕ → M (Fat D) ℕ
  fat32_chain_length cluster s = length_loop s.vol.total_clusters cluster 0 s

  -- The loop of fat32_get_nth_cluster with n steps to go, and the rounds left before its safety
  -- counter stops it.
  unfoldable pub nth_loop : ℕ → ℕ → ℕ → M (Fat D) ℕ
  nth_loop zero safety current = pure current
  nth_loop (suc n) zero current = pure fat32_bad
  nth_loop (suc n) (suc safety) current = do
    next ← fat32_read_fat current
    λ t.
        let rest = nth_loop n safety next t in if last_value next then (some fat32_bad, t) else rest

  unfoldable pub fat32_get_nth_cluster : ℕ → ℕ → M (Fat D) ℕ
  fat32_get_nth_cluster start_cluster n s =
      let walk = nth_loop n s.vol.total_clusters start_cluster s in
      if ltb start_cluster 2 then (some fat32_bad, s) else walk
