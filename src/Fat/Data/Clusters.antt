-- ===== src/Fat/Data/Clusters.antt =====
-- Whole clusters of fs/fat32.c read and written through the cache.
use coffee_os_aurora_refresh.Base.{
  ℕ, ◌+◌, ◌-◌, ◌*◌, ◌/◌, ◌%◌, ◌≤◌, ◌<◌, ◌≡◌, ◌≢◌, ◌∙◌, ap, fun_ext, inl, inr, le→leb, lt_cases,
  Bool, true, false, some, Array, ltb, if◌then◌else◌, sub32, arith,
}
use native.Mathlib.Nat.{mul-le-mul_right}
use coffee_os_aurora_refresh.Disk.{Sector, Disks, IsDisks}
use coffee_os_aurora_refresh.Fat.Cache.{Fat32Volume, Fat}
use coffee_os_aurora_refresh.Fat.Cache.View.{through, Coherent}
use coffee_os_aurora_refresh.Fat.Table.{block_size, in_volume, fat_sector}
use coffee_os_aurora_refresh.Fat.Table.View.{VolumeOk, table_start}
use coffee_os_aurora_refresh.Fat.Table.Entries.{Store, at, cluster_bounds, Keeps}
use coffee_os_aurora_refresh.Fat.Table.Copies.{entry, fat_entry_of, sector_bounds}
use coffee_os_aurora_refresh.Fat.Data.{
  scratch_size, fat32_cluster_to_lba, fat32_read_cluster, fat32_write_cluster,
}
use coffee_os_aurora_refresh.Fat.Data.Sectors.{
  stored_blocks, stored_in, stored_out, Takes, read_sectors_lem, write_sectors_lem,
}

-- The cluster size of a mounted volume.
pub record ClustersOk (vol : Fat32Volume) : Type 0 where
  pub some_sectors : 0 < vol.sectors_per_cluster
  pub bytes : vol.bytes_per_cluster ≡ vol.sectors_per_cluster * block_size
  pub small : vol.bytes_per_cluster ≤ scratch_size

module _ {D : Type 0} (disks : Disks D) (is : IsDisks disks) where
  open is use {accepts}

  -- The bytes of a cluster, as the cache shows them.
  abbrev pub cluster_bytes : Fat D → ℕ → Array ℕ
  cluster_bytes s c j =
      through disks is s s.vol.dev (fat32_cluster_to_lba s.vol c + j / block_size) (j % block_size)

  pub cluster_lba :
      (vol : Fat32Volume) (c : ℕ)
      → VolumeOk accepts vol
      → in_volume vol c ≡ true
      → (fat32_cluster_to_lba vol c ≡ vol.data_start_lba + (c - 2) * vol.sectors_per_cluster)
        × (vol.data_start_lba + (c - 2) * vol.sectors_per_cluster + vol.sectors_per_cluster
            ≤ vol.data_start_lba + vol.total_clusters * vol.sectors_per_cluster)
  unfolding fat32_cluster_to_lba
  cluster_lba vol c ok i =
      let (lo, hi) = cluster_bounds vol c ok.clusters i in
      let room : (c - 2 + 1) * vol.sectors_per_cluster
          ≤ vol.total_clusters * vol.sectors_per_cluster =
        mul-le-mul_right vol.sectors_per_cluster (omega arith) in
      let room' : (c - 2) * vol.sectors_per_cluster + vol.sectors_per_cluster
          ≤ vol.total_clusters * vol.sectors_per_cluster =
        grind arith in
      let first : sub32 c 2 ≡ c - 2 = omega (arith, ok.clusters) in
      (rw first (omega (arith, ok.size)), omega arith)

  cluster-Takes :
      (s : Fat D) (c : ℕ)
      → VolumeOk accepts s.vol
      → in_volume s.vol c ≡ true
      → Takes disks is s (fat32_cluster_to_lba s.vol c + 0) s.vol.sectors_per_cluster
  cluster-Takes s c ok i l from to =
      let (e, room) = cluster_lba s.vol c ok i in (ok.takes l (omega arith), omega (arith, ok.size))

  -- fat32_read_cluster.
  pub fat32_read_cluster-cluster_bytes :
      (s : Fat D) (c : ℕ) (buf : Array ℕ)
      → VolumeOk accepts s.vol
      → ClustersOk s.vol
      → Coherent disks is s
      → in_volume s.vol c ≡ true
      → (y : Store D) × (fat32_read_cluster disks c buf s ≡ (
        some (λ j. if ltb j s.vol.bytes_per_cluster then cluster_bytes s c j else buf j),
        at s y,
      ))
        × Keeps disks is s y (through disks is s s.vol.dev)
  unfolding fat32_read_cluster
  fat32_read_cluster-cluster_bytes s c buf ok size k i =
      let (y, e, p) =
        read_sectors_lem disks is s.vol.sectors_per_cluster 0 (fat32_cluster_to_lba s.vol c) buf s k
          (cluster-Takes s c ok i) in
      (
        y,
        rw (i, le→leb s.vol.bytes_per_cluster scratch_size size.small, e)
            (ap (λ (x : Array ℕ). (some x, at s y)) (fun_ext λ j. ground (arith, size.bytes))),
        p,
      )

  -- The block of a byte of another cluster is not one of this cluster.
  other_cluster :
      (vol : Fat32Volume) (blocks : ℕ → Sector) (c d j : ℕ) (buf : Array ℕ)
      → VolumeOk accepts vol
      → ClustersOk vol
      → in_volume vol c ≡ true
      → in_volume vol d ≡ true
      → d ≢ c
      → j < vol.bytes_per_cluster
      → stored_blocks blocks
          (fat32_cluster_to_lba vol c)
          0
          vol.sectors_per_cluster
          buf
          (fat32_cluster_to_lba vol d + j / block_size)
        ≡ blocks (fat32_cluster_to_lba vol d + j / block_size)
  other_cluster vol blocks c d j buf ok size i i' n h =
      let (e, room) = cluster_lba vol c ok i in
      let (e', room') = cluster_lba vol d ok i' in
      let (lo, hi) = cluster_bounds vol c ok.clusters i in
      let (lo', hi') = cluster_bounds vol d ok.clusters i' in
      stored_out blocks (fat32_cluster_to_lba vol c) vol.sectors_per_cluster buf
        (fat32_cluster_to_lba vol d + j / block_size)
        (elim (lt_cases d c) [
          | inl l ↦ inl (
              let gap : (d - 2 + 1) * vol.sectors_per_cluster ≤ (c - 2) * vol.sectors_per_cluster =
                mul-le-mul_right vol.sectors_per_cluster (omega arith) in
              let gap' : (d - 2) * vol.sectors_per_cluster + vol.sectors_per_cluster
                  ≤ (c - 2) * vol.sectors_per_cluster =
                grind arith in
              omega (arith, size.bytes))
          | inr l ↦ inr (
              let gap : (c - 2 + 1) * vol.sectors_per_cluster ≤ (d - 2) * vol.sectors_per_cluster =
                mul-le-mul_right vol.sectors_per_cluster (omega arith) in
              let gap' : (c - 2) * vol.sectors_per_cluster + vol.sectors_per_cluster
                  ≤ (d - 2) * vol.sectors_per_cluster =
                grind arith in
              omega arith)
        ])

  table_kept :
      (vol : Fat32Volume) (blocks : ℕ → Sector) (c e : ℕ) (first : Bool) (buf : Array ℕ)
      → VolumeOk accepts vol
      → in_volume vol c ≡ true
      → in_volume vol e ≡ true
      → stored_blocks blocks
          (fat32_cluster_to_lba vol c)
          0
          vol.sectors_per_cluster
          buf
          (fat_sector (table_start vol first) e)
        ≡ blocks (fat_sector (table_start vol first) e)
  table_kept vol blocks c e first buf ok i i' =
      let (g, room) = cluster_lba vol c ok i in
      stored_out blocks (fat32_cluster_to_lba vol c) vol.sectors_per_cluster buf
        (fat_sector (table_start vol first) e)
        (inl (
          before first
            (sector_bounds accepts vol first e ok (cluster_bounds vol e ok.clusters i').1).1 g))
    where
      before :
          (first : Bool)
          → fat_sector (table_start vol first) e < table_start vol first + vol.fat_size_32
          → fat32_cluster_to_lba vol c ≡ vol.data_start_lba + (c - 2) * vol.sectors_per_cluster
          → fat_sector (table_start vol first) e < fat32_cluster_to_lba vol c
      before true h g = omega (arith, ok.second, ok.behind)
      before false h g = omega (arith, ok.behind)

  -- On a volume that is laid out as VolumeOk says, with clusters of a whole number of sectors
  -- and at most 4096 bytes (ClustersOk), and with a coherent cache: after fat32_write_cluster of
  -- a cluster of the volume, which succeeds, that cluster holds the buffer's bytes, every other
  -- cluster of the volume holds what it held, and no entry of either table has changed.
  pub fat32_write_cluster-cluster_bytes :
      (s : Fat D) (c : ℕ) (buf : Array ℕ)
      → VolumeOk accepts s.vol
      → ClustersOk s.vol
      → Coherent disks is s
      → in_volume s.vol c ≡ true
      → (y : Store D) × (fat32_write_cluster disks c buf s ≡ (some tt, at s y))
        × Coherent disks is (at s y)
        × ((j : ℕ) → j < s.vol.bytes_per_cluster → cluster_bytes (at s y) c j ≡ buf j)
        × ((d j : ℕ)
            → in_volume s.vol d ≡ true
            → d ≢ c
            → j < s.vol.bytes_per_cluster
            → cluster_bytes (at s y) d j ≡ cluster_bytes s d j)
        × ((first : Bool) (e : ℕ)
            → in_volume s.vol e ≡ true
            → entry disks is (at s y) first e ≡ entry disks is s first e)
  unfolding fat32_write_cluster
  fat32_write_cluster-cluster_bytes s c buf ok size k i =
      let (y, e, p) =
        write_sectors_lem disks is s.vol.sectors_per_cluster 0 (fat32_cluster_to_lba s.vol c) buf s
          k (cluster-Takes s c ok i) in
      (
        y,
        rw (i, le→leb s.vol.bytes_per_cluster scratch_size size.small) e,
        p.coherent,
        λ j h.
            ap (λ (x : Sector). x (j % block_size))
              (p.shown (fat32_cluster_to_lba s.vol c + j / block_size))
            ∙ stored_in (through disks is s s.vol.dev) (fat32_cluster_to_lba s.vol c)
                s.vol.sectors_per_cluster buf j (omega (arith, size.bytes)),
        λ d j i' n h.
            ap (λ (x : Sector). x (j % block_size))
              (p.shown (fat32_cluster_to_lba s.vol d + j / block_size)
                ∙ other_cluster s.vol (through disks is s s.vol.dev) c d j buf ok size i i' n h),
        λ first e i'.
            fat_entry_of (through disks is (at s y) s.vol.dev) (through disks is s s.vol.dev)
              (table_start s.vol first) e
              (p.shown (fat_sector (table_start s.vol first) e)
                ∙ table_kept s.vol (through disks is s s.vol.dev) c e first buf ok i i'),
      )
