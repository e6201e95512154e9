-- ===== src/Fat/Data.antt =====
-- The data of fs/fat32.c: whole clusters, and the bytes of a cluster chain. A buffer is a C array;
-- `scratch` is what fat32_cluster_scratch holds before a call.
use coffee_os_aurora_refresh.Base.{
  ℕ, zero, suc, ◌+◌, ◌-◌, ◌*◌, ◌/◌, ◌%◌, Bool, true, false, not, ◌&&◌, ◌||◌, Option, none, some,
  Array, ltb, leb, ◌==◌, if◌then◌else◌, u32, sub32,
}
use coffee_os_aurora_refresh.Base.Integers.{ℤ, to_int}
use coffee_os_aurora_refresh.Base.Fallible.{M, pure, fail, guard, and_then, ◌>>=◌, ◌>>◌}
use coffee_os_aurora_refresh.Disk.{Sector, Disks}
use coffee_os_aurora_refresh.Fat.Cache.{
  Fat32Volume, Fat, cache_read, cache_write, fat32_cache_flush,
}
use coffee_os_aurora_refresh.Fat.Table.{
  fat32_bad, block_size, in_volume, last_value, fat32_read_fat, fat32_write_fat,
  fat32_write_barrier, fat32_alloc_cluster, fat32_get_nth_cluster,
}
pub mod Sectors
pub mod Clusters
pub mod Pieces
pub mod Reading

-- FAT32_CLUSTER_SCRATCH_SIZE
abbrev pub scratch_size : ℕ
scratch_size = 4096

unfoldable pub fat32_cluster_to_lba : Fat32Volume → ℕ → ℕ
fat32_cluster_to_lba vol cluster =
    u32 (vol.data_start_lba + u32 (sub32 cluster 2 * vol.sectors_per_cluster))

-- fat32_memcpy: len bytes of a source from index i copied into a buffer at index o.
abbrev pub copied : Array ℕ → ℕ → Array ℕ → ℕ → ℕ → Array ℕ
copied dst o src i len j = if leb o j && ltb j (o + len) then src (i + (j - o)) else dst j

-- The test that both cluster operations start with.
abbrev pub cluster_ok : Fat32Volume → ℕ → Bool
cluster_ok vol cluster = in_volume vol cluster && leb vol.bytes_per_cluster scratch_size

module _ {D : Type 0} (disks : Disks D) where
  -- The loop of fat32_read_cluster from sector i on, with n sectors left.
  unfoldable pub read_sectors : ℕ → ℕ → ℕ → Array ℕ → M (Fat D) (Array ℕ)
  read_sectors zero i lba buf = pure buf
  read_sectors (suc n) i lba buf = do
    x ← cache_read disks (u32 (lba + i))
    read_sectors n (i + 1) lba (copied buf (i * block_size) x 0 block_size)

  unfoldable pub fat32_read_cluster : ℕ → Array ℕ → M (Fat D) (Array ℕ)
  fat32_read_cluster cluster buf s =
      let read =
        read_sectors s.vol.sectors_per_cluster 0 (fat32_cluster_to_lba s.vol cluster) buf s in
      if cluster_ok s.vol cluster then read else (none, s)

  -- The loop of fat32_write_cluster from sector i on, with n sectors left.
  unfoldable pub write_sectors : ℕ → ℕ → ℕ → Array ℕ → M (Fat D) (Unit {0})
  write_sectors zero i lba buf = pure tt
  write_sectors (suc n) i lba buf = do
    cache_write disks (u32 (lba + i)) (λ j. buf (i * block_size + j))
    write_sectors n (i + 1) lba buf

  unfoldable pub fat32_write_cluster : ℕ → Array ℕ → M (Fat D) (Unit {0})
  fat32_write_cluster cluster buf s =
      let written =
        write_sectors s.vol.sectors_per_cluster 0 (fat32_cluster_to_lba s.vol cluster) buf s in
      if cluster_ok s.vol cluster then written else (none, s)

  -- The loop of fat32_read_chain, with the rounds left before its safety counter stops it. The
  -- result is the number of bytes read and the buffer.
  unfoldable pub read_loop : ℕ → ℕ → ℕ → Array ℕ → ℕ → ℕ → Array ℕ → M (Fat D) (ℕ × Array ℕ)
  read_loop zero start_cluster byte_offset out len done scratch s =
      let absolute = u32 (byte_offset + done) in
      let walked : Option (ℕ × Array ℕ) × Fat D =
        (do fat32_get_nth_cluster disks start_cluster (absolute / s.vol.bytes_per_cluster); fail)
          s in
      if ltb done len then walked else (some (done, out), s)
  read_loop (suc n) start_cluster byte_offset out len done scratch s =
      let absolute = u32 (byte_offset + done) in
      let cluster_off = absolute % s.vol.bytes_per_cluster in
      let room = s.vol.bytes_per_cluster - cluster_off in
      let chunk = if ltb (len - done) room then len - done else room in
      let round : Option (ℕ × Array ℕ) × Fat D =
        (do
          cluster ← fat32_get_nth_cluster disks start_cluster (absolute / s.vol.bytes_per_cluster)
          λ t.
              let read : Option (ℕ × Array ℕ) × Fat D =
                (do
                  full ← fat32_read_cluster cluster scratch
                  read_loop n start_cluster byte_offset (copied out done full cluster_off chunk) len
                      (done + chunk) full)
                  t in
              if cluster == fat32_bad then (some (done, out), t) else read)
          s in
      if ltb done len then round else (some (done, out), s)

  -- fat32_read_chain. The result is the count of bytes converted to int, and the buffer.
  unfoldable pub fat32_read_chain : ℕ → ℕ → Array ℕ → ℕ → Array ℕ → M (Fat D) (ℤ × Array ℕ)
  fat32_read_chain start_cluster byte_offset buf len scratch s =
      let read : Option (ℤ × Array ℕ) × Fat D =
        and_then (read_loop s.vol.total_clusters start_cluster byte_offset buf len 0 scratch s)
          (λ (done, out). pure (to_int done, out)) in
      if len == 0 then (some (ℤ.pos 0, buf), s) else if ltb start_cluster 2 then (none, s) else read

  -- A cluster taken and filled with zeros; the flush is the caller's.
  unfoldable pub zeroed_cluster : Array ℕ → M (Fat D) ℕ
  zeroed_cluster scratch = do
    added ← fat32_alloc_cluster disks
    λ s.
        (do
          fat32_write_cluster added (λ i. if ltb i s.vol.bytes_per_cluster then 0 else scratch i)
          pure added)
          s

  -- The chain walk of fat32_write_chain, with the steps to go and the rounds left before the safety
  -- counter stops it. It appends a cluster at the end of the chain. The result is the cluster and
  -- the rounds left.
  unfoldable pub extend_loop : ℕ → ℕ → ℕ → Array ℕ → M (Fat D) (ℕ × ℕ)
  extend_loop zero safety current scratch = pure (current, safety)
  extend_loop (suc idx) zero current scratch = do fat32_read_fat disks current; fail
  extend_loop (suc idx) (suc safety) current scratch = do
    next ← fat32_read_fat disks current
    λ s.
        let extended : Option (ℕ × ℕ) × Fat D =
          (do
            added ← zeroed_cluster scratch
            fat32_write_fat disks current added
            fat32_write_barrier disks
            extend_loop idx safety added scratch)
            s in
        let walked = extend_loop idx safety next scratch s in
        if last_value next then extended else walked

  -- The loop of fat32_write_chain. Every round writes a byte at least, so `len` rounds are enough.
  unfoldable pub write_loop : ℕ → ℕ → ℕ → ℕ → Array ℕ → ℕ → ℕ → Array ℕ → M (Fat D) ℕ
  write_loop zero safety chain_start byte_offset buf len done scratch s = (some done, s)
  write_loop (suc n) safety chain_start byte_offset buf len done scratch s =
      let absolute = u32 (byte_offset + done) in
      let cluster_off = absolute % s.vol.bytes_per_cluster in
      let room = s.vol.bytes_per_cluster - cluster_off in
      let chunk = if ltb (len - done) room then len - done else room in
      let round : Option ℕ × Fat D =
        (do
          (current, left) ←
              extend_loop (absolute / s.vol.bytes_per_cluster) safety chain_start scratch
          full ← fat32_read_cluster current scratch
          fat32_write_cluster current (copied full cluster_off buf done chunk)
          write_loop n left chain_start byte_offset buf len (done + chunk) scratch)
          s in
      if ltb done len then round else (some done, s)

  -- fat32_write_chain. The result is the count of bytes converted to int, and the first cluster, which the
  -- code stores through a pointer; a failure gives neither.
  unfoldable pub fat32_write_chain : ℕ → ℕ → Array ℕ → ℕ → Array ℕ → M (Fat D) (ℤ × ℕ)
  fat32_write_chain start_cluster byte_offset buf len scratch s =
      let fresh : Option ℕ × Fat D =
        (do c ← zeroed_cluster scratch; fat32_cache_flush disks; pure c) s in
      let written : Option (ℤ × ℕ) × Fat D =
        and_then (if ltb start_cluster 2 then fresh else (some start_cluster, s)) (λ c. do
          done ← write_loop len s.vol.total_clusters c byte_offset buf len 0 scratch
          pure (to_int done, c)) in
      if len == 0 then (some (ℤ.pos 0, start_cluster), s) else written
