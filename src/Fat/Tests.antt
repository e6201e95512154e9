-- ===== src/Fat/Tests.antt =====
-- A small volume for fs/fat32.c: four clusters of one sector behind two one-sector tables, and the
-- theorems at it.
use coffee_os_aurora_refresh.Base.Integers.{ℤ, to_int}
use coffee_os_aurora_refresh.Base.{
  ℕ, ◌-◌, ◌≤◌, zero, suc, List, get_or, ◌+◌, ◌*◌, ◌%◌, ◌<◌, ◌≡◌, ◌≢◌, ◌⊎◌, refl, Bool, true, false,
  ◌&&◌, none, some, [], ◌∷◌, ltb, ◌==◌, if◌then◌else◌, lt→ltb, arith,
}
use coffee_os_aurora_refresh.Base.Bytes.{get16, get32, put32}
use coffee_os_aurora_refresh.Disk.{Sector, Disks, IsDisks}
use coffee_os_aurora_refresh.Fat.Cache.{
  Fat32Volume, Fat, cache_read, cache_write, fat32_cache_flush,
}
use coffee_os_aurora_refresh.Fat.Cache.View.{through, Coherent, Shows}
use coffee_os_aurora_refresh.Fat.Cache.Ops.{cache_read-Shows}
use coffee_os_aurora_refresh.Fat.Cache.Flush.{changed, cache_write-Shows, fat32_cache_flush-through}
use coffee_os_aurora_refresh.Fat.Table.{
  fat32_eoc, in_volume, masked, next_cluster, fat32_write_fat, fat32_write_barrier,
  fat32_alloc_cluster, fat32_free_chain, fat32_get_nth_cluster,
}
use coffee_os_aurora_refresh.Fat.Table.View.{VolumeOk}
use coffee_os_aurora_refresh.Fat.Table.Entries.{Store, at}
use coffee_os_aurora_refresh.Fat.Table.Copies.{entry, Becomes, fat32_write_fat-entry}
use coffee_os_aurora_refresh.Fat.Table.Barrier.{Durable, Informed, fat32_write_barrier-Durable}
use coffee_os_aurora_refresh.Fat.Table.Chains.{Chain, among}
use coffee_os_aurora_refresh.Fat.Table.Search.{free_from}
use coffee_os_aurora_refresh.Fat.Table.Alloc.{counted, fat32_alloc_cluster-free}
use coffee_os_aurora_refresh.Fat.Table.Freeing.{fat32_free_chain-free}
use coffee_os_aurora_refresh.Fat.Table.Walks.{Reads, fat32_get_nth_cluster-get_or}
use coffee_os_aurora_refresh.Fat.Mount.{read_bpb, bytes_eq, fs_type, geometry, fat32_mount}
use coffee_os_aurora_refresh.Fat.Mount.Geometry.{Described, mountable, fat32_mount-VolumeOk}
use coffee_os_aurora_refresh.Fat.Names.{fat32_lfn_decode_chunk}
use coffee_os_aurora_refresh.Fat.Names.Chunks.{Regular, fat32_lfn_decode_chunk-full}
use coffee_os_aurora_refresh.Fat.Data.{fat32_write_cluster, fat32_read_chain}
use coffee_os_aurora_refresh.Fat.Data.Clusters.{
  ClustersOk, cluster_bytes, fat32_write_cluster-cluster_bytes,
}
use coffee_os_aurora_refresh.Fat.Data.Pieces.{file_byte, delivered}
use coffee_os_aurora_refresh.Fat.Data.Reading.{fat32_read_chain-file_byte}

-- Devices of 64 blocks.
abbrev memory : Disks (ℕ → ℕ → Sector)
memory = record {
  read = λ d dev lba. if ltb lba 64 then some (d dev lba) else none;
  write = λ d dev lba x.
      if ltb lba 64 then some (λ e j. if e == dev && j == lba then x else d e j) else none;
}

abbrev memory_is : IsDisks memory
memory_is = record {
  accepts = λ dev lba. ltb lba 64;
  holds = λ d. d;
  read_in = λ d dev lba h. rw h refl;
  read_out = λ d dev lba h. rw h refl;
  write_in =
      λ d dev lba x h. (λ e j. if e == dev && j == lba then x else d e j, rw h refl, λ e j. refl);
  write_out = λ d dev lba x h. rw h refl;
}

abbrev volume : Fat32Volume
volume = record {
  dev = 0;
  fs_info_sector = 1;
  backup_boot_sector = 2;
  fat_size_32 = 1;
  fat_start_lba = 4;
  fat2_start_lba = 5;
  data_start_lba = 6;
  sectors_per_cluster = 1;
  bytes_per_cluster = 512;
  root_cluster = 2;
  total_clusters = 4;
  free_clusters = 2;
  next_free = 4;
}

-- Clusters 2 and 3 form a chain, 4 and 5 are free.
abbrev table_sector : Sector
table_sector = put32 (put32 (λ i. 0) 8 3) 12 fat32_eoc

abbrev contents : ℕ → ℕ → Sector
contents dev lba =
    if lba == 4 then table_sector else if lba == 5 then table_sector else λ i. i % 256

abbrev fresh : Fat (ℕ → ℕ → Sector)
fresh = record {
  sector_cache =
      λ i. record { lba = 0; dirty = false; valid = false; bytes = λ j. 0; owner = none };
  vol = volume;
  disk = contents;
}

fresh-Coherent : Coherent memory memory_is fresh
fresh-Coherent i h v = absurd (ground arith)

volume-VolumeOk : VolumeOk (λ dev lba. ltb lba 64) volume
volume-VolumeOk = record {
  clusters = omega arith;
  fits = omega arith;
  info = omega arith;
  backup = omega arith;
  second = omega arith;
  behind = omega arith;
  size = omega arith;
  takes = λ lba h. lt→ltb lba 64 (omega arith);
}

Chain-2 : Chain volume (entry memory memory_is fresh true) 2 (3 ∷ [])
unfolding get32 put32
Chain-2 = (refl, refl, refl, (refl, refl))

cache_read-Shows_example :
    (t : Fat (ℕ → ℕ → Sector)) × (cache_read memory 7 fresh ≡ (some (contents 0 7), t))
    × Shows memory memory_is fresh t (through memory memory_is fresh)
cache_read-Shows_example = cache_read-Shows memory memory_is fresh 7 fresh-Coherent refl

cache_write-Shows_example :
    (t : Fat (ℕ → ℕ → Sector)) × (cache_write memory 7 (λ i. 9) fresh ≡ (some tt, t))
    × Shows memory memory_is fresh t
        (changed memory memory_is (through memory memory_is fresh) 0 7 (λ i. 9))
cache_write-Shows_example = cache_write-Shows memory memory_is fresh 7 (λ i. 9) fresh-Coherent refl

fat32_cache_flush-through_example :
    (t : Fat (ℕ → ℕ → Sector)) × (fat32_cache_flush memory fresh ≡ (some tt, t))
    × Shows memory memory_is fresh t (through memory memory_is fresh)
    × ((lba : ℕ) → t.disk 0 lba ≡ through memory memory_is fresh 0 lba)
fat32_cache_flush-through_example = fat32_cache_flush-through memory memory_is fresh fresh-Coherent

fat32_write_fat-entry_example :
    (y : Store (ℕ → ℕ → Sector)) × (fat32_write_fat memory 4 5 fresh ≡ (some tt, at fresh y))
    × Becomes memory memory_is fresh y (λ e old. if e == 4 then masked 5 else old)
fat32_write_fat-entry_example =
    fat32_write_fat-entry memory memory_is fresh 4 5 volume-VolumeOk fresh-Coherent refl

fat32_write_barrier-Durable_example :
    (y : Store (ℕ → ℕ → Sector)) × (fat32_write_barrier memory fresh ≡ (some tt, at fresh y))
    × Becomes memory memory_is fresh y (λ e v. v)
    × Durable memory memory_is fresh y
    × Informed memory memory_is fresh y
fat32_write_barrier-Durable_example =
    fat32_write_barrier-Durable memory memory_is fresh volume-VolumeOk fresh-Coherent

fat32_alloc_cluster-free_example :
    ((y : Store (ℕ → ℕ → Sector)) × (fat32_alloc_cluster memory fresh
        ≡ (none, at (counted fresh 2 4) y))
      × Becomes memory memory_is fresh y (λ e v. v)
      × ((e : ℕ) → in_volume volume e ≡ true → entry memory memory_is fresh true e ≢ 0))
    ⊎ ((k : ℕ) × (y : Store (ℕ → ℕ → Sector)) × (fat32_alloc_cluster memory fresh
          ≡ (some k, at (counted fresh 1 (next_cluster volume k)) y))
        × Becomes memory memory_is fresh y (λ e v. if e == k then fat32_eoc else v)
        × Durable memory memory_is fresh y
        × (in_volume volume k ≡ true)
        × (entry memory memory_is fresh true k ≡ 0)
        × (free_from volume (entry memory memory_is fresh true) 4 4 ≡ some k))
fat32_alloc_cluster-free_example =
    fat32_alloc_cluster-free memory memory_is fresh volume-VolumeOk fresh-Coherent
      (λ e. absurd (omega arith))

fat32_free_chain-free_example :
    (y : Store (ℕ → ℕ → Sector)) × (fat32_free_chain memory 2 fresh
      ≡ (some tt, at (counted fresh 4 2) y))
    × Becomes memory memory_is fresh y (λ e v. if among (2 ∷ 3 ∷ []) e then 0 else v)
    × Durable memory memory_is fresh y
fat32_free_chain-free_example =
    fat32_free_chain-free memory memory_is fresh 2 (3 ∷ []) volume-VolumeOk fresh-Coherent
      (omega arith) Chain-2

fat32_get_nth_cluster-get_or_example :
    Reads memory memory_is (fat32_get_nth_cluster memory 2 1) fresh 3
fat32_get_nth_cluster-get_or_example =
    fat32_get_nth_cluster-get_or memory memory_is fresh 2 1 (3 ∷ []) volume-VolumeOk fresh-Coherent
      (omega arith) Chain-2

volume-ClustersOk : ClustersOk volume
volume-ClustersOk = record { some_sectors = omega arith; bytes = refl; small = omega arith }

fat32_write_cluster-cluster_bytes_example :
    (y : Store (ℕ → ℕ → Sector)) × (fat32_write_cluster memory 4 (λ i. 9) fresh
      ≡ (some tt, at fresh y))
    × Coherent memory memory_is (at fresh y)
    × ((j : ℕ) → j < 512 → cluster_bytes memory memory_is (at fresh y) 4 j ≡ 9)
    × ((d j : ℕ)
        → in_volume volume d ≡ true
        → d ≢ 4
        → j < 512
        → cluster_bytes memory memory_is (at fresh y) d j
          ≡ cluster_bytes memory memory_is fresh d j)
    × ((first : Bool) (e : ℕ)
        → in_volume volume e ≡ true
        → entry memory memory_is (at fresh y) first e ≡ entry memory memory_is fresh first e)
fat32_write_cluster-cluster_bytes_example =
    fat32_write_cluster-cluster_bytes memory memory_is fresh 4 (λ i. 9) volume-VolumeOk
      volume-ClustersOk fresh-Coherent refl

fat32_read_chain-file_byte_example :
    (y : Store (ℕ → ℕ → Sector)) × (fat32_read_chain memory 2 500 (λ i. 0) 100 (λ i. 0) fresh ≡ (
      some (
        ℤ.pos 100,
        delivered
            (file_byte (cluster_bytes memory memory_is fresh) 512 (2 ∷ 3 ∷ []))
            500
            0
            100
            (λ i. 0),
      ),
      at fresh y,
    ))
    × Becomes memory memory_is fresh y (λ e v. v)
unfolding to_int
fat32_read_chain-file_byte_example =
    fat32_read_chain-file_byte memory memory_is fresh 2 (3 ∷ []) 500 100 (λ i. 0) (λ i. 0)
      volume-VolumeOk volume-ClustersOk fresh-Coherent (omega arith) Chain-2 (omega arith)
      (omega arith)

abbrev letters : ℕ → List ℕ
letters zero = []
letters (suc n) = 97 ∷ letters n

letters-Regular : (n : ℕ) → Regular (letters n)
letters-Regular zero = tt
letters-Regular (suc n) = (λ e. absurd (omega arith), λ e. absurd (omega arith), letters-Regular n)

fat32_lfn_decode_chunk-full_example :
    ((j : ℕ)
      → j < 13
      → fat32_lfn_decode_chunk 65 (letters 13) (λ i. 0) (0 * 13 + j)
        ≡ get_or (letters 13) j 0 % 256)
    × (fat32_lfn_decode_chunk 65 (letters 13) (λ i. 0) (0 * 13 + 13) ≡ 0)
    × ((j : ℕ)
        → (j < 0 * 13) ⊎ (0 * 13 + 13 < j)
        → fat32_lfn_decode_chunk 65 (letters 13) (λ i. 0) j ≡ 0)
fat32_lfn_decode_chunk-full_example =
    fat32_lfn_decode_chunk-full 65 0 (letters 13) (λ i. 0) refl (omega arith) refl
      (letters-Regular 13)

-- A boot sector of a volume of 10 sectors.
abbrev boot_bytes : List ℕ
boot_bytes = 0 ∷ 2 ∷ 1 ∷ 4 ∷ 0 ∷ 2 ∷ 0 ∷ 0 ∷ 10 ∷ []

abbrev boot : Sector
boot i =
    if i == 510
    then 85
    else if i == 511
    then 170
    else if i == 36
    then 1
    else if i == 44
    then 2
    else if i == 48
    then 1
    else if i == 50
    then 2
    else if ltb i 11
    then 0
    else if ltb i 82
    then get_or boot_bytes (i - 11) 0
    else get_or fs_type (i - 82) 0

boot-Described : Described (λ dev lba. ltb lba 64) 0 (read_bpb boot)
unfolding read_bpb get16 get32
boot-Described = record {
  info = omega arith;
  backup = omega arith;
  room = omega arith;
  word = omega arith;
  clusters = omega arith;
  tables = omega arith;
  takes = λ lba h. lt→ltb lba 64 (omega arith);
}

some_clusters : (geometry 0 (read_bpb boot)).total_clusters ≢ 0
unfolding read_bpb get16 get32
some_clusters = λ e. absurd (omega arith)

fat32_mount-VolumeOk_example :
    ((fat32_mount memory 0 0 (λ dev lba. boot) ≡ none) × (mountable 0 boot ≡ false))
    ⊎ ((vol : Fat32Volume) × (fat32_mount memory 0 0 (λ dev lba. boot) ≡ some vol)
        × (mountable 0 boot ≡ true)
        × VolumeOk (λ dev lba. ltb lba 64) vol
        × ClustersOk vol
        × (vol.free_clusters ≤ vol.total_clusters)
        × (in_volume vol vol.next_free ≡ true))
fat32_mount-VolumeOk_example =
    fat32_mount-VolumeOk memory (λ dev lba. ltb lba 64) 0 0 (λ dev lba. boot) boot refl
      boot-Described some_clusters

boot-mountable : mountable 0 boot ≡ true
unfolding read_bpb get16 get32 bytes_eq
boot-mountable = refl
