-- ===== src/Fat/Mount/Geometry.antt =====
-- A volume that fat32_mount of fs/fat32.c returns is laid out as the rest of the driver needs it.
use coffee_os_aurora_refresh.Base.{
  ℕ, ◌+◌, ◌-◌, ◌*◌, ◌≤◌, ◌<◌, ◌≡◌, ◌≢◌, ◌⊎◌, refl, inl, inr, Bool, true, false, ◌&&◌, none, some,
  ltb, ◌==◌, Bool-cases, u32, sub32, arith,
}
use coffee_os_aurora_refresh.Disk.{Sector, Disks}
use coffee_os_aurora_refresh.Fat.Cache.{Fat32Volume}
use coffee_os_aurora_refresh.Fat.Table.{fat32_bad, in_volume}
use coffee_os_aurora_refresh.Fat.Table.View.{VolumeOk}
use coffee_os_aurora_refresh.Fat.Data.Clusters.{ClustersOk}
use coffee_os_aurora_refresh.Fat.Mount.{
  Fat32Bpb, read_bpb, bpb_ok, total_sectors, geometry, read_counters, with_counters, fat32_mount,
}
use native.Mathlib.Nat.{div-add-mod'}

-- A boot sector that describes a volume on a device: the tables have room for every cluster, the
-- FSInfo sectors lie in the reserved sectors, and the device takes all sectors of the volume.
pub record Described (accepts : ℕ → ℕ → Bool) (dev : ℕ) (bpb : Fat32Bpb) : Type 0 where
  pub info : bpb.fs_info_sector < bpb.reserved_sectors
  pub backup : bpb.backup_boot_sector + 1 < bpb.reserved_sectors
  pub room : bpb.reserved_sectors + 2 * bpb.fat_size_32 ≤ total_sectors bpb
  pub word : total_sectors bpb < 4294967296
  pub clusters : (geometry dev bpb).total_clusters + 1 < fat32_bad
  pub tables : ((geometry dev bpb).total_clusters + 2) * 4 ≤ bpb.fat_size_32 * 512
  pub takes : (lba : ℕ) → lba < total_sectors bpb → accepts dev lba ≡ true

-- The end of the data is within the volume.
data_end :
    (accepts : ℕ → ℕ → Bool) (dev : ℕ) (bpb : Fat32Bpb)
    → Described accepts dev bpb
    → bpb.num_fats ≡ 2
    → ((geometry dev bpb).data_start_lba ≡ bpb.reserved_sectors + 2 * bpb.fat_size_32)
      × ((geometry dev bpb).data_start_lba
            + (geometry dev bpb).total_clusters * bpb.sectors_per_cluster
          ≤ total_sectors bpb)
data_end accepts dev bpb h two =
    let start : u32 (bpb.reserved_sectors + u32 (bpb.num_fats * bpb.fat_size_32))
        ≡ bpb.reserved_sectors + 2 * bpb.fat_size_32 =
      rw two (omega (arith, h.room, h.word)) in
    let left : sub32 (total_sectors bpb)
          (u32 (bpb.reserved_sectors + u32 (bpb.num_fats * bpb.fat_size_32)))
        ≡ total_sectors bpb - (bpb.reserved_sectors + 2 * bpb.fat_size_32) =
      rw start (omega (arith, h.room, h.word)) in
    (
      start,
      rw (left, start)
          (omega (
            arith,
            h.room,
            div-add-mod' (total_sectors bpb - (bpb.reserved_sectors + 2 * bpb.fat_size_32))
                bpb.sectors_per_cluster,
          )),
    )

geometry-VolumeOk :
    (accepts : ℕ → ℕ → Bool) (dev : ℕ) (bpb : Fat32Bpb) (counts : ℕ × ℕ)
    → Described accepts dev bpb
    → bpb.num_fats ≡ 2
    → VolumeOk accepts (with_counters (geometry dev bpb) counts)
unfolding with_counters
geometry-VolumeOk accepts dev bpb counts h two =
    let (start, end') = data_end accepts dev bpb h two in
    record {
      clusters = h.clusters;
      fits = h.tables;
      info = h.info;
      backup = h.backup;
      second = omega (arith, h.room, h.word);
      behind = omega (arith, h.room, h.word, start);
      size = omega (arith, end', h.word);
      takes = λ lba l. h.takes lba (omega (arith, end'));
    }

geometry-ClustersOk :
    (dev : ℕ) (bpb : Fat32Bpb) (counts : ℕ × ℕ)
    → 0 < bpb.sectors_per_cluster
    → bpb.sectors_per_cluster ≤ 8
    → ClustersOk (with_counters (geometry dev bpb) counts)
unfolding with_counters
geometry-ClustersOk dev bpb counts pos few = record {
  some_sectors = pos;
  bytes = refl;
  small = omega arith;
}

total_with :
    (vol : Fat32Volume) (counts : ℕ × ℕ)
    → (with_counters vol counts).total_clusters ≡ vol.total_clusters
unfolding with_counters
total_with vol counts = refl

counters_range :
    (vol : Fat32Volume) (counts : ℕ × ℕ)
    → vol.total_clusters + 1 < fat32_bad
    → vol.total_clusters ≢ 0
    → ((with_counters vol counts).free_clusters ≤ vol.total_clusters)
      × (in_volume vol (with_counters vol counts).next_free ≡ true)
unfolding with_counters
counters_range vol (free, next) h n = (ground arith, ground arith)

-- What the tests of fat32_mount say.
abbrev pub mountable : ℕ → Sector → Bool
mountable vol_idx sector =
    ltb vol_idx 2 && (sector 510 == 85 && sector 511 == 170) && bpb_ok sector (read_bpb sector)

mountable_lem :
    (vol_idx : ℕ) (sector : Sector)
    → mountable vol_idx sector ≡ true
    → ((read_bpb sector).num_fats ≡ 2)
      × (0 < (read_bpb sector).sectors_per_cluster)
      × ((read_bpb sector).sectors_per_cluster ≤ 8)
mountable_lem vol_idx sector e = (ground arith, ground arith, ground arith)

module _ {D : Type 0} (disks : Disks D) where
  mount_yes :
      (vol_idx dev : ℕ) (d : D) (sector : Sector)
      → disks.read d dev 0 ≡ some sector
      → mountable vol_idx sector ≡ true
      → fat32_mount disks vol_idx dev d
        ≡ some (
            with_counters
              (geometry dev (read_bpb sector))
              (read_counters (disks.read d dev (read_bpb sector).fs_info_sector)))
  unfolding fat32_mount
  mount_yes vol_idx dev d sector e b = rw (e, fat32_mount, b) refl

  mount_no :
      (vol_idx dev : ℕ) (d : D) (sector : Sector)
      → disks.read d dev 0 ≡ some sector
      → mountable vol_idx sector ≡ false
      → fat32_mount disks vol_idx dev d ≡ none
  unfolding fat32_mount
  mount_no vol_idx dev d sector e b = rw (e, fat32_mount, b) refl

  -- fat32_mount of a device whose boot sector describes a volume.
  pub fat32_mount-VolumeOk :
      (accepts : ℕ → ℕ → Bool) (vol_idx dev : ℕ) (d : D) (sector : Sector)
      → disks.read d dev 0 ≡ some sector
      → Described accepts dev (read_bpb sector)
      → (geometry dev (read_bpb sector)).total_clusters ≢ 0
      → ((fat32_mount disks vol_idx dev d ≡ none) × (mountable vol_idx sector ≡ false))
        ⊎ ((vol : Fat32Volume) × (fat32_mount disks vol_idx dev d ≡ some vol)
            × (mountable vol_idx sector ≡ true)
            × VolumeOk accepts vol
            × ClustersOk vol
            × (vol.free_clusters ≤ vol.total_clusters)
            × (in_volume vol vol.next_free ≡ true))
  fat32_mount-VolumeOk accepts vol_idx dev d sector e h n =
      elim (Bool-cases (mountable vol_idx sector)) [
        | inl b ↦
            let (two, pos, few) = mountable_lem vol_idx sector b in
            let counts = read_counters (disks.read d dev (read_bpb sector).fs_info_sector) in
            let (free, next) =
              counters_range (geometry dev (read_bpb sector)) counts h.clusters n in
            inr (
              with_counters (geometry dev (read_bpb sector)) counts,
              mount_yes vol_idx dev d sector e b,
              b,
              geometry-VolumeOk accepts dev (read_bpb sector) counts h two,
              geometry-ClustersOk dev (read_bpb sector) counts pos few,
              rw (total_with (geometry dev (read_bpb sector)) counts) free,
              rw (total_with (geometry dev (read_bpb sector)) counts) next,
            )
        | inr b ↦ inl (mount_no vol_idx dev d sector e b, b)
      ]
