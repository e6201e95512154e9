-- ===== src/Fat/Mount.antt =====
-- Mounting in fs/fat32.c: the boot sector's parameter block, the geometry of the volume, and the
-- counters of the FSInfo sector.
use coffee_os_aurora_refresh.Base.{
  ℕ, zero, suc, ◌+◌, ◌-◌, ◌*◌, ◌/◌, Bool, true, false, not, ◌&&◌, ◌||◌, Option, none, some, List,
  [], ◌∷◌, ltb, leb, ◌==◌, if◌then◌else◌, u32, sub32,
}
use coffee_os_aurora_refresh.Base.Bytes.{get16, get32}
use coffee_os_aurora_refresh.Base.Fallible.{M, pure, guard, ◌>>=◌, ◌>>◌}
use coffee_os_aurora_refresh.Disk.{Sector, Disks}
use coffee_os_aurora_refresh.Fat.Cache.{Fat32Volume, Fat, fat32_cache_flush}
use coffee_os_aurora_refresh.Fat.Table.{fat32_update_fsinfo}
pub mod Geometry

-- FAT32_MAX_VOLUMES
abbrev pub fat32_max_volumes : ℕ
fat32_max_volumes = 2

-- struct Fat32BPB, the fields that the driver uses.
pub record Fat32Bpb : Type 0 where
  pub bytes_per_sector : ℕ
  pub sectors_per_cluster : ℕ
  pub reserved_sectors : ℕ
  pub num_fats : ℕ
  pub total_sectors_16 : ℕ
  pub total_sectors_32 : ℕ
  pub fat_size_32 : ℕ
  pub root_cluster : ℕ
  pub fs_info_sector : ℕ
  pub backup_boot_sector : ℕ

unfoldable pub read_bpb : Sector → Fat32Bpb
read_bpb sector = record {
  bytes_per_sector = get16 sector 11;
  sectors_per_cluster = sector 13;
  reserved_sectors = get16 sector 14;
  num_fats = sector 16;
  total_sectors_16 = get16 sector 19;
  total_sectors_32 = get32 sector 32;
  fat_size_32 = get32 sector 36;
  root_cluster = get32 sector 44;
  fs_info_sector = get16 sector 48;
  backup_boot_sector = get16 sector 50;
}

-- fat32_memcmp of bytes of a sector with a list.
unfoldable pub bytes_eq : Sector → ℕ → List ℕ → Bool
bytes_eq sector i [] = true
bytes_eq sector i (b ∷ rest) =
    let more = bytes_eq sector (i + 1) rest in if sector i == b then more else false

-- "FAT32   "
abbrev pub fs_type : List ℕ
fs_type = 70 ∷ 65 ∷ 84 ∷ 51 ∷ 50 ∷ 32 ∷ 32 ∷ 32 ∷ []

-- What mounting asks of the boot sector.
abbrev pub bpb_ok : Sector → Fat32Bpb → Bool
bpb_ok sector bpb =
    bpb.bytes_per_sector == 512
    && bpb.num_fats == 2
    && bytes_eq sector 82 fs_type
    && leb 2 bpb.root_cluster
    && not (bpb.sectors_per_cluster == 0)
    && leb bpb.sectors_per_cluster 8

abbrev pub total_sectors : Fat32Bpb → ℕ
total_sectors bpb =
    if not (bpb.total_sectors_32 == 0) then bpb.total_sectors_32 else bpb.total_sectors_16

-- The volume with its geometry; the counters are 0.
abbrev pub geometry : ℕ → Fat32Bpb → Fat32Volume
geometry dev bpb = record {
  dev = dev;
  fs_info_sector = bpb.fs_info_sector;
  backup_boot_sector = bpb.backup_boot_sector;
  fat_size_32 = bpb.fat_size_32;
  fat_start_lba = bpb.reserved_sectors;
  fat2_start_lba = u32 (bpb.reserved_sectors + bpb.fat_size_32);
  data_start_lba = u32 (bpb.reserved_sectors + u32 (bpb.num_fats * bpb.fat_size_32));
  sectors_per_cluster = bpb.sectors_per_cluster;
  bytes_per_cluster = bpb.sectors_per_cluster * 512;
  root_cluster = bpb.root_cluster;
  total_clusters =
      sub32 (total_sectors bpb) (u32 (bpb.reserved_sectors + u32 (bpb.num_fats * bpb.fat_size_32)))
      / bpb.sectors_per_cluster;
  free_clusters = 0;
  next_free = 0;
}

-- The counters of a FSInfo sector, when it has its three signatures.
abbrev pub read_counters : Option Sector → ℕ × ℕ
read_counters none = (0, 0)
read_counters (some x) =
    if get32 x 0 == 1096897106 && get32 x 484 == 1631679090 && get32 x 508 == 2857697280
    then (get32 x 488, get32 x 492)
    else (0, 0)

-- The counters put into range.
unfoldable pub with_counters : Fat32Volume → ℕ × ℕ → Fat32Volume
with_counters vol counts = record vol {
  free_clusters =
      if counts.0 == 0 || ltb vol.total_clusters counts.0
      then if ltb 1 vol.total_clusters then vol.total_clusters - 1 else 0
      else counts.0;
  next_free = if ltb counts.1 2 || ltb (u32 (vol.total_clusters + 1)) counts.1 then 2 else counts.1;
}

module _ {D : Type 0} (disks : Disks D) where
  -- fat32_mount of a device: the volume, or none for the code's -1.
  unfoldable pub fat32_mount : ℕ → ℕ → D → Option Fat32Volume
  fat32_mount vol_idx dev d = elim (disks.read d dev 0) [
    | none ↦ none
    | some sector ↦
        let vol = geometry dev (read_bpb sector) in
        let mounted = with_counters vol (read_counters (disks.read d dev vol.fs_info_sector)) in
        if ltb vol_idx fat32_max_volumes
          && (sector 510 == 85 && sector 511 == 170)
          && bpb_ok sector (read_bpb sector)
        then some mounted
        else none
  ]

  -- fat32_sync of a mounted volume.
  unfoldable pub fat32_sync : M (Fat D) (Unit {0})
  fat32_sync = do fat32_cache_flush disks; fat32_update_fsinfo disks
