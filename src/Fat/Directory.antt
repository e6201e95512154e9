-- ===== src/Fat/Directory.antt =====
-- Directories in fs/fat32.c: lookup and listing over the cluster chain of a directory, and changes of
-- single entries. A directory sector has 16 entries of 32 bytes.
use coffee_os_aurora_refresh.Base.{
  ℕ, zero, suc, ◌+◌, ◌*◌, ◌/◌, ◌%◌, Bool, true, false, not, ◌&&◌, ◌||◌, Option, none, some, List,
  [], ◌∷◌, ◌++◌, length, Array, update, ltb, leb, ◌==◌, if◌then◌else◌, u32,
}
use coffee_os_aurora_refresh.Base.Bytes.{get16, get32}
use coffee_os_aurora_refresh.Base.Fallible.{M, guard, or_else, and_then, ◌>>=◌, ◌>>◌}
use coffee_os_aurora_refresh.Disk.{Sector, Disks}
use coffee_os_aurora_refresh.Fat.Cache.{Fat, cache_read, cache_write, fat32_cache_flush}
use coffee_os_aurora_refresh.Fat.Table.{
  block_size, in_volume, last_value, fat32_read_fat, fat32_free_chain,
}
use coffee_os_aurora_refresh.Fat.Data.{copied, fat32_cluster_to_lba}
use coffee_os_aurora_refresh.Fat.Names.{
  Fat32DirEntry, fat32_name_max, fat32_name_eq_ci, fat32_from_83, fat32_lfn_decode_chunk,
}

-- FAT_ATTR_LFN, FAT_ENTRY_DELETED, and the entries of a sector
abbrev pub fat_attr_lfn : ℕ
fat_attr_lfn = 15

abbrev pub fat_entry_deleted : ℕ
fat_entry_deleted = 229

abbrev pub entries_per_sector : ℕ
entries_per_sector = 16

-- The entry at an offset of a sector, read as struct Fat32DirEntry.
unfoldable pub dir_entry : Sector → ℕ → Fat32DirEntry
dir_entry sector off = record {
  name = λ i. sector (off + i);
  ext = λ i. sector (off + 8 + i);
  attributes = sector (off + 11);
  cluster_high = get16 sector (off + 20);
  cluster_low = get16 sector (off + 26);
  file_size = get32 sector (off + 28);
}

-- The 13 characters of an entry read as struct Fat32LFNEntry: name1, name2 and name3.
unfoldable pub lfn_chars : Sector → ℕ → List ℕ
lfn_chars sector off =
    get16 sector (off + 1)
    ∷ get16 sector (off + 3)
    ∷ get16 sector (off + 5)
    ∷ get16 sector (off + 7)
    ∷ get16 sector (off + 9)
    ∷ get16 sector (off + 14)
    ∷ get16 sector (off + 16)
    ∷ get16 sector (off + 18)
    ∷ get16 sector (off + 20)
    ∷ get16 sector (off + 22)
    ∷ get16 sector (off + 24)
    ∷ get16 sector (off + 28)
    ∷ get16 sector (off + 30)
    ∷ []

-- How the scan of one sector for a name ends: a match at an entry, the end of the directory, or
-- the long name so far.
pub data Scan : Type 0 where
  matched : ℕ → Fat32DirEntry → Scan
  ended : Scan
  scanned : Array ℕ → Scan

-- The test of an entry against a name. Both long and short names end within 256 bytes.
abbrev pub names_match : Array ℕ → Fat32DirEntry → Array ℕ → Bool
names_match lfn_name entry name =
    (not (lfn_name 0 == 0) && fat32_name_eq_ci fat32_name_max 0 lfn_name name)
    || fat32_name_eq_ci fat32_name_max 0 (fat32_from_83 entry.name entry.ext (λ i. 0)) name

-- The loop over the entries of a sector from entry i on, with n entries left.
unfoldable pub find_in_sector : ℕ → ℕ → Sector → Array ℕ → Array ℕ → Scan
find_in_sector zero i sector name lfn_name = scanned lfn_name
find_in_sector (suc n) i sector name lfn_name =
    let off = i * 32 in
    let entry = dir_entry sector off in
    let first_part = sector off / 64 % 2 == 1 in
    let cleared = update lfn_name 0 0 in
    let decoded =
      fat32_lfn_decode_chunk (sector off) (lfn_chars sector off)
        (if first_part then cleared else lfn_name) in
    let behind_lfn = find_in_sector n (i + 1) sector name decoded in
    let behind = find_in_sector n (i + 1) sector name cleared in
    if sector off == 0
    then ended
    else if entry.attributes == fat_attr_lfn
    then behind_lfn
    else if sector off == fat_entry_deleted
    then behind
    else if names_match lfn_name entry name
    then matched i entry
    else behind

-- The same over the sectors of a cluster: a match with its place, the end, or the long name so far.
pub data Walk : Type 0 where
  hit : Fat32DirEntry → ℕ → ℕ → Walk
  stop : Walk
  more : Array ℕ → Walk

-- The loop of fat32_dir_list over the entries of a sector: the entries so far, and whether the
-- directory has ended.
unfoldable pub list_sector : ℕ → ℕ → Sector → ℕ → List Fat32DirEntry → List Fat32DirEntry × Bool
list_sector zero i sector max_entries entries = (entries, false)
list_sector (suc n) i sector max_entries entries =
    let off = i * 32 in
    let skip = list_sector n (i + 1) sector max_entries entries in
    let take = list_sector n (i + 1) sector max_entries (entries ++ (dir_entry sector off ∷ [])) in
    if sector off == 0
    then (entries, true)
    else if sector off == fat_entry_deleted || sector (off + 11) == fat_attr_lfn
    then skip
    else if ltb (length entries) max_entries
    then take
    else skip

module _ {D : Type 0} (disks : Disks D) where
  -- The sectors of a cluster from sector i on, with n left. A read that fails ends the search.
  unfoldable pub find_in_cluster : ℕ → ℕ → ℕ → Array ℕ → Array ℕ → M (Fat D) Walk
  find_in_cluster zero i base_lba name lfn_name s = (some (more lfn_name), s)
  find_in_cluster (suc n) i base_lba name lfn_name s =
      or_else
        (and_then (cache_read disks (u32 (base_lba + i)) s) (λ sector t.
          elim (find_in_sector entries_per_sector 0 sector name lfn_name) [
            | matched k entry ↦ (some (hit entry (u32 (base_lba + i)) (k * 32)), t)
            | ended ↦ (some stop, t)
            | scanned lfn ↦ find_in_cluster n (i + 1) base_lba name lfn t
          ]))
        stop

  -- The loop of fat32_dir_find over a chain, with the rounds left before its safety counter stops
  -- it: the entry, its sector and its offset.
  unfoldable pub find_loop :
      ℕ → ℕ → Array ℕ → Array ℕ → M (Fat D) (Option (Fat32DirEntry × (ℕ × ℕ)))
  find_loop zero cluster name lfn_name s = (some none, s)
  find_loop (suc n) cluster name lfn_name s =
      let found : Option (Option (Fat32DirEntry × (ℕ × ℕ))) × Fat D =
        and_then
          (find_in_cluster s.vol.sectors_per_cluster 0 (fat32_cluster_to_lba s.vol cluster) name
            lfn_name s)
          (λ walk t. elim walk [
            | hit entry lba off ↦ (some (some (entry, (lba, off))), t)
            | stop ↦ (some none, t)
            | more lfn ↦ and_then (fat32_read_fat disks cluster t) (λ next u.
                let rest = find_loop n next name lfn u in
                if last_value next then (some none, u) else rest)
          ]) in
      if in_volume s.vol cluster then found else (some none, s)

  -- fat32_dir_find: none is the code's 0.
  unfoldable pub fat32_dir_find : ℕ → Array ℕ → M (Fat D) (Option (Fat32DirEntry × (ℕ × ℕ)))
  fat32_dir_find dir_cluster name s =
      let found = find_loop s.vol.total_clusters dir_cluster name (λ i. 0) s in
      if ltb dir_cluster 2 then (some none, s) else found

  -- The sectors of a cluster in fat32_dir_list: the entries so far, and whether to stop.
  unfoldable pub list_cluster :
      ℕ → ℕ → ℕ → ℕ → List Fat32DirEntry → M (Fat D) (List Fat32DirEntry × Bool)
  list_cluster zero i base_lba max_entries entries s = (some (entries, false), s)
  list_cluster (suc n) i base_lba max_entries entries s =
      or_else
        (and_then (cache_read disks (u32 (base_lba + i)) s) (λ sector t.
          let listed = list_sector entries_per_sector 0 sector max_entries entries in
          let rest = list_cluster n (i + 1) base_lba max_entries listed.0 t in
          if listed.1 then (some listed, t) else rest))
        (entries, true)

  -- The loop of fat32_dir_list over a chain, with the rounds left before its safety counter stops it.
  unfoldable pub list_loop : ℕ → ℕ → ℕ → List Fat32DirEntry → M (Fat D) (List Fat32DirEntry)
  list_loop zero cluster max_entries entries s = (some entries, s)
  list_loop (suc n) cluster max_entries entries s =
      let listed : Option (List Fat32DirEntry) × Fat D =
        and_then
          (list_cluster s.vol.sectors_per_cluster 0 (fat32_cluster_to_lba s.vol cluster) max_entries
            entries s)
          (λ part t.
            let behind : Option (List Fat32DirEntry) × Fat D =
              and_then (fat32_read_fat disks cluster t) (λ next u.
                let rest = list_loop n next max_entries part.0 u in
                if last_value next then (some part.0, u) else rest) in
            if part.1 then (some part.0, t) else behind) in
      if in_volume s.vol cluster then listed else (some entries, s)

  -- fat32_dir_list: the entries that it stores, and their number is what it returns.
  unfoldable pub fat32_dir_list : ℕ → ℕ → M (Fat D) (List Fat32DirEntry)
  fat32_dir_list dir_cluster max_entries s =
      let listed = list_loop s.vol.total_clusters dir_cluster max_entries [] s in
      if max_entries == 0 || ltb dir_cluster 2 then (some [], s) else listed

  unfoldable pub fat32_dir_mark_deleted : ℕ → ℕ → M (Fat D) (Unit {0})
  fat32_dir_mark_deleted entry_lba entry_offset = do
    guard (ltb entry_offset block_size)
    sector ← cache_read disks entry_lba
    cache_write disks entry_lba (update sector entry_offset fat_entry_deleted)
    fat32_cache_flush disks

  unfoldable pub fat32_dir_delete_entry : ℕ → ℕ → ℕ → M (Fat D) (Unit {0})
  fat32_dir_delete_entry entry_lba entry_offset file_cluster s =
      let freed = fat32_free_chain disks file_cluster s in
      and_then (if leb 2 file_cluster then freed else (some tt, s))
        (λ x. fat32_dir_mark_deleted entry_lba entry_offset)

  -- The 32 bytes of an entry copied into its sector.
  unfoldable pub fat32_update_dir_entry : ℕ → ℕ → Array ℕ → M (Fat D) (Unit {0})
  fat32_update_dir_entry lba offset entry = do
    guard (leb (u32 (offset + 32)) block_size)
    sector ← cache_read disks lba
    cache_write disks lba (copied sector offset entry 0 32)
