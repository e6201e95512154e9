-- ===== src/Fat/Table/View.antt =====
-- The file allocation table that the cache of fs/fat32.c shows, in both copies, and what the reads
-- and writes of the driver do to it.
use coffee_os_aurora_refresh.Base.{
  ℕ, ◌+◌, ◌*◌, ◌/◌, ◌≤◌, ◌<◌, ◌≡◌, ◌≢◌, ◌⊎◌, inl, inr, refl, ap, Bool, true, ◌==◌, if◌then◌else◌,
  eq_cases, lt_cases, ==_self, ==_ne, u32, arith,
}
use coffee_os_aurora_refresh.Base.Bytes.{get32, get32-put32, get32-put32_away}
use coffee_os_aurora_refresh.Disk.{Sector}
use coffee_os_aurora_refresh.Fat.Cache.{Fat32Volume}
use coffee_os_aurora_refresh.Fat.Table.{
  fat32_bad, block_size, masked, merged, fat_sector, fat_offset, put_entry,
}

-- The layout of a mounted volume: the FSInfo sectors, the two tables and the data lie behind each
-- other on a device that takes their blocks.
pub record VolumeOk (accepts : ℕ → ℕ → Bool) (vol : Fat32Volume) : Type 0 where
  pub clusters : vol.total_clusters + 1 < fat32_bad
  pub fits : (vol.total_clusters + 2) * 4 ≤ vol.fat_size_32 * block_size
  pub info : vol.fs_info_sector < vol.fat_start_lba
  pub backup : vol.backup_boot_sector + 1 < vol.fat_start_lba
  pub second : vol.fat_start_lba + vol.fat_size_32 ≤ vol.fat2_start_lba
  pub behind : vol.fat2_start_lba + vol.fat_size_32 ≤ vol.data_start_lba
  pub size : vol.data_start_lba + vol.total_clusters * vol.sectors_per_cluster < 4294967296
  pub takes :
      (lba : ℕ)
      → lba < vol.data_start_lba + vol.total_clusters * vol.sectors_per_cluster
      → accepts vol.dev lba ≡ true

-- An entry of the table that starts at a block.
abbrev pub fat_entry : (ℕ → Sector) → ℕ → ℕ → ℕ
fat_entry blocks start cluster =
    masked (get32 (blocks (fat_sector start cluster)) (fat_offset cluster))

-- Where the first table starts and where the second.
abbrev pub table_start : Fat32Volume → Bool → ℕ
table_start vol first = if first then vol.fat_start_lba else vol.fat2_start_lba

abbrev pub set_block : (ℕ → Sector) → ℕ → Sector → ℕ → Sector
set_block blocks lba x l = if l == lba then x else blocks l

-- The table after one entry is replaced in its sector.
put_entry_same : (x : Sector) (o v : ℕ) → masked (get32 (put_entry x o v) o) ≡ masked v
put_entry_same x o v = rw (get32-put32 x o (merged (get32 x o) v)) (omega arith)

put_entry_other :
    (x : Sector) (o p v : ℕ) → (p + 3 < o) ⊎ (o + 3 < p) → get32 (put_entry x o v) p ≡ get32 x p
put_entry_other x o p v h = get32-put32_away x o (merged (get32 x o) v) p h

entries_apart :
    (c e : ℕ)
    → c < fat32_bad
    → e < fat32_bad
    → e ≢ c
    → u32 (e * 4) / block_size ≡ u32 (c * 4) / block_size
    → (fat_offset e + 3 < fat_offset c) ⊎ (fat_offset c + 3 < fat_offset e)
entries_apart c e hc he n same = elim (lt_cases e c) [
  | inl l ↦ inl (omega arith)
  | inr l ↦ inr (omega arith)
]

pub fat_entry-set_block :
    (blocks : ℕ → Sector) (start c e v : ℕ)
    → c < fat32_bad
    → e < fat32_bad
    → start + c * 4 / block_size < 4294967296
    → start + e * 4 / block_size < 4294967296
    → fat_entry
        (set_block blocks
          (fat_sector start c)
          (put_entry (blocks (fat_sector start c)) (fat_offset c) v))
        start
        e
      ≡ (if e == c then masked v else fat_entry blocks start e)
fat_entry-set_block blocks start c e v hc he hs hs' = elim (eq_cases e c) [
  | inl same ↦
      rw (same, ==_self c, ==_self (fat_sector start c))
        (put_entry_same (blocks (fat_sector start c)) (fat_offset c) v)
  | inr n ↦ elim (eq_cases (fat_sector start e) (fat_sector start c)) [
    | inl same ↦
        rw (==_ne e c n, same, ==_self (fat_sector start c))
          (ap masked (
            put_entry_other (blocks (fat_sector start c)) (fat_offset c) (fat_offset e) v
              (entries_apart c e hc he n (omega arith))))
    | inr m ↦ rw (==_ne e c n, ==_ne (fat_sector start e) (fat_sector start c) m) refl
  ]
]
