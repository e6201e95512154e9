-- ===== src/Fat/Table/Copies.antt =====
-- fat32_read_fat and fat32_write_fat of fs/fat32.c over both copies of the table.
use coffee_os_aurora_refresh.Base.{
  ℕ, ◌+◌, ◌*◌, ◌/◌, ◌≤◌, ◌<◌, ◌≡◌, ◌≢◌, refl, sym, ◌∙◌, ap, fun_ext, Bool, true, false, some, ◌==◌,
  if◌then◌else◌, ==_ne, arith,
}
use coffee_os_aurora_refresh.Base.Bytes.{get32}
use coffee_os_aurora_refresh.Disk.{Sector, Disks, IsDisks}
use coffee_os_aurora_refresh.Fat.Cache.{Fat32Volume, Fat}
use coffee_os_aurora_refresh.Fat.Cache.View.{through, Coherent}
use coffee_os_aurora_refresh.Fat.Table.{
  block_size, in_volume, masked, fat_sector, fat_offset, put_entry, fat32_read_fat, write_entry,
  fat32_write_fat,
}
use coffee_os_aurora_refresh.Fat.Table.View.{
  VolumeOk, fat_entry, table_start, set_block, fat_entry-set_block,
}
use coffee_os_aurora_refresh.Fat.Table.Entries.{
  Store, at, cluster_bounds, Keeps, read_stored, write_entry_stored,
}

-- The sectors of the two tables.
pub sector_bounds :
    (accepts : ℕ → ℕ → Bool) (vol : Fat32Volume) (first : Bool) (c : ℕ)
    → VolumeOk accepts vol
    → c ≤ vol.total_clusters + 1
    → (table_start vol first ≤ fat_sector (table_start vol first) c)
      × (fat_sector (table_start vol first) c < table_start vol first + vol.fat_size_32)
sector_bounds accepts vol true c ok h = (
  omega (arith, ok.clusters, ok.fits, ok.second, ok.behind, ok.size),
  omega (arith, ok.clusters, ok.fits, ok.second, ok.behind, ok.size),
)
sector_bounds accepts vol false c ok h = (
  omega (arith, ok.clusters, ok.fits, ok.second, ok.behind, ok.size),
  omega (arith, ok.clusters, ok.fits, ok.second, ok.behind, ok.size),
)

pub tables_behind :
    (accepts : ℕ → ℕ → Bool) (vol : Fat32Volume) (first : Bool) (c : ℕ)
    → VolumeOk accepts vol
    → in_volume vol c ≡ true
    → vol.fat_start_lba ≤ fat_sector (table_start vol first) c
tables_behind accepts vol true c ok h =
    (sector_bounds accepts vol true c ok (cluster_bounds vol c ok.clusters h).1).0
tables_behind accepts vol false c ok h = omega (
  arith,
  ok.second,
  (sector_bounds accepts vol false c ok (cluster_bounds vol c ok.clusters h).1).0,
)

-- An entry depends on the block that holds it.
pub fat_entry_of :
    (f g : ℕ → Sector) (start c : ℕ)
    → f (fat_sector start c) ≡ g (fat_sector start c)
    → fat_entry f start c ≡ fat_entry g start c
fat_entry_of f g start c e = ap (λ (x : Sector). masked (get32 x (fat_offset c))) e

-- Both copies of an entry replaced, one after the other.
module _ (vol : Fat32Volume) (blocks : ℕ → Sector) (c v : ℕ) where
  abbrev pub first_written : ℕ → Sector
  first_written =
      set_block blocks (fat_sector vol.fat_start_lba c)
        (put_entry (blocks (fat_sector vol.fat_start_lba c)) (fat_offset c) v)

  abbrev pub both_written : ℕ → Sector
  both_written =
      set_block first_written (fat_sector vol.fat2_start_lba c)
        (put_entry (first_written (fat_sector vol.fat2_start_lba c)) (fat_offset c) v)

module _ (accepts : ℕ → ℕ → Bool) (vol : Fat32Volume) (blocks : ℕ → Sector) (c v : ℕ)
    (ok : VolumeOk accepts vol) (low : c ≤ vol.total_clusters + 1) where
  sectors_differ :
      (d e : ℕ)
      → d ≤ vol.total_clusters + 1
      → e ≤ vol.total_clusters + 1
      → fat_sector vol.fat_start_lba d ≢ fat_sector vol.fat2_start_lba e
  sectors_differ d e hd he same =
      let (a, b) = sector_bounds accepts vol true d ok hd in
      let (a', b') = sector_bounds accepts vol false e ok he in absurd (omega (arith, ok.second))

  room :
      (start d : ℕ)
      → d ≤ vol.total_clusters + 1
      → start + vol.fat_size_32 ≤ vol.data_start_lba
      → start + d * 4 / block_size < 4294967296
  room start d h k = omega (arith, ok.fits, ok.size)

  pub both_written_entry :
      (first : Bool) (e : ℕ)
      → e ≤ vol.total_clusters + 1
      → fat_entry (both_written vol blocks c v) (table_start vol first) e
        ≡ (if e == c then masked v else fat_entry blocks (table_start vol first) e)
  both_written_entry true e h =
      fat_entry_of (both_written vol blocks c v) (first_written vol blocks c v) vol.fat_start_lba e
        (rw
          (==_ne (fat_sector vol.fat_start_lba e) (fat_sector vol.fat2_start_lba c)
            (sectors_differ e c h low))
          refl)
      ∙ fat_entry-set_block blocks vol.fat_start_lba c e v (omega (arith, ok.clusters))
          (omega (arith, ok.clusters))
          (room vol.fat_start_lba c low (omega (arith, ok.second, ok.behind)))
          (room vol.fat_start_lba e h (omega (arith, ok.second, ok.behind)))
  both_written_entry false e h =
      fat_entry-set_block (first_written vol blocks c v) vol.fat2_start_lba c e v
        (omega (arith, ok.clusters)) (omega (arith, ok.clusters))
        (room vol.fat2_start_lba c low ok.behind) (room vol.fat2_start_lba e h ok.behind)
      ∙ ap (λ x. if e == c then masked v else x)
          (fat_entry_of (first_written vol blocks c v) blocks vol.fat2_start_lba e (
            rw
              (==_ne (fat_sector vol.fat2_start_lba e) (fat_sector vol.fat_start_lba c)
                (λ z. sectors_differ c e low h (sym z)))
              refl))

  pub both_written_rest :
      (l : ℕ) → vol.data_start_lba ≤ l → both_written vol blocks c v l ≡ blocks l
  both_written_rest l h =
      let (a, b) = sector_bounds accepts vol true c ok low in
      let (a', b') = sector_bounds accepts vol false c ok low in
      rw
        (
          ==_ne l (fat_sector vol.fat2_start_lba c) (λ z. absurd (omega (arith, ok.behind))),
          ==_ne l (fat_sector vol.fat_start_lba c)
              (λ z. absurd (omega (arith, ok.second, ok.behind))),
        )
        refl

module _ {D : Type 0} (disks : Disks D) (is : IsDisks disks) where
  open is use {accepts, holds}

  -- An entry of the table, in the first copy or in the second.
  abbrev pub entry : Fat D → Bool → ℕ → ℕ
  entry s first c = fat_entry (through disks is s s.vol.dev) (table_start s.vol first) c

  -- Both copies changed by `g`, which maps an entry's cluster and value to the new value; the
  -- data blocks are as they were.
  pub record Becomes (s : Fat D) (y : Store D) (g : ℕ → ℕ → ℕ) : Type 0 where
    pub coherent : Coherent disks is (at s y)
    pub entries :
        (first : Bool) (e : ℕ)
        → in_volume s.vol e ≡ true
        → entry (at s y) first e ≡ g e (entry s first e)
    pub rest :
        (l : ℕ)
        → s.vol.data_start_lba ≤ l
        → through disks is (at s y) s.vol.dev l ≡ through disks is s s.vol.dev l

  pub Keeps-Becomes :
      (s : Fat D) (y : Store D)
      → Keeps disks is s y (through disks is s s.vol.dev)
      → Becomes s y (λ e v. v)
  Keeps-Becomes s y k = record {
    coherent = k.coherent;
    entries = λ first e h.
        fat_entry_of (through disks is (at s y) s.vol.dev) (through disks is s s.vol.dev)
          (table_start s.vol first) e (k.shown (fat_sector (table_start s.vol first) e));
    rest = λ l h. k.shown l;
  }

  pub Becomes-trans :
      (s : Fat D) (y z : Store D) (g h : ℕ → ℕ → ℕ)
      → Becomes s y g
      → Becomes (at s y) z h
      → Becomes s z (λ e v. h e (g e v))
  Becomes-trans s y z g h p q = record {
    coherent = q.coherent;
    entries = λ first e i. q.entries first e i ∙ ap (h e) (p.entries first e i);
    rest = λ l i. q.rest l i ∙ p.rest l i;
  }

  pub Becomes-eq :
      (s : Fat D) (y : Store D) (g h : ℕ → ℕ → ℕ)
      → ((e v : ℕ) → g e v ≡ h e v)
      → Becomes s y g
      → Becomes s y h
  Becomes-eq s y g h k p = record {
    coherent = p.coherent;
    entries = λ first e i. p.entries first e i ∙ k e (entry s first e);
    rest = p.rest;
  }

  pub fat_sector_takes :
      (s : Fat D) (first : Bool) (c : ℕ)
      → VolumeOk accepts s.vol
      → in_volume s.vol c ≡ true
      → accepts s.vol.dev (fat_sector (table_start s.vol first) c) ≡ true
  fat_sector_takes s first c ok h =
      let (lo, hi) = cluster_bounds s.vol c ok.clusters h in
      let (a, b) = sector_bounds accepts s.vol first c ok hi in ok.takes _ (behind_data first b)
    where
      behind_data :
          (first : Bool)
          → fat_sector (table_start s.vol first) c < table_start s.vol first + s.vol.fat_size_32
          → fat_sector (table_start s.vol first) c
            < s.vol.data_start_lba + s.vol.total_clusters * s.vol.sectors_per_cluster
      behind_data true b = omega (arith, ok.second, ok.behind)
      behind_data false b = omega (arith, ok.behind)

  -- fat32_read_fat of a cluster of the volume.
  pub fat32_read_fat-entry :
      (s : Fat D) (c : ℕ)
      → VolumeOk accepts s.vol
      → Coherent disks is s
      → in_volume s.vol c ≡ true
      → (y : Store D) × (fat32_read_fat disks c s ≡ (some (entry s true c), at s y))
        × Becomes s y (λ e v. v)
  unfolding fat32_read_fat
  fat32_read_fat-entry s c ok k h =
      let (y, e, p) =
        read_stored disks is s (fat_sector s.vol.fat_start_lba c) k
          (fat_sector_takes s true c ok h) in
      (y, rw (h, e) refl, Keeps-Becomes s y p)

  -- On a volume whose FSInfo sectors, two tables and data lie behind each other, with room for
  -- every cluster, on a device that takes their blocks (VolumeOk), and with a coherent cache:
  -- fat32_write_fat of a cluster of the volume succeeds, sets that entry to the value's low 28
  -- bits in both copies of the table, and changes no other entry and no data block.
  pub fat32_write_fat-entry :
      (s : Fat D) (c v : ℕ)
      → VolumeOk accepts s.vol
      → Coherent disks is s
      → in_volume s.vol c ≡ true
      → (y : Store D) × (fat32_write_fat disks c v s ≡ (some tt, at s y))
        × Becomes s y (λ e old. if e == c then masked v else old)
  unfolding fat32_write_fat
  fat32_write_fat-entry s c v ok k h =
      let (y, e, p) =
        write_entry_stored disks is s s.vol.fat_start_lba c v k (fat_sector_takes s true c ok h) in
      second y e p (
        write_entry_stored disks is (at s y) s.vol.fat2_start_lba c v p.coherent
          (fat_sector_takes s false c ok h))
    where
      b : ℕ → Sector
      b = through disks is s s.vol.dev

      twice :
          (b' : ℕ → Sector)
          → ((l : ℕ) → b' l ≡ first_written s.vol b c v l)
          → (l : ℕ)
          → set_block b'
              (fat_sector s.vol.fat2_start_lba c)
              (put_entry (b' (fat_sector s.vol.fat2_start_lba c)) (fat_offset c) v)
              l
            ≡ both_written s.vol b c v l
      twice b' same l =
          ap
            (λ (r : ℕ → Sector).
              set_block r (fat_sector s.vol.fat2_start_lba c)
                (put_entry (r (fat_sector s.vol.fat2_start_lba c)) (fat_offset c) v) l)
            (fun_ext same)

      second :
          (y : Store D)
          → write_entry disks s.vol.fat_start_lba c v s ≡ (some tt, at s y)
          → Keeps disks is s y (first_written s.vol b c v)
          → (z : Store D) × (write_entry disks s.vol.fat2_start_lba c v (at s y)
              ≡ (some tt, at (at s y) z))
            × Keeps disks is (at s y) z (
                set_block
                  (through disks is (at s y) s.vol.dev)
                  (fat_sector s.vol.fat2_start_lba c)
                  (put_entry
                    (through disks is (at s y) s.vol.dev (fat_sector s.vol.fat2_start_lba c))
                    (fat_offset c)
                    v))
          → (y : Store D) × (fat32_write_fat disks c v s ≡ (some tt, at s y))
            × Becomes s y (λ e old. if e == c then masked v else old)
      second y e p (z, f, q) = (
        z,
        rw (h, e) f,
        record {
          coherent = q.coherent;
          entries = λ first e' h'.
              fat_entry_of (through disks is (at s z) s.vol.dev) (both_written s.vol b c v)
                (table_start s.vol first) e' (shown (fat_sector (table_start s.vol first) e'))
              ∙ both_written_entry accepts s.vol b c v ok (cluster_bounds s.vol c ok.clusters h).1
                  first e' (cluster_bounds s.vol e' ok.clusters h').1;
          rest = λ l h'.
              shown l
              ∙ both_written_rest accepts s.vol b c v ok (cluster_bounds s.vol c ok.clusters h).1 l
                  h';
        },
      )
        where
          shown : (l : ℕ) → through disks is (at s z) s.vol.dev l ≡ both_written s.vol b c v l
          shown l = q.shown l ∙ twice (through disks is (at s y) s.vol.dev) p.shown l
