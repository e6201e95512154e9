-- ===== src/Fat/Table/Entries.antt =====
-- Reading and writing entries of the file allocation table of fs/fat32.c through its cache.
use coffee_os_aurora_refresh.Base.{
  ℕ, ◌+◌, ◌≤◌, ◌<◌, ◌≡◌, refl, ◌∙◌, ap, true, some, Array, ◌==◌, if◌then◌else◌, ==_self, arith,
}
use coffee_os_aurora_refresh.Disk.{Sector, Disks, IsDisks}
use coffee_os_aurora_refresh.Fat.Cache.{SectorCacheEntry, Fat32Volume, Fat, cache_read, cache_write}
use coffee_os_aurora_refresh.Fat.Cache.View.{through, Coherent, Shows}
use coffee_os_aurora_refresh.Fat.Cache.Ops.{cache_read-Shows}
use coffee_os_aurora_refresh.Fat.Cache.Flush.{changed, cache_write-Shows}
use coffee_os_aurora_refresh.Fat.Table.{
  fat32_bad, in_volume, fat_sector, fat_offset, put_entry, write_entry,
}
use coffee_os_aurora_refresh.Fat.Table.View.{set_block}

-- What the cache and the devices hold after a call, and the state with it.
pub record Store (D : Type 0) : Type 0 where
  pub cache : Array SectorCacheEntry
  pub disk : D

abbrev pub at : {D : Type 0} → Fat D → Store D → Fat D
at s y = record s { sector_cache = y.cache; disk = y.disk }

-- The bounds that the tests of the code and the layout of the volume give.
pub cluster_bounds :
    (vol : Fat32Volume) (c : ℕ)
    → vol.total_clusters + 1 < fat32_bad
    → in_volume vol c ≡ true
    → (2 ≤ c) × (c ≤ vol.total_clusters + 1)
cluster_bounds vol c h e = (ground arith, ground arith)

module _ {D : Type 0} (disks : Disks D) (is : IsDisks disks) where
  open is use {accepts, holds}

  -- The blocks of the volume's device after a call.
  pub record Keeps (s : Fat D) (y : Store D) (blocks : ℕ → Sector) : Type 0 where
    pub coherent : Coherent disks is (at s y)
    pub shown : (l : ℕ) → through disks is (at s y) s.vol.dev l ≡ blocks l

  pub Shows-Keeps :
      (s t : Fat D) (what : ℕ → ℕ → Sector)
      → Shows disks is s t what
      → Keeps s (record { cache = t.sector_cache; disk = t.disk }) (what s.vol.dev)
  Shows-Keeps s t what v = record { coherent = v.coherent; shown = λ l. v.blocks s.vol.dev l }

  pub at-volume :
      (s t : Fat D) → t.vol ≡ s.vol → t ≡ at s (record { cache = t.sector_cache; disk = t.disk })
  at-volume s t e = ap (λ (v : Fat32Volume). record t { vol = v }) e

  pub read_stored :
      (s : Fat D) (lba : ℕ)
      → Coherent disks is s
      → accepts s.vol.dev lba ≡ true
      → (y : Store D) × (cache_read disks lba s ≡ (some (through disks is s s.vol.dev lba), at s y))
        × Keeps s y (through disks is s s.vol.dev)
  read_stored s lba c a = stored (cache_read-Shows disks is s lba c a)
    where
      stored :
          (t : Fat D) × (cache_read disks lba s ≡ (some (through disks is s s.vol.dev lba), t))
            × Shows disks is s t (through disks is s)
          → (y : Store D) × (cache_read disks lba s
              ≡ (some (through disks is s s.vol.dev lba), at s y))
            × Keeps s y (through disks is s s.vol.dev)
      stored (t, e, v) = (
        record { cache = t.sector_cache; disk = t.disk },
        e
            ∙ ap (λ (u : Fat D). (some (through disks is s s.vol.dev lba), u))
                (at-volume s t v.volume),
        Shows-Keeps s t (through disks is s) v,
      )

  pub write_stored :
      (s : Fat D) (lba : ℕ) (x : Sector)
      → Coherent disks is s
      → accepts s.vol.dev lba ≡ true
      → (y : Store D) × (cache_write disks lba x s ≡ (some tt, at s y))
        × Keeps s y (set_block (through disks is s s.vol.dev) lba x)
  write_stored s lba x c a = stored (cache_write-Shows disks is s lba x c a)
    where
      stored :
          (t : Fat D) × (cache_write disks lba x s ≡ (some tt, t))
            × Shows disks is s t (changed disks is (through disks is s) s.vol.dev lba x)
          → (y : Store D) × (cache_write disks lba x s ≡ (some tt, at s y))
            × Keeps s y (set_block (through disks is s s.vol.dev) lba x)
      stored (t, e, v) = (
        record { cache = t.sector_cache; disk = t.disk },
        e ∙ ap (λ (u : Fat D). (some tt, u)) (at-volume s t v.volume),
        record {
          coherent = v.coherent;
          shown = λ l. v.blocks s.vol.dev l ∙ rw (==_self s.vol.dev) refl;
        },
      )

  -- One copy of an entry written.
  pub write_entry_stored :
      (s : Fat D) (start c v : ℕ)
      → Coherent disks is s
      → accepts s.vol.dev (fat_sector start c) ≡ true
      → (y : Store D) × (write_entry disks start c v s ≡ (some tt, at s y))
        × Keeps s y (
            set_block
              (through disks is s s.vol.dev)
              (fat_sector start c)
              (put_entry (through disks is s s.vol.dev (fat_sector start c)) (fat_offset c) v))
  unfolding write_entry
  write_entry_stored s start c v k a = wrote (read_stored s (fat_sector start c) k a)
    where
      x : Sector
      x = put_entry (through disks is s s.vol.dev (fat_sector start c)) (fat_offset c) v

      both :
          (y : Store D)
          → cache_read disks (fat_sector start c) s
            ≡ (some (through disks is s s.vol.dev (fat_sector start c)), at s y)
          → Keeps s y (through disks is s s.vol.dev)
          → (z : Store D) × (cache_write disks (fat_sector start c) x (at s y)
              ≡ (some tt, at (at s y) z))
            × Keeps
                (at s y)
                z
                (set_block (through disks is (at s y) s.vol.dev) (fat_sector start c) x)
          → (y : Store D) × (write_entry disks start c v s ≡ (some tt, at s y))
            × Keeps s y (set_block (through disks is s s.vol.dev) (fat_sector start c) x)
      both y e p (z, f, q) = (
        z,
        rw e f,
        record {
          coherent = q.coherent;
          shown = λ l. q.shown l ∙ ap (λ r. if l == fat_sector start c then x else r) (p.shown l);
        },
      )

      wrote :
          (y : Store D) × (cache_read disks (fat_sector start c) s
              ≡ (some (through disks is s s.vol.dev (fat_sector start c)), at s y))
            × Keeps s y (through disks is s s.vol.dev)
          → (y : Store D) × (write_entry disks start c v s ≡ (some tt, at s y))
            × Keeps s y (set_block (through disks is s s.vol.dev) (fat_sector start c) x)
      wrote (y, e, p) = both y e p (write_stored (at s y) (fat_sector start c) x p.coherent a)
