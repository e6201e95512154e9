-- ===== src/Fat/Table/Barrier.antt =====
-- Writes past the cache of fs/fat32.c, and fat32_write_barrier.
use coffee_os_aurora_refresh.Base.{
  ℕ, ◌+◌, ◌%◌, ◌≤◌, ◌≡◌, ◌≢◌, inl, inr, refl, sym, ◌∙◌, ap, Bool, true, false, ◌&&◌, none, some,
  Array, update, update_self, update_ne, ◌==◌, if◌then◌else◌, Bool-cases, eq_cases, ==_self, ==_ne,
  u32, arith,
}
use coffee_os_aurora_refresh.Disk.{Sector, Disks, IsDisks}
use coffee_os_aurora_refresh.Fat.Cache.{
  SectorCacheEntry, Fat, cache_blocks, caches, cache_invalidate_lba, fat32_cache_flush,
}
use coffee_os_aurora_refresh.Fat.Cache.View.{seen, SlotOk, through, Coherent, Shows}
use coffee_os_aurora_refresh.Fat.Cache.Flush.{fat32_cache_flush-through}
use coffee_os_aurora_refresh.Fat.Table.{
  fat_sector, fsinfo_sector, device_read, device_write, fat32_update_fsinfo, fat32_write_barrier,
}
use coffee_os_aurora_refresh.Fat.Table.FsInfo.{FsInfo, fsinfo_sector-FsInfo, written-FsInfo}
use coffee_os_aurora_refresh.Fat.Table.View.{VolumeOk, set_block, table_start}
use coffee_os_aurora_refresh.Fat.Table.Entries.{Store, at, Keeps, Shows-Keeps, at-volume}
use coffee_os_aurora_refresh.Fat.Table.Copies.{
  Becomes, Keeps-Becomes, Becomes-trans, fat_entry_of, tables_behind,
}

-- A block written to the device while the cache drops its copy.
abbrev dropped : Array SectorCacheEntry → ℕ → ℕ → Array SectorCacheEntry
dropped cache dev lba =
    if caches (cache (lba % cache_blocks)) dev lba
    then update cache (lba % cache_blocks)
        (record (cache (lba % cache_blocks)) { valid = false; dirty = false; owner = none })
    else cache

module _ (cache : Array SectorCacheEntry) (holds holds' : ℕ → ℕ → Sector) (dev lba : ℕ) (x : Sector)
    (wrote : (e j : ℕ) → holds' e j ≡ (if e == dev && j == lba then x else holds e j)) where
  seen-dropped :
      (l : ℕ) → seen holds' (dropped cache dev lba) dev l ≡ set_block (seen holds cache dev) lba x l
  seen-dropped l = elim (Bool-cases (caches (cache (lba % cache_blocks)) dev lba)) [
    | inl c ↦ elim (eq_cases (lba % cache_blocks) (l % cache_blocks)) [
      | inl k ↦ rw (c, sym k, update_self cache (lba % cache_blocks) _, wrote dev l) (ground arith)
      | inr n ↦
          rw (c, update_ne cache (lba % cache_blocks) (l % cache_blocks) _ n, wrote dev l)
            (ground arith)
    ]
    | inr c ↦ rw (c, wrote dev l) (ground arith)
  ]

  kept_slot :
      (accepts : ℕ → ℕ → Bool) (j : ℕ) (e : SectorCacheEntry)
      → SlotOk accepts holds j e
      → (e.lba % cache_blocks ≡ j → caches e dev lba ≡ false)
      → SlotOk accepts holds' j e
  kept_slot accepts j e ok other v =
      let (o, p, q, a, clean) = ok v in
      let apart : (e.valid && e.lba == lba && o == dev) ≡ false = rw q at other p in
      (o, p, q, a, λ d. clean d ∙ sym (wrote o e.lba ∙ ground arith))

  dropped_slot :
      (accepts : ℕ → ℕ → Bool) (j : ℕ)
      → SlotOk accepts holds j (cache j)
      → SlotOk accepts holds' j (dropped cache dev lba j)
  dropped_slot accepts j ok = elim (Bool-cases (caches (cache (lba % cache_blocks)) dev lba)) [
    | inl c ↦ elim (eq_cases (lba % cache_blocks) j) [
      | inl k ↦ rw (c, sym k, update_self cache (lba % cache_blocks) _) (λ v. absurd (ground arith))
      | inr n ↦
          rw (c, update_ne cache (lba % cache_blocks) j _ n)
            (kept_slot accepts j (cache j) ok (λ p. away (cache j) j p n))
    ]
    | inr c ↦ rw c (
        kept_slot accepts j (cache j) ok (λ p. elim (eq_cases (lba % cache_blocks) j) [
          | inl k ↦ ap (λ i. caches (cache i) dev lba) (sym k) ∙ c
          | inr n ↦ away (cache j) j p n
        ]))
  ]
    where
      away :
          (e : SectorCacheEntry) (j : ℕ)
          → e.lba % cache_blocks ≡ j
          → lba % cache_blocks ≢ j
          → caches e dev lba ≡ false
      away e j p n =
          ground (arith, ==_ne e.lba lba (λ z. n (ap (λ r. r % cache_blocks) (sym z) ∙ p)))

module _ {D : Type 0} (disks : Disks D) (is : IsDisks disks) where
  open is use {accepts, holds}

  invalidated :
      (s : Fat D) (lba : ℕ)
      → cache_invalidate_lba disks lba s
        ≡ (some tt, record s { sector_cache = dropped s.sector_cache s.vol.dev lba })
  unfolding cache_invalidate_lba
  invalidated s lba =
      elim (Bool-cases (caches (s.sector_cache (lba % cache_blocks)) s.vol.dev lba)) [
        | inl c ↦ rw c refl
        | inr c ↦ rw c refl
      ]

  pub device_write-Keeps :
      (s : Fat D) (lba : ℕ) (x : Sector)
      → Coherent disks is s
      → accepts s.vol.dev lba ≡ true
      → (y : Store D) × (device_write disks lba x s ≡ (some tt, at s y))
        × Keeps disks is s y (set_block (through disks is s s.vol.dev) lba x)
        × ((l : ℕ) → holds y.disk s.vol.dev l ≡ set_block (holds s.disk s.vol.dev) lba x l)
  unfolding device_write
  device_write-Keeps s lba x c a =
      let (d', e, wrote) = is.write_in s.disk s.vol.dev lba x a in
      (
        record { cache = dropped s.sector_cache s.vol.dev lba; disk = d' },
        rw (e, device_write) (invalidated (record s { disk = d' }) lba),
        record {
          coherent = λ j h.
              dropped_slot s.sector_cache (holds s.disk) (holds d') s.vol.dev lba x wrote accepts j
                (c j h);
          shown = seen-dropped s.sector_cache (holds s.disk) (holds d') s.vol.dev lba x wrote;
        },
        λ l. wrote s.vol.dev l ∙ rw (==_self s.vol.dev) refl,
      )

  -- The device holds what the cache shows.
  abbrev pub Durable : Fat D → Store D → Type 0
  Durable s y = (l : ℕ) → holds y.disk s.vol.dev l ≡ through disks is (at s y) s.vol.dev l

  -- Both FSInfo sectors of the device hold the signatures and the volume's counters.
  abbrev pub Informed : Fat D → Store D → Type 0
  Informed s y =
      FsInfo (holds y.disk s.vol.dev s.vol.fs_info_sector) s.vol.free_clusters s.vol.next_free
      × FsInfo (holds y.disk s.vol.dev (u32 (s.vol.backup_boot_sector + 1))) s.vol.free_clusters
          s.vol.next_free

  -- fat32_update_fsinfo.
  pub fat32_update_fsinfo-Becomes :
      (s : Fat D)
      → VolumeOk accepts s.vol
      → Coherent disks is s
      → ((l : ℕ) → holds s.disk s.vol.dev l ≡ through disks is s s.vol.dev l)
      → (y : Store D) × (fat32_update_fsinfo disks s ≡ (some tt, at s y))
        × Becomes disks is s y (λ e v. v)
        × Durable s y
        × Informed s y
  unfolding fat32_update_fsinfo device_read
  fat32_update_fsinfo-Becomes s ok c same =
      let (y, e, p, r) =
        device_write-Keeps s l1 x c (ok.takes l1 (omega (arith, ok.info, ok.second, ok.behind))) in
      both y e p r (
        device_write-Keeps (at s y) l2 x p.coherent
          (ok.takes l2 (omega (arith, ok.backup, ok.second, ok.behind))))
    where
      b : ℕ → Sector
      b = through disks is s s.vol.dev

      l1 : ℕ
      l1 = s.vol.fs_info_sector

      l2 : ℕ
      l2 = u32 (s.vol.backup_boot_sector + 1)

      x : Sector
      x = fsinfo_sector (holds s.disk s.vol.dev l1) s.vol.free_clusters s.vol.next_free

      both :
          (y : Store D)
          → device_write disks l1 x s ≡ (some tt, at s y)
          → Keeps disks is s y (set_block b l1 x)
          → ((l : ℕ) → holds y.disk s.vol.dev l ≡ set_block (holds s.disk s.vol.dev) l1 x l)
          → (z : Store D) × (device_write disks l2 x (at s y) ≡ (some tt, at s z))
            × Keeps disks is (at s y) z (set_block (through disks is (at s y) s.vol.dev) l2 x)
            × ((l : ℕ) → holds z.disk s.vol.dev l ≡ set_block (holds y.disk s.vol.dev) l2 x l)
          → (z : Store D) × (fat32_update_fsinfo disks s ≡ (some tt, at s z))
            × Becomes disks is s z (λ e v. v)
            × Durable s z
            × Informed s z
      both y e p r (z, f, q, t) = (
        z,
        rw
            (
              is.read_in s.disk s.vol.dev l1
                  (ok.takes l1 (omega (arith, ok.info, ok.second, ok.behind))),
              e,
            )
            f,
        record {
          coherent = q.coherent;
          entries = λ first c h.
              fat_entry_of (through disks is (at s z) s.vol.dev) b (table_start s.vol first) c (
                away (fat_sector (table_start s.vol first) c)
                  (tables_behind accepts s.vol first c ok h));
          rest = λ l h. away l (omega (arith, h, ok.second, ok.behind));
        },
        λ l.
            t l
            ∙ ap (λ v. if l == l2 then x else v)
                (r l ∙ ap (λ v. if l == l1 then x else v) (same l) ∙ sym (p.shown l))
            ∙ sym (q.shown l),
        written-FsInfo (holds s.disk s.vol.dev) (holds y.disk s.vol.dev) (holds z.disk s.vol.dev) l1
            l2 x s.vol.free_clusters s.vol.next_free
            (fsinfo_sector-FsInfo (holds s.disk s.vol.dev l1) s.vol.free_clusters s.vol.next_free) r
            t,
      )
        where
          away : (l : ℕ) → s.vol.fat_start_lba ≤ l → through disks is (at s z) s.vol.dev l ≡ b l
          away l h =
              q.shown l
              ∙ rw
                  (
                    ==_ne l l2 (λ k. absurd (omega (arith, ok.backup))),
                    p.shown l,
                    ==_ne l l1 (λ k. absurd (omega (arith, ok.info))),
                  )
                  refl

  flush_kept :
      (s : Fat D)
      → Coherent disks is s
      → (y : Store D) × (fat32_cache_flush disks s ≡ (some tt, at s y))
        × Keeps disks is s y (through disks is s s.vol.dev)
        × Durable s y
  flush_kept s c = stored (fat32_cache_flush-through disks is s c)
    where
      stored :
          (t : Fat D) × (fat32_cache_flush disks s ≡ (some tt, t))
            × Shows disks is s t (through disks is s)
            × ((lba : ℕ) → holds t.disk s.vol.dev lba ≡ through disks is s s.vol.dev lba)
          → (y : Store D) × (fat32_cache_flush disks s ≡ (some tt, at s y))
            × Keeps disks is s y (through disks is s s.vol.dev)
            × Durable s y
      stored (t, e, v, d) = (
        record { cache = t.sector_cache; disk = t.disk },
        e ∙ ap (λ (u : Fat D). (some tt, u)) (at-volume disks is s t v.volume),
        Shows-Keeps disks is s t (through disks is s) v,
        λ l. d l ∙ sym (v.blocks s.vol.dev l),
      )

  -- On a volume that is laid out as VolumeOk says, with a coherent cache: fat32_write_barrier
  -- succeeds and changes no entry of either table and no data block; afterwards the device holds
  -- every block that the cache shows, and both FSInfo sectors on the device, the backup
  -- included, hold the lead and structure signatures and the volume's free_clusters and
  -- next_free.
  pub fat32_write_barrier-Durable :
      (s : Fat D)
      → VolumeOk accepts s.vol
      → Coherent disks is s
      → (y : Store D) × (fat32_write_barrier disks s ≡ (some tt, at s y))
        × Becomes disks is s y (λ e v. v)
        × Durable s y
        × Informed s y
  unfolding fat32_write_barrier
  fat32_write_barrier-Durable s ok c =
      let (y, e, p, d) = flush_kept s c in
      then' y e p (fat32_update_fsinfo-Becomes (at s y) ok p.coherent d)
    where
      then' :
          (y : Store D)
          → fat32_cache_flush disks s ≡ (some tt, at s y)
          → Keeps disks is s y (through disks is s s.vol.dev)
          → (z : Store D) × (fat32_update_fsinfo disks (at s y) ≡ (some tt, at s z))
            × Becomes disks is (at s y) z (λ e v. v)
            × Durable (at s y) z
            × Informed (at s y) z
          → (y : Store D) × (fat32_write_barrier disks s ≡ (some tt, at s y))
            × Becomes disks is s y (λ e v. v)
            × Durable s y
            × Informed s y
      then' y e p (z, f, q, d, i) = (
        z,
        rw e f,
        Becomes-trans disks is s y z (λ e v. v) (λ e v. v) (Keeps-Becomes disks is s y p) q,
        d,
        i,
      )

  -- The part of it that allocation and freeing use.
  pub fat32_write_barrier-Becomes :
      (s : Fat D)
      → VolumeOk accepts s.vol
      → Coherent disks is s
      → (y : Store D) × (fat32_write_barrier disks s ≡ (some tt, at s y))
        × Becomes disks is s y (λ e v. v)
        × Durable s y
  fat32_write_barrier-Becomes s ok c =
      let (y, e, b, d, _) = fat32_write_barrier-Durable s ok c in (y, e, b, d)
