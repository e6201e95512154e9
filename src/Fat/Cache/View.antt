-- ===== src/Fat/Cache/View.antt =====
-- What the sector cache of fs/fat32.c shows of the devices behind it, and what its operations do
-- to that view.
use coffee_os_aurora_refresh.Base.{
  ℕ, ◌%◌, ◌<◌, ◌≡◌, ◌≢◌, inl, inr, refl, sym, Bool, true, false, not, ◌&&◌, ◌||◌, some, Array,
  update, ltb, ◌==◌, if◌then◌else◌, Bool-cases, eq_cases, update_self, update_ne, lt→ltb, arith,
}
use coffee_os_aurora_refresh.Disk.{Sector, Disks, IsDisks}
use coffee_os_aurora_refresh.Fat.Cache.{
  SectorCacheEntry, Fat, cache_blocks, caches, no_owner, write_back, cache_flush_slot,
}

-- The block that a client of the cache sees.
abbrev pub seen : (ℕ → ℕ → Sector) → Array SectorCacheEntry → ℕ → ℕ → Sector
seen holds cache dev lba =
    if caches (cache (lba % cache_blocks)) dev lba
    then (cache (lba % cache_blocks)).bytes
    else holds dev lba

-- A slot in use holds a block that belongs there and that its device takes; a clean one agrees
-- with the device.
abbrev pub SlotOk : (ℕ → ℕ → Bool) → (ℕ → ℕ → Sector) → ℕ → SectorCacheEntry → Type 0
SlotOk accepts holds i e =
    e.valid ≡ true
    → (o : ℕ) × (e.lba % cache_blocks ≡ i)
      × (e.owner ≡ some o)
      × (accepts o e.lba ≡ true)
      × (e.dirty ≡ false → e.bytes ≡ holds o e.lba)

-- A slot written back to the device that owns it.
module _ (cache : Array SectorCacheEntry) (holds holds' : ℕ → ℕ → Sector) (i o : ℕ)
    (placed : (cache i).lba % cache_blocks ≡ i) (owner : (cache i).owner ≡ some o)
    (valid : (cache i).valid ≡ true)
    (wrote : (e j : ℕ)
      → holds' e j ≡ (if e == o && j == (cache i).lba then (cache i).bytes else holds e j)) where
  cleaned : Array SectorCacheEntry
  cleaned = update cache i (record (cache i) { dirty = false })

  written_seen : (dev lba : ℕ) → seen holds' cleaned dev lba ≡ seen holds cache dev lba
  unfolding cleaned
  written_seen dev lba = elim (eq_cases i (lba % cache_blocks)) [
    | inl e ↦
        rw
          (
            sym e,
            update_self cache i (record (cache i) { dirty = false }),
            owner,
            valid,
            wrote dev lba,
          )
          (ground arith)
    | inr n ↦
        rw
          (
            update_ne cache i (lba % cache_blocks) (record (cache i) { dirty = false }) n,
            wrote dev lba,
          )
          (ground (arith, placed))
  ]

  written_slot :
      (accepts : ℕ → ℕ → Bool) (j : ℕ)
      → SlotOk accepts holds j (cache j)
      → SlotOk accepts holds' j (cleaned j)
  unfolding cleaned
  written_slot accepts j ok = elim (eq_cases i j) [
    | inl e ↦
        let here : SlotOk accepts holds i (cache i) = rw (← e) at ok in
        let (o', p, q, a, c) = here valid in
        let same : o ≡ o' = cc in
        rw (sym e, update_self cache i (record (cache i) { dirty = false }))
          (λ v. (o', p, q, a, λ d. ground (arith, wrote o' (cache i).lba)))
    | inr n ↦ rw (update_ne cache i j (record (cache i) { dirty = false }) n) (λ v.
        let (o', p, q, a, c) = ok v in
        (o', p, q, a, λ d. ground (arith, c d, placed, wrote o' (cache j).lba)))
  ]

dirty_slot :
    (e : SectorCacheEntry) (i o : ℕ)
    → i < cache_blocks
    → e.valid ≡ true
    → e.dirty ≡ true
    → e.owner ≡ some o
    → (not (ltb i cache_blocks) || not e.valid || not e.dirty || no_owner e.owner) ≡ false
dirty_slot e i o h v d p = rw (lt→ltb i cache_blocks h, v, d, p) refl

module _ {D : Type 0} (disks : Disks D) (is : IsDisks disks) where
  open is use {accepts, holds}

  abbrev pub through : Fat D → ℕ → ℕ → Sector
  through s dev lba = seen (holds s.disk) s.sector_cache dev lba

  abbrev pub Coherent : Fat D → Type 0
  Coherent s = (i : ℕ) → i < cache_blocks → SlotOk accepts (holds s.disk) i (s.sector_cache i)

  -- Two states that show the same blocks.
  pub record Shows (s t : Fat D) (what : ℕ → ℕ → Sector) : Type 0 where
    pub coherent : Coherent t
    pub volume : t.vol ≡ s.vol
    pub blocks : (dev lba : ℕ) → through t dev lba ≡ what dev lba

  -- A slot written back.
  pub record Flushed (s t : Fat D) (i : ℕ) : Type 0 where
    pub shows : Shows s t (through s)
    pub clean : (t.sector_cache i).valid ≡ true → (t.sector_cache i).dirty ≡ false
    pub others : (j : ℕ) → j ≢ i → t.sector_cache j ≡ s.sector_cache j

  write_back-some :
      (e : SectorCacheEntry) (o : ℕ) (d d' : D)
      → e.owner ≡ some o
      → disks.write d o e.lba e.bytes ≡ some d'
      → write_back disks e d ≡ some d'
  unfolding write_back
  write_back-some e o d d' p q = rw (p, q) refl

  cache_flush_slot_dirty :
      (s : Fat D) (i : ℕ)
      → Coherent s
      → i < cache_blocks
      → (s.sector_cache i).valid ≡ true
      → (s.sector_cache i).dirty ≡ true
      → (t : Fat D) × (cache_flush_slot disks i s ≡ (some tt, t)) × Flushed s t i
  unfolding cache_flush_slot cleaned
  cache_flush_slot_dirty s i c h v d =
      let (o, placed, owner, takes, clean) = c i h v in
      let (d', wrote, then') =
        is.write_in s.disk o (s.sector_cache i).lba (s.sector_cache i).bytes takes in
      (
        record s {
          sector_cache = update s.sector_cache i (record (s.sector_cache i) { dirty = false });
          disk = d';
        },
        rw
            (
              dirty_slot (s.sector_cache i) i o h v d owner,
              write_back-some (s.sector_cache i) o s.disk d' owner wrote,
            )
            refl,
        record {
          shows = record {
            coherent = λ j k.
                written_slot s.sector_cache (holds s.disk) (holds d') i o placed owner v then'
                  accepts j (c j k);
            volume = refl;
            blocks = written_seen s.sector_cache (holds s.disk) (holds d') i o placed owner v then';
          };
          clean = λ e. ground arith;
          others = λ j n. update_ne s.sector_cache i j _ (λ e. n (sym e));
        },
      )

  cache_flush_slot_clean :
      (s : Fat D) (i : ℕ)
      → Coherent s
      → (not (s.sector_cache i).valid || not (s.sector_cache i).dirty) ≡ true
      → (cache_flush_slot disks i s ≡ (some tt, s)) × Flushed s s i
  unfolding cache_flush_slot
  cache_flush_slot_clean s i c e = (
    ground arith,
    record {
      shows = record { coherent = c; volume = refl; blocks = λ dev lba. refl };
      clean = λ v. ground arith;
      others = λ j n. refl;
    },
  )

  pub cache_flush_slot-Flushed :
      (s : Fat D) (i : ℕ)
      → Coherent s
      → i < cache_blocks
      → (t : Fat D) × (cache_flush_slot disks i s ≡ (some tt, t)) × Flushed s t i
  cache_flush_slot-Flushed s i c h =
      elim (Bool-cases (not (s.sector_cache i).valid || not (s.sector_cache i).dirty)) [
        | inl e ↦ (s, (cache_flush_slot_clean s i c e).0, (cache_flush_slot_clean s i c e).1)
        | inr e ↦ cache_flush_slot_dirty s i c h (ground arith) (ground arith)
      ]
