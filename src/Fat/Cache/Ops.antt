-- ===== src/Fat/Cache/Ops.antt =====
-- The sector cache of fs/fat32.c refines the devices behind it: reads give the blocks that the view
-- shows, writes change one block of the view, a flush brings the view to the device.
use coffee_os_aurora_refresh.Base.{
  ℕ, ◌%◌, ◌<◌, ◌≡◌, inl, inr, refl, sym, ◌∙◌, ap, Bool, true, false, ◌&&◌, some, Array, update,
  ◌==◌, if◌then◌else◌, if_intro, Bool-cases, eq_cases, update_self, update_ne, ==_self, ==_ne,
  arith,
}
use coffee_os_aurora_refresh.Disk.{Sector, Disks, IsDisks}
use coffee_os_aurora_refresh.Fat.Cache.{
  SectorCacheEntry, Fat32Volume, Fat, cache_blocks, caches, cache_flush_slot, fill_slot, cache_read,
}
use coffee_os_aurora_refresh.Fat.Cache.View.{
  seen, SlotOk, through, Coherent, Shows, Flushed, cache_flush_slot-Flushed,
}

-- A slot given over to a block.
module _ (cache : Array SectorCacheEntry) (holds : ℕ → ℕ → Sector) (dev lba : ℕ)
    (e : SectorCacheEntry) (valid : e.valid ≡ true) (block : e.lba ≡ lba)
    (owner : e.owner ≡ some dev)
    (agrees : (d l : ℕ)
      → caches (cache (lba % cache_blocks)) d l ≡ true
      → (d == dev && l == lba) ≡ false
      → (cache (lba % cache_blocks)).bytes ≡ holds d l) where
  pub placed_seen :
      (d l : ℕ)
      → seen holds (update cache (lba % cache_blocks) e) d l
        ≡ (if d == dev && l == lba then e.bytes else seen holds cache d l)
  placed_seen d l = elim (eq_cases (lba % cache_blocks) (l % cache_blocks)) [
    | inl k ↦
        rw (sym k, update_self cache (lba % cache_blocks) e, valid, block, owner)
          (ground (arith, agrees d l))
    | inr n ↦ rw (update_ne cache (lba % cache_blocks) (l % cache_blocks) e n) (ground arith)
  ]

  pub placed_slot :
      (accepts : ℕ → ℕ → Bool) (j : ℕ)
      → accepts dev lba ≡ true
      → (e.dirty ≡ false → e.bytes ≡ holds dev lba)
      → SlotOk accepts holds j (cache j)
      → SlotOk accepts holds j (update cache (lba % cache_blocks) e j)
  placed_slot accepts j a c ok = elim (eq_cases (lba % cache_blocks) j) [
    | inl k ↦
        rw (sym k, update_self cache (lba % cache_blocks) e)
          (λ v.
            (dev, ap (λ x. x % cache_blocks) block, owner, rw block a, λ d. c d ∙ rw block refl))
    | inr n ↦ rw (update_ne cache (lba % cache_blocks) j e n) ok
  ]

-- A block changed to what it was.
if_eq :
    (f : ℕ → ℕ → Sector) (dev lba : ℕ) (x : Sector)
    → x ≡ f dev lba
    → (d l : ℕ) → (if d == dev && l == lba then x else f d l) ≡ f d l
if_eq f dev lba x e d l = elim (eq_cases d dev) [
  | inl p ↦ elim (eq_cases l lba) [
    | inl q ↦ rw (p, q, ==_self dev, ==_self lba) e
    | inr q ↦
        rw (==_ne l lba q)
          (if_intro (λ y. y ≡ f d l) _ x (f d l) (λ z. absurd (ground arith)) (λ z. refl))
  ]
  | inr p ↦ rw (==_ne d dev p) refl
]

module _ {D : Type 0} (disks : Disks D) (is : IsDisks disks) where
  open is use {accepts, holds}

  -- A slot that was flushed agrees with the device.
  Flushed-agrees :
      (s t : Fat D) (i : ℕ)
      → i < cache_blocks
      → Flushed disks is s t i
      → (d l : ℕ) → caches (t.sector_cache i) d l ≡ true
      → (t.sector_cache i).bytes ≡ holds t.disk d l
  Flushed-agrees s t i h f d l k =
      let v : (t.sector_cache i).valid ≡ true = ground arith in
      let (o, p, q, a, c) = f.shows.coherent i h v in
      let same : (o ≡ d) × ((t.sector_cache i).lba ≡ l) = owner_of (t.sector_cache i) o d l q k in
      rw (sym same.0, sym same.1) (c (f.clean v))
    where
      owner_of :
          (e : SectorCacheEntry) (o d l : ℕ)
          → e.owner ≡ some o
          → caches e d l ≡ true
          → (o ≡ d) × (e.lba ≡ l)
      owner_of e o d l q k =
          let k' : (e.valid && e.lba == l && o == d) ≡ true = rw q at k in
          (ground arith, ground arith)

  -- The state after a miss: the slot flushed, then given to a block of the volume's device.
  pub taken-Shows :
      (s t : Fat D) (lba : ℕ) (x : Sector) (b : Bool)
      → Coherent disks is s
      → accepts t.vol.dev lba ≡ true
      → Flushed disks is s t (lba % cache_blocks)
      → (b ≡ false → x ≡ holds t.disk t.vol.dev lba)
      → Shows disks is s
          (record t {
            sector_cache =
                update t.sector_cache (lba % cache_blocks) (record {
                  lba = lba;
                  dirty = b;
                  valid = true;
                  bytes = x;
                  owner = some t.vol.dev;
                });
          })
          (λ d l. if d == t.vol.dev && l == lba then x else through disks is s d l)
  taken-Shows s t lba x b c a f z = record {
    coherent = λ j k.
        placed_slot t.sector_cache (holds t.disk) t.vol.dev lba e refl refl refl agrees accepts j a
          z (f.shows.coherent j k);
    volume = f.shows.volume;
    blocks = λ d l.
        placed_seen t.sector_cache (holds t.disk) t.vol.dev lba e refl refl refl agrees d l
        ∙ ap (λ r. if d == t.vol.dev && l == lba then x else r) (f.shows.blocks d l);
  }
    where
      e : SectorCacheEntry
      e = record { lba = lba; dirty = b; valid = true; bytes = x; owner = some t.vol.dev }

      agrees :
          (d l : ℕ)
          → caches (t.sector_cache (lba % cache_blocks)) d l ≡ true
          → (d == t.vol.dev && l == lba) ≡ false
          → (t.sector_cache (lba % cache_blocks)).bytes ≡ holds t.disk d l
      agrees d l p n = Flushed-agrees s t (lba % cache_blocks) (omega arith) f d l p

  pub Shows-eq :
      (s t : Fat D) (f g : ℕ → ℕ → Sector)
      → Shows disks is s t f
      → ((d l : ℕ) → f d l ≡ g d l)
      → Shows disks is s t g
  Shows-eq s t f g v e = record {
    coherent = v.coherent;
    volume = v.volume;
    blocks = λ d l. v.blocks d l ∙ e d l;
  }

  -- The state after a miss, with the block's bytes and the dirty flag.
  abbrev pub taken : Fat D → ℕ → Sector → Bool → Fat D
  taken t lba x b = record t {
    sector_cache =
        update t.sector_cache (lba % cache_blocks)
          (record { lba = lba; dirty = b; valid = true; bytes = x; owner = some t.vol.dev });
  }

  -- Behind a flushed slot the view is the device.
  Flushed-shows :
      (s t : Fat D) (d lba : ℕ)
      → Flushed disks is s t (lba % cache_blocks)
      → holds t.disk d lba ≡ through disks is s d lba
  Flushed-shows s t d lba f =
      elim (Bool-cases (caches (t.sector_cache (lba % cache_blocks)) d lba)) [
        | inl k ↦ sym (Flushed-agrees s t (lba % cache_blocks) (omega arith) f d lba k) ∙ rw k refl
        | inr k ↦ rw k refl
      ]
      ∙ f.shows.blocks d lba

  read_miss :
      (s t : Fat D) (lba : ℕ)
      → caches (s.sector_cache (lba % cache_blocks)) s.vol.dev lba ≡ false
      → cache_flush_slot disks (lba % cache_blocks) s ≡ (some tt, t)
      → accepts t.vol.dev lba ≡ true
      → cache_read disks lba s
        ≡ (some (holds t.disk t.vol.dev lba), taken t lba (holds t.disk t.vol.dev lba) false)
  unfolding cache_read fill_slot
  read_miss s t lba miss e a =
      rw (miss, e, fill_slot, is.read_in t.disk t.vol.dev lba a)
        (ap
          (λ (e : SectorCacheEntry). (some e.bytes, taken t lba (holds t.disk t.vol.dev lba) false))
          (update_self t.sector_cache (lba % cache_blocks) _))

  -- cache_read on a block that the volume's device takes.
  pub cache_read-Shows :
      (s : Fat D) (lba : ℕ)
      → Coherent disks is s
      → accepts s.vol.dev lba ≡ true
      → (t : Fat D) × (cache_read disks lba s ≡ (some (through disks is s s.vol.dev lba), t))
        × Shows disks is s t (through disks is s)
  unfolding cache_read
  cache_read-Shows s lba c a =
      elim (Bool-cases (caches (s.sector_cache (lba % cache_blocks)) s.vol.dev lba)) [
        | inl hit ↦ (s, rw hit refl, record { coherent = c; volume = refl; blocks = λ d l. refl })
        | inr miss ↦
            missed (cache_flush_slot-Flushed disks is s (lba % cache_blocks) c (omega arith)) miss
      ]
    where
      missed :
          (t : Fat D) × (cache_flush_slot disks (lba % cache_blocks) s ≡ (some tt, t))
            × Flushed disks is s t (lba % cache_blocks)
          → caches (s.sector_cache (lba % cache_blocks)) s.vol.dev lba ≡ false
          → (t : Fat D) × (cache_read disks lba s ≡ (some (through disks is s s.vol.dev lba), t))
            × Shows disks is s t (through disks is s)
      missed (t, e, f) miss =
          let same : t.vol.dev ≡ s.vol.dev = ap (λ (v : Fat32Volume). v.dev) f.shows.volume in
          let a' : accepts t.vol.dev lba ≡ true = rw same a in
          let shown : holds t.disk t.vol.dev lba ≡ through disks is s s.vol.dev lba =
            Flushed-shows s t t.vol.dev lba f ∙ ap (λ d. through disks is s d lba) same in
          (
            taken t lba (holds t.disk t.vol.dev lba) false,
            read_miss s t lba miss e a'
                ∙ ap (λ (x : Sector). (some x, taken t lba (holds t.disk t.vol.dev lba) false))
                    shown,
            Shows-eq s _ _ _ (taken-Shows s t lba _ false c a' f (λ z. refl)) (λ d l.
                if_eq (through disks is s) t.vol.dev lba _ (Flushed-shows s t t.vol.dev lba f) d l),
          )
