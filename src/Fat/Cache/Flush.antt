-- ===== src/Fat/Cache/Flush.antt =====
-- Writing through the sector cache of fs/fat32.c, and flushing it.
use coffee_os_aurora_refresh.Base.{
  ℕ, zero, suc, ◌+◌, ◌%◌, ◌<◌, ◌≡◌, ◌≢◌, inl, inr, refl, sym, ◌∙◌, ap, ap₂, true, false, ◌&&◌, none,
  some, ◌==◌, if◌then◌else◌, Bool-cases, Option-cases, eq_cases, arith,
}
use coffee_os_aurora_refresh.Disk.{Sector, Disks, IsDisks}
use coffee_os_aurora_refresh.Fat.Cache.{
  SectorCacheEntry, Fat32Volume, Fat, cache_blocks, owned_by, caches, cache_flush_slot, put_slot,
  cache_write, flush_slots, fat32_cache_flush,
}
use coffee_os_aurora_refresh.Fat.Cache.View.{
  through, Coherent, Shows, Flushed, cache_flush_slot-Flushed,
}
use coffee_os_aurora_refresh.Fat.Cache.Ops.{placed_seen, placed_slot, taken, taken-Shows, Shows-eq}

two_blocks :
    (e : SectorCacheEntry) (d l dev lba : ℕ)
    → caches e d l ≡ true
    → caches e dev lba ≡ true
    → (d == dev && l == lba) ≢ false
two_blocks e d l dev lba p q n = elim (Option-cases e.owner) [
  | inl z ↦ let p' : (e.valid && e.lba == l && owned_by none d) ≡ true = rw z at p in ground arith
  | inr (o, z) ↦
      let p' : (e.valid && e.lba == l && o == d) ≡ true = rw z at p in
      let q' : (e.valid && e.lba == lba && o == dev) ≡ true = rw z at q in ground arith
]

module _ {D : Type 0} (disks : Disks D) (is : IsDisks disks) where
  open is use {accepts, holds}

  -- A block changed in what is shown.
  abbrev pub changed : (ℕ → ℕ → Sector) → ℕ → ℕ → Sector → ℕ → ℕ → Sector
  changed f dev lba x d l = if d == dev && l == lba then x else f d l

  write_hit :
      (s : Fat D) (lba : ℕ) (x : Sector)
      → Coherent disks is s
      → accepts s.vol.dev lba ≡ true
      → caches (s.sector_cache (lba % cache_blocks)) s.vol.dev lba ≡ true
      → Shows disks is s
          (taken disks is s lba x true)
          (changed (through disks is s) s.vol.dev lba x)
  write_hit s lba x c a hit = record {
    coherent = λ j k.
        placed_slot s.sector_cache (holds s.disk) s.vol.dev lba _ refl refl refl agrees accepts j a
          (λ z. absurd (ground arith)) (c j k);
    volume = refl;
    blocks = placed_seen s.sector_cache (holds s.disk) s.vol.dev lba _ refl refl refl agrees;
  }
    where
      agrees :
          (d l : ℕ)
          → caches (s.sector_cache (lba % cache_blocks)) d l ≡ true
          → (d == s.vol.dev && l == lba) ≡ false
          → (s.sector_cache (lba % cache_blocks)).bytes ≡ holds s.disk d l
      agrees d l p n =
          absurd (two_blocks (s.sector_cache (lba % cache_blocks)) d l s.vol.dev lba p hit n)

  -- cache_write of a block that the volume's device takes.
  pub cache_write-Shows :
      (s : Fat D) (lba : ℕ) (x : Sector)
      → Coherent disks is s
      → accepts s.vol.dev lba ≡ true
      → (t : Fat D) × (cache_write disks lba x s ≡ (some tt, t))
        × Shows disks is s t (changed (through disks is s) s.vol.dev lba x)
  unfolding cache_write put_slot
  cache_write-Shows s lba x c a =
      elim (Bool-cases (caches (s.sector_cache (lba % cache_blocks)) s.vol.dev lba)) [
        | inl hit ↦ (taken disks is s lba x true, rw hit refl, write_hit s lba x c a hit)
        | inr miss ↦
            missed (cache_flush_slot-Flushed disks is s (lba % cache_blocks) c (omega arith)) miss
      ]
    where
      missed :
          (t : Fat D) × (cache_flush_slot disks (lba % cache_blocks) s ≡ (some tt, t))
            × Flushed disks is s t (lba % cache_blocks)
          → caches (s.sector_cache (lba % cache_blocks)) s.vol.dev lba ≡ false
          → (t : Fat D) × (cache_write disks lba x s ≡ (some tt, t))
            × Shows disks is s t (changed (through disks is s) s.vol.dev lba x)
      missed (t, e, f) miss =
          let same : t.vol.dev ≡ s.vol.dev = ap (λ (v : Fat32Volume). v.dev) f.shows.volume in
          let a' : accepts t.vol.dev lba ≡ true = rw same a in
          (
            taken disks is t lba x true,
            rw (miss, e) refl,
            Shows-eq disks is s _ _ _
                (taken-Shows disks is s t lba x true c a' f (λ z. absurd (ground arith)))
                (λ d l. ap (λ v. changed (through disks is s) v lba x d l) same),
          )

  -- Slot j has nothing to be written to the volume's device.
  abbrev CleanAt : Fat D → ℕ → Type 0
  CleanAt s j =
      (s.sector_cache j).valid ≡ true
      → owned_by (s.sector_cache j).owner s.vol.dev ≡ true
      → (s.sector_cache j).dirty ≡ false

  -- What the loop does from slot i on.
  abbrev Flushes : ℕ → ℕ → Fat D → Type 0
  Flushes n i s =
      Coherent disks is s
      → ((j : ℕ) → j < i → CleanAt s j)
      → (t : Fat D) × (flush_slots disks n i s ≡ (some tt, t))
        × Shows disks is s t (through disks is s)
        × ((j : ℕ) → j < cache_blocks → CleanAt t j)

  flush_owned :
      (n i : ℕ) (s t : Fat D)
      → i < cache_blocks
      → ((j : ℕ) → j < i → CleanAt s j)
      → owned_by (s.sector_cache i).owner s.vol.dev ≡ true
      → cache_flush_slot disks i s ≡ (some tt, t)
      → Flushed disks is s t i
      → Flushes n (i + 1) t
      → (u : Fat D) × (flush_slots disks (suc n) i s ≡ (some tt, u))
        × Shows disks is s u (through disks is s)
        × ((j : ℕ) → j < cache_blocks → CleanAt u j)
  unfolding flush_slots
  flush_owned n i s t h k o e f rest = then' (rest f.shows.coherent now)
    where
      now : (j : ℕ) → j < i + 1 → CleanAt t j
      now j l = elim (eq_cases j i) [
        | inl z ↦ rw z (λ v w. f.clean v)
        | inr z ↦ rw (f.others j z, f.shows.volume) (k j (omega arith))
      ]

      then' :
          (u : Fat D) × (flush_slots disks n (i + 1) t ≡ (some tt, u))
            × Shows disks is t u (through disks is t)
            × ((j : ℕ) → j < cache_blocks → CleanAt u j)
          → (u : Fat D) × (flush_slots disks (suc n) i s ≡ (some tt, u))
            × Shows disks is s u (through disks is s)
            × ((j : ℕ) → j < cache_blocks → CleanAt u j)
      then' (u, r, v, c) = (
        u,
        rw (o, e) r,
        record {
          coherent = v.coherent;
          volume = v.volume ∙ f.shows.volume;
          blocks = λ d l. v.blocks d l ∙ f.shows.blocks d l;
        },
        c,
      )

  flush_skipped :
      (n i : ℕ) (s : Fat D)
      → ((j : ℕ) → j < i → CleanAt s j)
      → Coherent disks is s
      → owned_by (s.sector_cache i).owner s.vol.dev ≡ false
      → Flushes n (i + 1) s
      → (u : Fat D) × (flush_slots disks (suc n) i s ≡ (some tt, u))
        × Shows disks is s u (through disks is s)
        × ((j : ℕ) → j < cache_blocks → CleanAt u j)
  unfolding flush_slots
  flush_skipped n i s k c o rest = rw o (rest c now)
    where
      now : (j : ℕ) → j < i + 1 → CleanAt s j
      now j l = elim (eq_cases j i) [
        | inl z ↦ rw z (λ v w. absurd (ground arith))
        | inr z ↦ k j (omega arith)
      ]

  flush_slots_lem : (n i : ℕ) (s : Fat D) → i + n ≡ cache_blocks → Flushes n i s
  unfolding flush_slots
  flush_slots_lem zero i s e c k = (
    s,
    refl,
    record { coherent = c; volume = refl; blocks = λ d l. refl },
    λ j h. k j (omega arith),
  )
  flush_slots_lem (suc n) i s e c k =
      elim (Bool-cases (owned_by (s.sector_cache i).owner s.vol.dev)) [
        | inl o ↦
            let (t, e', f) = cache_flush_slot-Flushed disks is s i c (omega arith) in
            flush_owned n i s t (omega arith) k o e' f (flush_slots_lem n (i + 1) t (omega arith))
        | inr o ↦ flush_skipped n i s k c o (flush_slots_lem n (i + 1) s (omega arith))
      ]

  -- Where no slot is to be written to the volume's device, the device holds what is shown.
  clean_device :
      (s : Fat D) (l : ℕ)
      → Coherent disks is s
      → CleanAt s (l % cache_blocks)
      → holds s.disk s.vol.dev l ≡ through disks is s s.vol.dev l
  clean_device s l c k =
      elim (Bool-cases (caches (s.sector_cache (l % cache_blocks)) s.vol.dev l)) [
        | inl z ↦
            let (o, p, q, a, same) = c (l % cache_blocks) (omega arith) (ground arith) in
            let z' : ((s.sector_cache (l % cache_blocks)).valid
                  && (s.sector_cache (l % cache_blocks)).lba == l
                  && o == s.vol.dev)
                ≡ true =
              rw q at z in
            let clean : (s.sector_cache (l % cache_blocks)).dirty ≡ false =
              k (ground arith) (ground arith) in
            let o' : o ≡ s.vol.dev = ground arith in
            let l' : (s.sector_cache (l % cache_blocks)).lba ≡ l = ground arith in
            rw z (sym (same clean ∙ ap₂ (holds s.disk) o' l'))
        | inr z ↦ rw z refl
      ]

  -- fat32_cache_flush.
  pub fat32_cache_flush-through :
      (s : Fat D)
      → Coherent disks is s
      → (t : Fat D) × (fat32_cache_flush disks s ≡ (some tt, t))
        × Shows disks is s t (through disks is s)
        × ((lba : ℕ) → holds t.disk s.vol.dev lba ≡ through disks is s s.vol.dev lba)
  unfolding fat32_cache_flush
  fat32_cache_flush-through s c =
      flushed (flush_slots_lem cache_blocks 0 s refl c (λ j h. absurd (omega arith)))
    where
      flushed :
          (t : Fat D) × (flush_slots disks cache_blocks 0 s ≡ (some tt, t))
            × Shows disks is s t (through disks is s)
            × ((j : ℕ) → j < cache_blocks → CleanAt t j)
          → (t : Fat D) × (flush_slots disks cache_blocks 0 s ≡ (some tt, t))
            × Shows disks is s t (through disks is s)
            × ((lba : ℕ) → holds t.disk s.vol.dev lba ≡ through disks is s s.vol.dev lba)
      flushed (t, e, v, c) = (
        t,
        e,
        v,
        λ lba.
            let same : t.vol.dev ≡ s.vol.dev = ap (λ (w : Fat32Volume). w.dev) v.volume in
            ap (λ d. holds t.disk d lba) (sym same)
            ∙ clean_device t lba v.coherent (c (lba % cache_blocks) (omega arith))
            ∙ v.blocks t.vol.dev lba
            ∙ ap (λ d. through disks is s d lba) same,
      )
