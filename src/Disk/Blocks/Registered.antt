-- ===== src/Disk/Blocks/Registered.antt =====
-- The slots that mbr_register_partitions of fs/mbr.c fills in the registry of devices.
use coffee_os_aurora_refresh.Base.{
  ℕ, zero, suc, ◌+◌, ◌≤◌, ◌<◌, ◌≡◌, ◌⊎◌, inl, inr, refl, sym, ◌∙◌, ap, true, false, Array, if_intro,
  arith,
}
use coffee_os_aurora_refresh.Disk.Registry.{BlockDevice, registered, blkdev_register}
use coffee_os_aurora_refresh.Disk.Registry.Found.{register_step}
use coffee_os_aurora_refresh.Disk.Blocks.{Partition, is_fat32, partition_device, register_loop}

module _ {Op : Type 0} (callbacks : Partition → Op) where
  -- A slot is as it was, or it was free and holds a FAT32 partition of the sector.
  abbrev pub Slot :
      BlockDevice Op → Array ℕ → Array (Array ℕ) → BlockDevice Op → BlockDevice Op → Type 0
  Slot dev sector old before after =
      (after ≡ before)
      ⊎ ((i : ℕ) × (before.present ≡ false)
          × (i < 4)
          × (is_fat32 sector i ≡ true)
          × (after ≡ registered (partition_device callbacks dev sector i (old i))))

  register_slots :
      (dev : BlockDevice Op) (sector : Array ℕ) (old : Array (Array ℕ)) (i : ℕ)
      (table : Array (BlockDevice Op))
      → i < 4
      → is_fat32 sector i ≡ true
      → (k : ℕ)
      → Slot dev sector old
          (table k)
          ((blkdev_register table (partition_device callbacks dev sector i (old i))).1 k)
  register_slots dev sector old i table h fat k =
      elim (register_step table (partition_device callbacks dev sector i (old i)) k) [
        | inl e ↦ inl e
        | inr (free, e) ↦ inr (i, free, h, fat, e)
      ]

  -- A slot that was taken stays as it is.
  Slot-trans :
      (dev : BlockDevice Op) (sector : Array ℕ) (old : Array (Array ℕ)) (a b c : BlockDevice Op)
      → Slot dev sector old a b
      → Slot dev sector old b c
      → Slot dev sector old a c
  Slot-trans dev sector old a b c (inl e) (inl f) = inl (f ∙ e)
  Slot-trans dev sector old a b c (inl e) (inr (i, free, h, fat, f)) =
      inr (i, ap (λ (x : BlockDevice Op). x.present) (sym e) ∙ free, h, fat, f)
  Slot-trans dev sector old a b c (inr (i, free, h, fat, e)) (inl f) = inr (i, free, h, fat, f ∙ e)
  Slot-trans dev sector old a b c (inr (i, free, h, fat, e)) (inr (i', free', h', fat', f)) =
      inr (i', free, h', fat', f)

  -- The loop of mbr_register_partitions.
  pub register_loop-Slot :
      (n i : ℕ) (dev : BlockDevice Op) (sector : Array ℕ) (old : Array (Array ℕ))
      (table : Array (BlockDevice Op)) (k : ℕ)
      → i + n ≤ 4
      → Slot dev sector old (table k) (register_loop callbacks n i dev sector old table k)
  unfolding register_loop
  register_loop-Slot zero i dev sector old table k h = inl refl
  register_loop-Slot (suc n) i dev sector old table k h =
      let table' = (blkdev_register table (partition_device callbacks dev sector i (old i))).1 in
      if_intro (λ (t : Array (BlockDevice Op)). Slot dev sector old (table k) (t k))
        (is_fat32 sector i) (register_loop callbacks n (i + 1) dev sector old table')
        (register_loop callbacks n (i + 1) dev sector old table)
        (λ fat.
          Slot-trans dev sector old (table k) (table' k)
            (register_loop callbacks n (i + 1) dev sector old table' k)
            (register_slots dev sector old i table (omega arith) fat k)
            (register_loop-Slot n (i + 1) dev sector old table' k (omega arith)))
        (λ other. register_loop-Slot n (i + 1) dev sector old table k (omega arith))
