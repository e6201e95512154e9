-- ===== src/Disk/Blocks/Entries.antt =====
-- The entries of a partition table that mbr_register_partitions of fs/mbr.c registers, by their bytes.
use coffee_os_aurora_refresh.Base.{
  ℕ, zero, suc, ◌+◌, ◌*◌, ◌≤◌, ◌<◌, ◌≡◌, ◌≢◌, ◌⊎◌, inl, inr, refl, sym, ◌∙◌, ap, subst, true, false,
  none, some, Array, if_intro, eq_cases, ==_ne, arith,
}
use coffee_os_aurora_refresh.Base.Bytes.{get32}
use coffee_os_aurora_refresh.Disk.Registry.{
  BlockDevice, max_blkdevs, blkdev_copy_name, registered, blkdev_register,
}
use coffee_os_aurora_refresh.Disk.Registry.Found.{copy_name-end, register_step, register_placed}
use coffee_os_aurora_refresh.Disk.Blocks.{
  Partition, is_fat32, partition_name, partition_device, register_loop, mbr_register_partitions,
}
use coffee_os_aurora_refresh.Disk.Blocks.Registered.{register_loop-Slot}

-- Four bytes, the lowest first.
abbrev pub word : Array ℕ → ℕ → ℕ
word x o = x o + x (o + 1) * 256 + x (o + 2) * 65536 + x (o + 3) * 16777216

-- Entry i of the table at byte 446 is a FAT32 partition that is not empty.
abbrev pub Fat32Entry : Array ℕ → ℕ → Type 0
Fat32Entry sector i =
    (i < 4)
    × ((sector (446 + i * 16 + 4) ≡ 11) ⊎ (sector (446 + i * 16 + 4) ≡ 12))
    × (word sector (446 + i * 16 + 12) ≢ 0)

is_fat32-Entry : (sector : Array ℕ) (i : ℕ) → i < 4 → is_fat32 sector i ≡ true → Fat32Entry sector i
unfolding get32
is_fat32-Entry sector i h e = (h, grind arith, ground arith)

Entry-is_fat32 : (sector : Array ℕ) (i : ℕ) → Fat32Entry sector i → is_fat32 sector i ≡ true
unfolding get32
Entry-is_fat32 sector i (h, inl k, n) = ground arith
Entry-is_fat32 sector i (h, inr k, n) = ground arith

module _ {Op : Type 0} (callbacks : Partition → Op) where
  -- The device x is partition i of the sector on dev.
  pub record Describes (dev : BlockDevice Op) (sector : Array ℕ) (i : ℕ) (x : BlockDevice Op)
      : Type 0 where
    pub is_present : x.present ≡ true
    pub blocks : x.block_count ≡ word sector (446 + i * 16 + 12)
    pub size : x.block_size ≡ 512
    pub reads :
        x.read
        ≡ some (
            callbacks (record {
              start_lba = word sector (446 + i * 16 + 8);
              sector_count = word sector (446 + i * 16 + 12);
            }))
    pub writes : x.write ≡ x.read
    pub name_start : (j : ℕ) → j < 3 → x.name j ≡ dev.name j
    pub name_letter : x.name 3 ≡ 112
    pub name_digit : x.name 4 ≡ 49 + i
    pub name_end : x.name 5 ≡ 0

  module _ (dev : BlockDevice Op) (sector : Array ℕ) (old : Array (Array ℕ))
      (named : (j : ℕ) → j < 3 → dev.name j ≢ 0) where
    partition_of : ℕ → BlockDevice Op
    partition_of i = registered (partition_device callbacks dev sector i (old i))

    name_of : (i j : ℕ) → j ≤ 5 → (partition_of i).name j ≡ partition_name dev.name i (old i) j
    unfolding partition_of blkdev_copy_name
    name_of i j h =
        copy_name-end 16 0 5 _ (partition_name dev.name i (old i))
          (refl, λ k l. ground (arith, named k)) (omega arith) (omega arith) (omega arith) j
          (omega arith) h

    partition_of-Describes : (i : ℕ) → Describes dev sector i (partition_of i)
    unfolding partition_of get32
    partition_of-Describes i = record {
      is_present = refl;
      blocks = refl;
      size = refl;
      reads = refl;
      writes = refl;
      name_start = λ j h. name_of i j (omega arith) ∙ ground arith;
      name_letter = name_of i 3 (omega arith);
      name_digit = name_of i 4 (omega arith);
      name_end = name_of i 5 (omega arith);
    }

    -- A device in a slot that was free, or no free slot left.
    Placed : Array (BlockDevice Op) → Array (BlockDevice Op) → ℕ → Type 0
    Placed table t i =
        ((k : ℕ) × (k < max_blkdevs) × ((table k).present ≡ false) × (t k ≡ partition_of i))
        ⊎ ((k : ℕ) → k < max_blkdevs → (t k).present ≡ true)

    kept :
        (n i : ℕ) (table : Array (BlockDevice Op)) (k : ℕ)
        → i + n ≤ 4
        → (table k).present ≡ true
        → register_loop callbacks n i dev sector old table k ≡ table k
    kept n i table k h e = elim (register_loop-Slot callbacks n i dev sector old table k h) [
      | inl same ↦ same
      | inr (j, free, _, _, _) ↦ absurd cc
    ]

    present_of : (table t : BlockDevice Op) (i : ℕ) → t ≡ partition_of i → t.present ≡ true
    unfolding partition_of
    present_of table t i e = rw e refl

    -- The loop after an entry was registered.
    loop-after :
        (n i : ℕ) (table : Array (BlockDevice Op))
        → i + suc n ≤ 4
        → (let table' =
              (blkdev_register table (partition_device callbacks dev sector i (old i))).1 in
            Placed table (register_loop callbacks n (i + 1) dev sector old table') i)
    unfolding Placed partition_of
    loop-after n i table h =
        let table' = (blkdev_register table (partition_device callbacks dev sector i (old i))).1 in
        elim (register_placed table (partition_device callbacks dev sector i (old i)) refl) [
          | inl (k, l, free, e) ↦ inl (
            k,
            l,
            free,
            kept n (i + 1) table' k (omega arith) (present_of (table k) (table' k) i e) ∙ e,
          )
          | inr full ↦ inr (λ k l. stays n i table k (omega arith) (full k l))
        ]
      where
        stays :
            (n i : ℕ) (table : Array (BlockDevice Op)) (k : ℕ)
            → i + 1 + n ≤ 4
            → (table k).present ≡ true
            → (register_loop callbacks n
                (i + 1)
                dev
                sector
                old
                (blkdev_register table (partition_device callbacks dev sector i (old i))).1
                k).present
              ≡ true
        stays n i table k h p =
            let table' =
              (blkdev_register table (partition_device callbacks dev sector i (old i))).1 in
            elim (register_step table (partition_device callbacks dev sector i (old i)) k) [
              | inl e ↦
                  let q : (table' k).present ≡ true = rw e p in rw (kept n (i + 1) table' k h q) q
              | inr (free, e) ↦ absurd cc
            ]

    -- A free slot after a call was free before it.
    Placed-before :
        (i j : ℕ) (table t : Array (BlockDevice Op))
        → Placed (blkdev_register table (partition_device callbacks dev sector i (old i))).1 t j
        → Placed table t j
    unfolding Placed partition_of
    Placed-before i j table t (inr full) = inr full
    Placed-before i j table t (inl (k, l, free, e)) =
        elim (register_step table (partition_device callbacks dev sector i (old i)) k) [
          | inl same ↦ inl (k, l, rw same at free, e)
          | inr (was, new) ↦
              let p : false ≡ true = sym free ∙ ap (λ (x : BlockDevice Op). x.present) new in
              absurd cc
        ]

    register_loop-Placed :
        (n i j : ℕ) (table : Array (BlockDevice Op))
        → i + n ≤ 4
        → i ≤ j
        → j < i + n
        → is_fat32 sector j ≡ true
        → Placed table (register_loop callbacks n i dev sector old table) j
    unfolding register_loop
    register_loop-Placed zero i j table h l u fat = absurd (omega arith)
    register_loop-Placed (suc n) i j table h l u fat =
        let table' = (blkdev_register table (partition_device callbacks dev sector i (old i))).1 in
        elim (eq_cases i j) [
          | inl e ↦
              let here : is_fat32 sector i ≡ true = rw (sym e) at fat in
              rw here (subst (Placed table _) e (loop-after n i table h))
          | inr m ↦
              if_intro (λ (t : Array (BlockDevice Op)). Placed table t j) (is_fat32 sector i) _ _
                (λ f. Placed-before i j table _ (
                  register_loop-Placed n (i + 1) j table' (omega arith) (omega arith) (omega arith)
                    fat))
                (λ f.
                  register_loop-Placed n (i + 1) j table (omega arith) (omega arith) (omega arith)
                    fat)
        ]

    -- What the slots hold after the loop, and where each entry went.
    abbrev pub Registers : Array (BlockDevice Op) → Array (BlockDevice Op) → Type 0
    Registers table t =
        ((k : ℕ)
          → (t k ≡ table k)
            ⊎ (((table k).present ≡ false)
                × ((i : ℕ) × Fat32Entry sector i × Describes dev sector i (t k))))
        × ((i : ℕ)
            → Fat32Entry sector i
            → ((k : ℕ) × (k < max_blkdevs)
                × ((table k).present ≡ false)
                × Describes dev sector i (t k))
              ⊎ ((k : ℕ) → k < max_blkdevs → (t k).present ≡ true))

    loop-Registers :
        (table : Array (BlockDevice Op))
        → Registers table (register_loop callbacks 4 0 dev sector old table)
    unfolding Placed partition_of
    loop-Registers table = (
      λ k. elim (register_loop-Slot callbacks 4 0 dev sector old table k (omega arith)) [
        | inl e ↦ inl e
        | inr (i, free, h, fat, e) ↦ inr (
          free,
          (
            i,
            is_fat32-Entry sector i h fat,
            subst (Describes dev sector i) (sym e) (partition_of-Describes i),
          ),
        )
      ],
      λ i f.
          elim (register_loop-Placed 4 0 i table (omega arith) (omega arith) (omega (arith, f.0))
            (Entry-is_fat32 sector i f)) [
              | inl (k, l, free, e) ↦
                  inl
                    (k, l, free, subst (Describes dev sector i) (sym e) (partition_of-Describes i))
              | inr full ↦ inr full
            ],
    )

    -- For a device whose name has at least three characters, mbr_register_partitions on the
    -- sector read fails exactly without the signature 55 AA at bytes 510 and 511. Otherwise, for
    -- the four entries of 16 bytes from byte 446 on, of which those of type 0x0B or 0x0C with a
    -- nonzero length count: every slot of the registry is as it was, or was free and now holds
    -- the device of such an entry (its length, blocks of 512 bytes, the callbacks for its start
    -- and length, the name of three characters, p and the entry's digit); and each such entry is
    -- in a slot that was free, or all slots are taken.
    pub mbr_register_partitions-Registers :
        (table : Array (BlockDevice Op))
        → ((mbr_register_partitions callbacks dev (some sector) old table ≡ none)
            × ((sector 510 ≢ 85) ⊎ (sector 511 ≢ 170)))
          ⊎ ((t : Array (BlockDevice Op)) × (mbr_register_partitions callbacks dev
                  (some sector)
                  old
                  table
                ≡ some t)
              × (sector 510 ≡ 85)
              × (sector 511 ≡ 170)
              × Registers table t)
    unfolding mbr_register_partitions
    mbr_register_partitions-Registers table = elim (eq_cases (sector 510) 85) [
      | inl e ↦ elim (eq_cases (sector 511) 170) [
        | inl f ↦ inr (
          register_loop callbacks 4 0 dev sector old table,
          rw (e, f) refl,
          e,
          f,
          loop-Registers table,
        )
        | inr n ↦ inl (rw (e, ==_ne (sector 511) 170 n) refl, inr n)
      ]
      | inr n ↦ inl (rw (==_ne (sector 510) 85 n) refl, inl n)
    ]
