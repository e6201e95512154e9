-- ===== src/Disk/Blocks/Partitions.antt =====
-- The bounds of the partitions of fs/mbr.c, and that partitions of the ramdisk do not touch each other.
use coffee_os_aurora_refresh.Base.{
  ℕ, ◌+◌, ◌*◌, ◌≤◌, ◌<◌, ◌≡◌, ◌⊎◌, inl, inr, refl, ap, true, false, none, some, Array, Bool-cases,
  le→leb, lt→ltb, u32, arith,
}
use coffee_os_aurora_refresh.Disk.Blocks.{
  BlockOps, Ramdisk, ramdisk_blocks, bad_run, stored, ramdisk_read, ramdisk_write, ramdisk,
  Partition, mbr_partition_read, mbr_partition_write,
}

-- A run of blocks inside a number of blocks.
abbrev pub Inside : ℕ → ℕ → ℕ → Type 0
Inside blocks lba count = (0 < count) × (lba + count ≤ blocks)

run-Inside : (blocks lba count : ℕ) → bad_run blocks lba count ≡ false → Inside blocks lba count
run-Inside blocks lba count e = (ground arith, ground arith)

run_outside : (blocks lba count : ℕ) → bad_run blocks lba count ≡ true → Inside blocks lba count → ⊥
run_outside blocks lba count e h = absurd (ground arith)

Inside-run : (blocks lba count : ℕ) → Inside blocks lba count → bad_run blocks lba count ≡ false
Inside-run blocks lba count h = ground arith

module _ {D : Type 0} (parent : BlockOps D) where
  -- Reads and writes through a partition.
  pub partition_bounds :
      (part : Partition) (lba count : ℕ) (buf : Array ℕ) (d : D)
      → part.start_lba + part.sector_count ≤ 4294967296
      → (Inside part.sector_count lba count
          × (mbr_partition_read parent part lba count d
              ≡ parent.read (part.start_lba + lba) count d)
          × (mbr_partition_write parent part lba count buf d
              ≡ parent.write (part.start_lba + lba) count buf d))
        ⊎ ((Inside part.sector_count lba count → ⊥)
            × (mbr_partition_read parent part lba count d ≡ none)
            × (mbr_partition_write parent part lba count buf d ≡ none))
  unfolding mbr_partition_read mbr_partition_write
  partition_bounds part lba count buf d fits =
      elim (Bool-cases (bad_run part.sector_count lba count)) [
        | inl e ↦ inr (run_outside part.sector_count lba count e, rw e refl, rw e refl)
        | inr e ↦
            let word : u32 (part.start_lba + lba) ≡ part.start_lba + lba = omega (
              arith,
              (run-Inside part.sector_count lba count e).0,
              (run-Inside part.sector_count lba count e).1,
            ) in
            inl (run-Inside part.sector_count lba count e, rw (e, word) refl, rw (e, word) refl)
      ]

-- A run of a partition that lies on the ramdisk.
ramdisk_run :
    (part : Partition) (lba count : ℕ) (buf : Array ℕ) (d : Ramdisk)
    → d.ready ≡ true
    → part.start_lba + part.sector_count ≤ ramdisk_blocks
    → Inside part.sector_count lba count
    → (mbr_partition_read ramdisk part lba count d
        ≡ some (λ i. d.bytes ((part.start_lba + lba) * 512 + i)))
      × (mbr_partition_write ramdisk part lba count buf d
          ≡ some (record d {
            bytes = stored d.bytes ((part.start_lba + lba) * 512) buf (count * 512);
          }))
unfolding mbr_partition_read mbr_partition_write ramdisk_read ramdisk_write
ramdisk_run part lba count buf d ready fits h =
    let word : u32 (part.start_lba + lba) ≡ part.start_lba + lba = omega arith in
    let fine : bad_run ramdisk_blocks (part.start_lba + lba) count ≡ false =
      Inside-run ramdisk_blocks (part.start_lba + lba) count (h.0, omega arith) in
    (
      rw (Inside-run part.sector_count lba count h, word, ready, fine) refl,
      rw (Inside-run part.sector_count lba count h, word, ready, fine) refl,
    )

stored_in :
    (bytes : Array ℕ) (off : ℕ) (src : Array ℕ) (len i : ℕ)
    → i < len
    → stored bytes off src len (off + i) ≡ src i
stored_in bytes off src len i h =
    rw (le→leb off (off + i) (omega arith), lt→ltb (off + i) (off + len) (omega arith))
      (ap src (omega arith))

stored_out :
    (bytes : Array ℕ) (off : ℕ) (src : Array ℕ) (len i : ℕ)
    → (i < off) ⊎ (off + len ≤ i)
    → stored bytes off src len i ≡ bytes i
stored_out bytes off src len i (inl h) = ground arith
stored_out bytes off src len i (inr h) = ground arith

-- Runs of blocks in partitions that do not overlap.
runs_apart :
    (p q : Partition) (lba count lba' count' i : ℕ)
    → (p.start_lba + p.sector_count ≤ q.start_lba) ⊎ (q.start_lba + q.sector_count ≤ p.start_lba)
    → Inside p.sector_count lba count
    → Inside q.sector_count lba' count'
    → i < count' * 512
    → ((q.start_lba + lba') * 512 + i < (p.start_lba + lba) * 512)
      ⊎ ((p.start_lba + lba) * 512 + count * 512 ≤ (q.start_lba + lba') * 512 + i)
runs_apart p q lba count lba' count' i (inl a) h h' l = inr (omega arith)
runs_apart p q lba count lba' count' i (inr a) h h' l = inl (omega arith)

-- A write through one partition, seen through it and through another.
pub partition_write-read :
    (p q : Partition) (lba count : ℕ) (buf : Array ℕ) (d : Ramdisk)
    → d.ready ≡ true
    → p.start_lba + p.sector_count ≤ ramdisk_blocks
    → q.start_lba + q.sector_count ≤ ramdisk_blocks
    → (p.start_lba + p.sector_count ≤ q.start_lba) ⊎ (q.start_lba + q.sector_count ≤ p.start_lba)
    → Inside p.sector_count lba count
    → (d' : Ramdisk) × (f : Array ℕ) × (mbr_partition_write ramdisk p lba count buf d ≡ some d')
      × (mbr_partition_read ramdisk p lba count d' ≡ some f)
      × ((i : ℕ) → i < count * 512 → f i ≡ buf i)
      × ((lba' count' : ℕ)
          → Inside q.sector_count lba' count'
          → (g g' : Array ℕ) × (mbr_partition_read ramdisk q lba' count' d ≡ some g)
            × (mbr_partition_read ramdisk q lba' count' d' ≡ some g')
            × ((i : ℕ) → i < count' * 512 → g' i ≡ g i))
partition_write-read p q lba count buf d ready fp fq apart h =
    let d' : Ramdisk = record d {
      bytes = stored d.bytes ((p.start_lba + lba) * 512) buf (count * 512);
    } in
    (
      d',
      λ i. d'.bytes ((p.start_lba + lba) * 512 + i),
      (ramdisk_run p lba count buf d ready fp h).1,
      (ramdisk_run p lba count buf d' ready fp h).0,
      λ i l. stored_in d.bytes ((p.start_lba + lba) * 512) buf (count * 512) i l,
      λ lba' count' h'. (
        λ i. d.bytes ((q.start_lba + lba') * 512 + i),
        λ i. d'.bytes ((q.start_lba + lba') * 512 + i),
        (ramdisk_run q lba' count' buf d ready fq h').0,
        (ramdisk_run q lba' count' buf d' ready fq h').0,
        λ i l.
            stored_out d.bytes ((p.start_lba + lba) * 512) buf (count * 512)
              ((q.start_lba + lba') * 512 + i)
              (runs_apart p q lba count lba' count' i apart h h' l),
      ),
    )
