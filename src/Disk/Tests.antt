-- ===== src/Disk/Tests.antt =====
-- The theorems about devices at concrete inputs.
use coffee_os_aurora_refresh.Base.{
  ℕ, zero, suc, ◌*◌, ◌<◌, ◌≡◌, ◌≢◌, ◌⊎◌, inl, refl, true, false, none, some, [], ◌∷◌, get_or, Array,
  update, ◌==◌, if◌then◌else◌, arith,
}
use coffee_os_aurora_refresh.Base.Search.{first}
use coffee_os_aurora_refresh.Disk.Registry.{
  BlockDevice, max_blkdevs, registered, blkdev_register, blkdev_get, blkdev_find,
}
use coffee_os_aurora_refresh.Disk.Registry.Found.{EndsAt, find-register}
use coffee_os_aurora_refresh.Disk.Blocks.{
  Ramdisk, ramdisk, Partition, mbr_partition_read, mbr_partition_write, mbr_register_partitions,
}
use coffee_os_aurora_refresh.Disk.Blocks.Partitions.{Inside, partition_bounds, partition_write-read}
use coffee_os_aurora_refresh.Disk.Blocks.Entries.{Registers, mbr_register_partitions-Registers}

-- "ram0"
abbrev ram0 : Array ℕ
ram0 i = get_or (114 ∷ 97 ∷ 109 ∷ 48 ∷ []) i 0

ram0-EndsAt : EndsAt ram0 4
ram0-EndsAt = (refl, nonzero)
  where
    nonzero : (j : ℕ) → j < 4 → ram0 j ≢ 0
    nonzero zero h = λ e. absurd (omega arith)
    nonzero (suc zero) h = λ e. absurd (omega arith)
    nonzero (suc (suc zero)) h = λ e. absurd (omega arith)
    nonzero (suc (suc (suc zero))) h = λ e. absurd (omega arith)
    nonzero (suc (suc (suc (suc j)))) h = absurd (omega arith)

abbrev empty : Array (BlockDevice ℕ)
empty i = record {
  name = λ j. 0;
  block_count = 0;
  block_size = 0;
  read = none;
  write = none;
  present = false;
}

abbrev device : BlockDevice ℕ
device = record {
  name = ram0;
  block_count = 32768;
  block_size = 512;
  read = some 1;
  write = some 2;
  present = false;
}

nothing_found : blkdev_find empty ram0 ≡ none
unfolding blkdev_find first
nothing_found = refl

first_slot : blkdev_register empty device ≡ (some 0, update empty 0 (registered device))
unfolding blkdev_register first
first_slot = refl

find-register_example :
    (0 < max_blkdevs)
    × ((empty 0).present ≡ false)
    × (blkdev_find (update empty 0 (registered device)) ram0 ≡ some 0)
    × (blkdev_get (update empty 0 (registered device)) 0 ≡ some (registered device))
    × ((j : ℕ) → j ≢ 0 → update empty 0 (registered device) j ≡ empty j)
find-register_example =
    find-register empty (update empty 0 (registered device)) device 4 0 ram0-EndsAt (omega arith)
      nothing_found first_slot

-- Two partitions of the ramdisk, of 64 blocks each.
abbrev low : Partition
low = record { start_lba = 64; sector_count = 64 }

abbrev high : Partition
high = record { start_lba = 128; sector_count = 64 }

abbrev blank : Ramdisk
blank = record { ready = true; bytes = λ i. 0 }

partition_bounds_example :
    (Inside 64 63 2
      × (mbr_partition_read ramdisk low 63 2 blank ≡ ramdisk.read 127 2 blank)
      × (mbr_partition_write ramdisk low 63 2 (λ i. 7) blank ≡ ramdisk.write 127 2 (λ i. 7) blank))
    ⊎ ((Inside 64 63 2 → ⊥)
        × (mbr_partition_read ramdisk low 63 2 blank ≡ none)
        × (mbr_partition_write ramdisk low 63 2 (λ i. 7) blank ≡ none))
partition_bounds_example = partition_bounds ramdisk low 63 2 (λ i. 7) blank (omega arith)

partition_write-read_example :
    (d' : Ramdisk) × (f : Array ℕ) × (mbr_partition_write ramdisk low 63 1 (λ i. 7) blank ≡ some d')
    × (mbr_partition_read ramdisk low 63 1 d' ≡ some f)
    × ((i : ℕ) → i < 1 * 512 → f i ≡ 7)
    × ((lba' count' : ℕ)
        → Inside 64 lba' count'
        → (g g' : Array ℕ) × (mbr_partition_read ramdisk high lba' count' blank ≡ some g)
          × (mbr_partition_read ramdisk high lba' count' d' ≡ some g')
          × ((i : ℕ) → i < count' * 512 → g' i ≡ g i))
partition_write-read_example =
    partition_write-read low high 63 1 (λ i. 7) blank refl (omega arith) (omega arith)
      (inl (omega arith)) (omega arith, omega arith)

-- A sector with the signature and one FAT32 partition.
abbrev boot_sector : Array ℕ
boot_sector i =
    if i == 510
    then 85
    else if i == 511
    then 170
    else if i == 450
    then 12
    else if i == 458
    then 64
    else 0

device_named : (j : ℕ) → j < 3 → device.name j ≢ 0
device_named j h = ground arith

mbr_register_partitions-Registers_example :
    ((mbr_register_partitions (λ p. 3) device (some boot_sector) (λ i j. 0) empty ≡ none)
      × ((boot_sector 510 ≢ 85) ⊎ (boot_sector 511 ≢ 170)))
    ⊎ ((t : Array (BlockDevice ℕ)) × (mbr_register_partitions
            (λ p. 3)
            device
            (some boot_sector)
            (λ i j. 0)
            empty
          ≡ some t)
        × (boot_sector 510 ≡ 85)
        × (boot_sector 511 ≡ 170)
        × Registers (λ p. 3) device boot_sector (λ i j. 0) device_named empty t)
mbr_register_partitions-Registers_example =
    mbr_register_partitions-Registers (λ p. 3) device boot_sector (λ i j. 0) device_named empty
