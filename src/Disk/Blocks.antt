-- ===== src/Disk/Blocks.antt =====
-- Runs of blocks: the ramdisk of drivers/ramdisk.c and the partitions of fs/mbr.c, as callbacks
-- that read and write `count` blocks of 512 bytes. A buffer is a C array.
use coffee_os_aurora_refresh.Base.{
  ℕ, zero, suc, ◌+◌, ◌-◌, ◌*◌, ◌≤◌, Bool, true, false, not, ◌&&◌, ◌||◌, Option, none, some, Array,
  ltb, leb, ◌==◌, if◌then◌else◌, u32,
}
use coffee_os_aurora_refresh.Base.Bytes.{get32}
use coffee_os_aurora_refresh.Disk.Registry.{BlockDevice, blkdev_register}
pub mod Partitions
pub mod Registered
pub mod Entries

-- The callbacks of one device over a state `D`: read lba count, and write lba count buf.
pub record BlockOps (D : Type 0) : Type 0 where
  pub read : ℕ → ℕ → D → Option (Array ℕ)
  pub write : ℕ → ℕ → Array ℕ → D → Option D

-- RAMDISK_BLOCKS and RAMDISK_SIZE
abbrev pub ramdisk_blocks : ℕ
ramdisk_blocks = 32768

abbrev pub ramdisk_size : ℕ
ramdisk_size = 16777216

-- ramdisk_ready and the bytes of the ramdisk's window.
pub record Ramdisk : Type 0 where
  pub ready : Bool
  pub bytes : Array ℕ

-- The test of a run of blocks against a number of blocks.
abbrev pub bad_run : ℕ → ℕ → ℕ → Bool
bad_run blocks lba count = count == 0 || leb blocks lba || ltb (blocks - lba) count

-- ramdisk_memcpy: len bytes of a source copied over the bytes from `off` on.
abbrev pub stored : Array ℕ → ℕ → Array ℕ → ℕ → Array ℕ
stored bytes off src len i = if leb off i && ltb i (off + len) then src (i - off) else bytes i

unfoldable pub ramdisk_read : ℕ → ℕ → Ramdisk → Option (Array ℕ)
ramdisk_read lba count d =
    if not d.ready || bad_run ramdisk_blocks lba count
    then none
    else some (λ i. d.bytes (lba * 512 + i))

unfoldable pub ramdisk_write : ℕ → ℕ → Array ℕ → Ramdisk → Option Ramdisk
ramdisk_write lba count buf d =
    if not d.ready || bad_run ramdisk_blocks lba count
    then none
    else some (record d { bytes = stored d.bytes (lba * 512) buf (count * 512) })

abbrev pub ramdisk : BlockOps Ramdisk
ramdisk = record { read = ramdisk_read; write = ramdisk_write }

unfoldable pub ramdisk_zero : Ramdisk → Ramdisk
ramdisk_zero d = if d.ready then record d { bytes = stored d.bytes 0 (λ i. 0) ramdisk_size } else d

-- A copy of an image, with zeros behind it; none is the code's -1.
unfoldable pub ramdisk_load_from_memory : Array ℕ → ℕ → Ramdisk → Option Ramdisk
ramdisk_load_from_memory src size d =
    let copy = stored d.bytes 0 src size in
    if not d.ready || ltb ramdisk_size size
    then none
    else some (record d {
      bytes =
          if ltb size ramdisk_size then stored copy size (λ i. 0) (ramdisk_size - size) else copy;
    })

-- struct MbrPartitionDevice without its parent
pub record Partition : Type 0 where
  pub start_lba : ℕ
  pub sector_count : ℕ

module _ {D : Type 0} (parent : BlockOps D) where
  unfoldable pub mbr_partition_read : Partition → ℕ → ℕ → D → Option (Array ℕ)
  mbr_partition_read part lba count d =
      if bad_run part.sector_count lba count
      then none
      else parent.read (u32 (part.start_lba + lba)) count d

  unfoldable pub mbr_partition_write : Partition → ℕ → ℕ → Array ℕ → D → Option D
  mbr_partition_write part lba count buf d =
      if bad_run part.sector_count lba count
      then none
      else parent.write (u32 (part.start_lba + lba)) count buf d

-- Entry i of the partition table: MBR_PARTITION_OFFSET and 16 bytes for each.
abbrev pub entry_at : ℕ → ℕ
entry_at i = 446 + i * 16

abbrev pub entry_partition : Array ℕ → ℕ → Partition
entry_partition sector i = record {
  start_lba = get32 sector (entry_at i + 8);
  sector_count = get32 sector (entry_at i + 12);
}

-- A FAT32 partition that is not empty: types 0x0B and 0x0C.
abbrev pub is_fat32 : Array ℕ → ℕ → Bool
is_fat32 sector i =
    (sector (entry_at i + 4) == 11 || sector (entry_at i + 4) == 12)
    && not ((entry_partition sector i).sector_count == 0)

-- The name of partition i: three characters of the device's name, 'p', and '1' + i. The bytes
-- behind the end are not set.
abbrev pub partition_name : Array ℕ → ℕ → Array ℕ → Array ℕ
partition_name name i old j =
    if ltb j 3
    then name j
    else if j == 3
    then 112
    else if j == 4
    then 49 + i
    else if j == 5
    then 0
    else old j

module _ {Op : Type 0} (callbacks : Partition → Op) where
  abbrev pub partition_device : BlockDevice Op → Array ℕ → ℕ → Array ℕ → BlockDevice Op
  partition_device dev sector i old = record {
    name = partition_name dev.name i old;
    block_count = (entry_partition sector i).sector_count;
    block_size = 512;
    read = some (callbacks (entry_partition sector i));
    write = some (callbacks (entry_partition sector i));
    present = true;
  }

  -- `callbacks` gives the callbacks with the partition that private_data points to. The four records
  -- behind private_data are shared by all devices, so this is one disk with partitions.
  -- The loop of mbr_register_partitions from entry i on, with n entries left. `old` is what the
  -- names of mbr_partition_devices hold before.
  unfoldable pub register_loop :
      ℕ
      → ℕ
      → BlockDevice Op
      → Array ℕ
      → Array (Array ℕ)
      → Array (BlockDevice Op)
      → Array (BlockDevice Op)
  register_loop zero i dev sector old table = table
  register_loop (suc n) i dev sector old table =
      let taken =
        register_loop n (i + 1) dev sector old
          (blkdev_register table (partition_device dev sector i (old i))).1 in
      let skipped = register_loop n (i + 1) dev sector old table in
      if is_fat32 sector i then taken else skipped

  -- mbr_register_partitions with what the read of block 0 gave; none is the code's -1.
  unfoldable pub mbr_register_partitions :
      BlockDevice Op
      → Option (Array ℕ)
      → Array (Array ℕ)
      → Array (BlockDevice Op)
      → Option (Array (BlockDevice Op))
  mbr_register_partitions dev none old table = none
  mbr_register_partitions dev (some sector) old table =
      let taken = register_loop 4 0 dev sector old table in
      if sector 510 == 85 && sector 511 == 170 then some taken else none
