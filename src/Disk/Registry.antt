-- ===== src/Disk/Registry.antt =====
-- The registry of block devices of fs/blkdev.c: four slots, filled from the first, and found by name.
-- `Op` stands for the callbacks of a device; a null callback is none.
use coffee_os_aurora_refresh.Base.{
  ℕ, zero, suc, ◌+◌, ◌<◌, Bool, true, false, not, ◌&&◌, ◌||◌, Option, none, some, Array, update,
  ltb, ◌==◌, if◌then◌else◌,
}
use coffee_os_aurora_refresh.Base.Search.{first}
pub mod Found

-- MAX_BLKDEVS
abbrev pub max_blkdevs : ℕ
max_blkdevs = 4

-- struct BlockDevice
pub record BlockDevice (Op : Type 0) : Type 0 where
  pub name : Array ℕ
  pub block_count : ℕ
  pub block_size : ℕ
  pub read : Option Op
  pub write : Option Op
  pub present : Bool

-- The loops of blkdev_copy_name from index i on, with n bytes left to write.
unfoldable pub copy_name : ℕ → ℕ → Array ℕ → Array ℕ → Array ℕ
copy_name zero i dst src = dst
copy_name (suc n) i dst src =
    let rest = copy_name n (i + 1) (update dst i (src i)) src in
    let clear : Array ℕ = λ j. if ltb j i then dst j else if ltb j 16 then 0 else dst j in
    if ltb (i + 1) 16 && not (src i == 0) then rest else clear

unfoldable pub blkdev_copy_name : Array ℕ → Array ℕ → Array ℕ
blkdev_copy_name dst src = copy_name 16 0 dst src

-- The loop of blkdev_name_eq from index i on, for at most n characters.
unfoldable pub name_eq : ℕ → ℕ → Array ℕ → Array ℕ → Bool
name_eq zero i a b = a i == 0 && b i == 0
name_eq (suc n) i a b =
    let rest = name_eq n (i + 1) a b in
    if not (a i == 0) && not (b i == 0)
    then if a i == b i then rest else false
    else a i == 0 && b i == 0

-- The names in the registry end within their 16 bytes.
unfoldable pub blkdev_name_eq : Array ℕ → Array ℕ → Bool
blkdev_name_eq a b = name_eq 16 0 a b

module _ {Op : Type 0} where
  unfoldable pub blkdev_init : Array (BlockDevice Op) → Array (BlockDevice Op)
  blkdev_init table i =
      if ltb i max_blkdevs
      then record {
        name = update (table i).name 0 0;
        block_count = 0;
        block_size = 0;
        read = none;
        write = none;
        present = false;
      }
      else table i

  abbrev pub null : Option Op → Bool
  null none = true
  null (some x) = false

  -- A device copied into a slot.
  abbrev pub registered : BlockDevice Op → BlockDevice Op
  registered dev = record dev { name = blkdev_copy_name dev.name dev.name; present = true }

  unfoldable pub blkdev_register :
      Array (BlockDevice Op) → BlockDevice Op → Option ℕ × Array (BlockDevice Op)
  blkdev_register table dev =
      let filled : Option ℕ × Array (BlockDevice Op) =
        elim (first (λ i. not (table i).present) max_blkdevs 0) [
          | none ↦ (none, table)
          | some i ↦ (some i, update table i (registered dev))
        ] in
      if null dev.read || null dev.write then (none, table) else filled

  unfoldable pub blkdev_get : Array (BlockDevice Op) → ℕ → Option (BlockDevice Op)
  blkdev_get table index =
      if not (ltb index max_blkdevs) || not (table index).present then none else some (table index)

  unfoldable pub blkdev_find : Array (BlockDevice Op) → Array ℕ → Option ℕ
  blkdev_find table name =
      first (λ i. (table i).present && blkdev_name_eq (table i).name name) max_blkdevs 0
