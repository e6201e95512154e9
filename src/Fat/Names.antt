-- ===== src/Fat/Names.antt =====
-- Names of directory entries in fs/fat32.c: 8.3 names, the checksum and the parts of long names,
-- and the first cluster of an entry. A string is a C array that ends with 0.
use coffee_os_aurora_refresh.Base.{
  ℕ, zero, suc, ◌+◌, ◌-◌, ◌*◌, ◌/◌, ◌%◌, Bool, true, false, not, ◌&&◌, ◌||◌, Option, none, some,
  List, [], ◌∷◌, Array, update, ltb, leb, ◌==◌, if◌then◌else◌, u8, u16, u32, sub32,
}
pub mod Chunks

-- FAT32_NAME_MAX
abbrev pub fat32_name_max : ℕ
fat32_name_max = 256

-- struct Fat32DirEntry, the fields that the driver uses.
pub record Fat32DirEntry : Type 0 where
  pub name : Array ℕ
  pub ext : Array ℕ
  pub attributes : ℕ
  pub cluster_high : ℕ
  pub cluster_low : ℕ
  pub file_size : ℕ

unfoldable pub fat32_entry_cluster : Fat32DirEntry → ℕ
fat32_entry_cluster entry = u32 (entry.cluster_high * 65536) + entry.cluster_low

unfoldable pub fat32_set_entry_cluster : Fat32DirEntry → ℕ → Fat32DirEntry
fat32_set_entry_cluster entry cluster = record entry {
  cluster_high = cluster / 65536 % 65536;
  cluster_low = cluster % 65536;
}

-- The length of a string, at most n, from index i on.
unfoldable pub fat32_strnlen : ℕ → ℕ → Array ℕ → ℕ
fat32_strnlen zero i s = i
fat32_strnlen (suc n) i s = let rest = fat32_strnlen n (i + 1) s in if s i == 0 then i else rest

-- ascii_tolower of include/ascii_util.h
unfoldable pub ascii_tolower : ℕ → ℕ
ascii_tolower c = if leb 65 c && leb c 90 then c - 65 + 97 else c

-- The loop of fat32_name_eq_ci from index i on. A string is at most n characters long.
unfoldable pub fat32_name_eq_ci : ℕ → ℕ → Array ℕ → Array ℕ → Bool
fat32_name_eq_ci zero i a b = a i == 0 && b i == 0
fat32_name_eq_ci (suc n) i a b =
    let rest = fat32_name_eq_ci n (i + 1) a b in
    if not (a i == 0) && not (b i == 0)
    then if ascii_tolower (a i) == ascii_tolower (b i) then rest else false
    else a i == 0 && b i == 0

-- The last dot among the first len characters, from index i on.
unfoldable pub find_last_dot : ℕ → ℕ → Array ℕ → Option ℕ → Option ℕ
find_last_dot zero i lfn dot = dot
find_last_dot (suc n) i lfn dot = find_last_dot n (i + 1) lfn (if lfn i == 46 then some i else dot)

-- A character of a long name as it stands in an 8.3 name: '+', ',', ';', '=', '[' and ']' become
-- '_', small letters become capitals.
abbrev pub upper_83 : ℕ → ℕ
upper_83 c =
    if c == 43 || c == 44 || c == 59 || c == 61 || c == 91 || c == 93
    then 95
    else if leb 97 c && leb c 122
    then c - 97 + 65
    else c

abbrev pub past_dot : Option ℕ → ℕ → Bool
past_dot none i = false
past_dot (some d) i = ltb d i

-- The second loop of fat32_to_83 from index i on, with n characters left: the bytes of the name
-- so far, and how many of its base and its extension are filled.
unfoldable pub fill_83 : ℕ → ℕ → Option ℕ → Array ℕ → ℕ → ℕ → Array ℕ → Array ℕ
fill_83 zero i dot lfn bi ei name83 = name83
fill_83 (suc n) i dot lfn bi ei name83 =
    let c = upper_83 (lfn i) in
    let skip = fill_83 n (i + 1) dot lfn bi ei name83 in
    let base = fill_83 n (i + 1) dot lfn (bi + 1) ei (update name83 bi c) in
    let ext = fill_83 n (i + 1) dot lfn bi (ei + 1) (update name83 (8 + ei) c) in
    if lfn i == 46
    then skip
    else if not (past_dot dot i)
    then if ltb bi 8 then base else skip
    else if ltb ei 3
    then ext
    else skip

unfoldable pub fat32_to_83 : Array ℕ → Array ℕ → Array ℕ
fat32_to_83 lfn name83 =
    let len = fat32_strnlen (fat32_name_max - 1) 0 lfn in
    fill_83 len 0 (find_last_dot len 0 lfn none) lfn 0 0 (λ i. if ltb i 11 then 32 else name83 i)

-- A loop of fat32_from_83: characters copied up to a space, from index i on, with n left. The
-- result is the string and its length.
unfoldable pub copy_83 : ℕ → ℕ → Array ℕ → ℕ → Array ℕ → ℕ × Array ℕ
copy_83 zero i src oi out = (oi, out)
copy_83 (suc n) i src oi out =
    let rest = copy_83 n (i + 1) src (oi + 1) (update out oi (src i)) in
    if src i == 32 then (oi, out) else rest

unfoldable pub fat32_from_83 : Array ℕ → Array ℕ → Array ℕ → Array ℕ
fat32_from_83 name83 ext83 out =
    let base = copy_83 8 0 name83 0 out in
    let whole = copy_83 3 0 ext83 (base.0 + 1) (update base.1 base.0 46) in
    if ext83 0 == 32 then update base.1 base.0 0 else update whole.1 whole.0 0

-- The loop of fat32_lfn_checksum from index i on, with n bytes left.
unfoldable pub checksum_loop : ℕ → ℕ → Array ℕ → ℕ → ℕ
checksum_loop zero i name83 sum = sum
checksum_loop (suc n) i name83 sum =
    checksum_loop n (i + 1) name83 (u8 ((if sum % 2 == 1 then 128 else 0) + sum / 2 + name83 i))

unfoldable pub fat32_lfn_checksum : Array ℕ → ℕ
fat32_lfn_checksum name83 = checksum_loop 11 0 name83 0

-- The loops of fat32_lfn_decode_chunk over the 13 characters of an entry, in order.
unfoldable pub decode_chars : List ℕ → ℕ → Array ℕ → Array ℕ
decode_chars [] pos name = name
decode_chars (ch ∷ rest) pos name =
    let next = decode_chars rest (pos + 1) (update (update name pos (ch % 256)) (pos + 1) 0) in
    let skip = decode_chars rest pos name in
    if ch == 0
    then update name pos 0
    else if ch == 65535
    then skip
    else if ltb (u32 (pos + 1)) fat32_name_max
    then next
    else skip

-- fat32_lfn_decode_chunk of an entry with its order and its characters.
unfoldable pub fat32_lfn_decode_chunk : ℕ → List ℕ → Array ℕ → Array ℕ
fat32_lfn_decode_chunk order chars name = decode_chars chars (u32 (sub32 (order % 32) 1 * 13)) name
