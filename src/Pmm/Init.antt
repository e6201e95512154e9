-- ===== src/Pmm/Init.antt =====
-- pmm_init of mem/pmm.c: the bitmap built from the Multiboot memory map. What the boot loader left
-- in memory (the entries of the map, the module table) and the linker's kernel bounds are
-- arguments. The loop over the map takes fuel, since an entry whose size field wraps the cursor
-- can make it go round for ever. Logging is left out, and with it the counter entries_seen.
use coffee_os_aurora_refresh.Base.{
  ℕ, zero, suc, ◌+◌, ◌-◌, ◌*◌, Bool, not, ◌&&◌, ◌||◌, Option, none, some, ltb, leb, ◌==◌,
  if◌then◌else◌, u32, sub32,
}
use coffee_os_aurora_refresh.Base.Bits.{test_bit}
use coffee_os_aurora_refresh.Pmm.Bitmap.{max_pages, full_word}
use coffee_os_aurora_refresh.Pmm.State.{
  Pmm, four_gib, u64, pages_from_end_u64, recount_used_pages, mark_region_used, mark_region_free,
  mark_region_used_u64,
}

-- The fields of struct MultibootInfo that pmm_init reads.
pub record MultibootInfo : Type 0 where
  pub flags : ℕ
  pub mem_lower : ℕ
  pub mem_upper : ℕ
  pub cmdline : ℕ
  pub mods_count : ℕ
  pub mods_addr : ℕ
  pub mmap_length : ℕ
  pub mmap_addr : ℕ
  pub boot_loader_name : ℕ
  pub framebuffer_addr : ℕ
  pub framebuffer_pitch : ℕ
  pub framebuffer_height : ℕ

-- struct MultibootMMapEntry
pub record MmapEntry : Type 0 where
  pub size : ℕ
  pub addr : ℕ
  pub len : ℕ
  pub kind : ℕ

-- struct MultibootModule
pub record BootModule : Type 0 where
  pub mod_start : ℕ
  pub mod_end : ℕ
  pub string : ℕ

-- What pmm_init finds in memory: the entry at an address, the module of an index, the bounds of
-- the kernel image, the address of the Multiboot information.
pub record BootMemory : Type 0 where
  pub entry_at : ℕ → MmapEntry
  pub module_at : ℕ → BootModule
  pub kernel_phys_start : ℕ
  pub kernel_phys_end : ℕ
  pub info_addr : ℕ

-- The state after the bitmap was filled with ones and the counts with zeros.
unfoldable pub all_used : Pmm
all_used = record {
  bitmap = λ w. full_word;
  refcount = λ p. 0;
  total_pages = max_pages;
  used_pages = max_pages;
  memmap_addr_saved = 0;
  memmap_length_saved = 0;
  first_free_hint = 0;
}

-- The state, detected_pages and available_entries of the loop over the memory map.
pub record MapScan : Type 0 where
  pub pmm : Pmm
  pub detected : ℕ
  pub available : ℕ

abbrev raise_to : ℕ → ℕ → ℕ
raise_to value least = if ltb value least then least else value

-- The body of the loop, for one entry.
unfoldable pub scan_entry : MapScan → MmapEntry → MapScan
scan_entry st e =
    let region_end = u64 (e.addr + e.len) in
    let detected = raise_to st.detected (pages_from_end_u64 region_end) in
    let cut_end = if ltb four_gib region_end then four_gib else region_end in
    let region_len = u32 (cut_end + 18446744073709551616 - e.addr) in
    if e.kind == 1 && not (e.len == 0)
    then (if ltb e.addr four_gib
        then record {
          pmm = mark_region_free st.pmm (u32 e.addr) region_len;
          detected = detected;
          available = u32 (st.available + 1);
        }
        else record st { detected = detected })
    else st

-- `while (current < end)`; `none` is fuel that ran out.
unfoldable pub scan_map : (ℕ → MmapEntry) → ℕ → ℕ → ℕ → MapScan → Option MapScan
scan_map entry_at zero current last st = none
scan_map entry_at (suc fuel) current last st =
    let rest =
      scan_map entry_at fuel (u32 (current + ((entry_at current).size + 4))) last
        (scan_entry st (entry_at current)) in
    if ltb current last then rest else some st

-- The use of mem_lower and mem_upper when the map had no available entry below 4 GiB.
unfoldable pub fall_back : MapScan → MultibootInfo → MapScan
fall_back st mbi =
    let low_len = mbi.mem_lower * 1024 in
    let low_cut = if ltb four_gib low_len then four_gib else low_len in
    let low_pmm = if low_len == 0 then st.pmm else mark_region_free st.pmm 0 (u32 low_cut) in
    let high_len = mbi.mem_upper * 1024 in
    let high_end = 0x100000 + high_len in
    let high_cut = if ltb four_gib high_end then four_gib else high_end in
    if st.available == 0 && test_bit mbi.flags 0 == 1
    then (if high_len == 0
        then record st { pmm = low_pmm; detected = pages_from_end_u64 low_len }
        else record st {
          pmm = mark_region_free low_pmm 0x100000 (u32 (high_cut - 0x100000));
          detected = pages_from_end_u64 (raise_to low_len high_cut);
        })
    else st

-- `total_pages = detected_pages; used_pages = recount_used_pages(total_pages);`
unfoldable pub settle : MapScan → Pmm
settle st =
    let found = if st.detected == 0 || ltb max_pages st.detected then max_pages else st.detected in
    record (st.pmm) { total_pages = found; used_pages = recount_used_pages (st.pmm).bitmap found }

-- Marking one region used if a condition holds.
abbrev pub reserve_if : Bool → ℕ → ℕ → Pmm → Pmm
reserve_if test base len s = if test then mark_region_used s base len else s

-- The loop over the modules, from m on with n left.
unfoldable pub reserve_modules : (ℕ → BootModule) → ℕ → ℕ → Pmm → Pmm
reserve_modules module_at zero m s = s
reserve_modules module_at (suc n) m s =
    let b = module_at m in
    let t = reserve_if (ltb b.mod_start b.mod_end) b.mod_start (b.mod_end - b.mod_start) s in
    reserve_modules module_at n (m + 1) (reserve_if (not (b.string == 0)) b.string 256 t)

-- The first megabyte and the kernel image.
unfoldable pub reserve_kernel : BootMemory → Pmm → Pmm
reserve_kernel mem s =
    mark_region_used (mark_region_used s 0 0x100000) mem.kernel_phys_start
      (sub32 mem.kernel_phys_end mem.kernel_phys_start)

-- The module table, the modules and their command lines.
unfoldable pub reserve_mods : BootMemory → MultibootInfo → Pmm → Pmm
reserve_mods mem mbi s =
    if test_bit mbi.flags 3 == 1 && not (mbi.mods_count == 0)
    then reserve_modules mem.module_at mbi.mods_count 0
        (mark_region_used s mbi.mods_addr (u32 (mbi.mods_count * 16)))
    else s

-- The kernel's command line and the boot loader's name.
unfoldable pub reserve_strings : MultibootInfo → Pmm → Pmm
reserve_strings mbi s =
    reserve_if (test_bit mbi.flags 9 == 1 && not (mbi.boot_loader_name == 0)) mbi.boot_loader_name
      256 (reserve_if (test_bit mbi.flags 2 == 1 && not (mbi.cmdline == 0)) mbi.cmdline 256 s)

unfoldable pub reserve_framebuffer : MultibootInfo → Pmm → Pmm
reserve_framebuffer mbi s =
    if test_bit mbi.flags 12 == 1
    then mark_region_used_u64 s mbi.framebuffer_addr
        (mbi.framebuffer_pitch * mbi.framebuffer_height)
    else s

-- What the boot loader left: the information structure, the map, the modules, two strings and the
-- framebuffer, in this order.
unfoldable pub reserve_boot : BootMemory → MultibootInfo → Pmm → Pmm
reserve_boot mem mbi s = reserve_framebuffer mbi (
    reserve_strings mbi (
      reserve_mods mem mbi (
        reserve_if (test_bit mbi.flags 6 == 1) mbi.mmap_addr mbi.mmap_length
          (mark_region_used s mem.info_addr 116))))

-- The loop over the map, if the boot loader gave one.
unfoldable pub scan_boot_map : ℕ → BootMemory → MultibootInfo → Option MapScan
scan_boot_map fuel mem mbi =
    let fresh : MapScan = record { pmm = all_used; detected = 0; available = 0 } in
    let with_map : MapScan = record {
      pmm = record all_used {
        memmap_addr_saved = mbi.mmap_addr;
        memmap_length_saved = mbi.mmap_length;
      };
      detected = 0;
      available = 0;
    } in
    let scanned =
      scan_map mem.entry_at fuel mbi.mmap_addr (u32 (mbi.mmap_addr + mbi.mmap_length)) with_map in
    if test_bit mbi.flags 6 == 1 then scanned else some fresh

unfoldable pub pmm_init : ℕ → BootMemory → MultibootInfo → Option Pmm
pmm_init fuel mem mbi = elim (scan_boot_map fuel mem mbi) [
  | none ↦ none
  | some st ↦ some (reserve_boot mem mbi (reserve_kernel mem (settle (fall_back st mbi))))
]

-- pmm_memmap_next: the entry under the cursor and the cursor behind it.
unfoldable pub pmm_memmap_next : (ℕ → MmapEntry) → Pmm → ℕ → Option (MmapEntry × ℕ)
pmm_memmap_next entry_at s cursor =
    let e = entry_at (u32 (s.memmap_addr_saved + cursor)) in
    if s.memmap_addr_saved == 0 || leb s.memmap_length_saved cursor
    then none
    else some (e, u32 (cursor + (e.size + 4)))
