-- ===== src/Pmm/State.antt =====
-- The static state of mem/pmm.c and the helpers that mark regions in its bitmap. Addresses and
-- lengths are `uint32_t` or `uint64_t` values, kept as numbers; what wraps is written with u32 and
-- u64. Logging to the serial port is left out.
use coffee_os_aurora_refresh.Base.{
  ℕ, zero, suc, ◌+◌, ◌-◌, ◌/◌, ◌%◌, Array, ltb, leb, ◌==◌, if◌then◌else◌, u32, sub32,
}
use coffee_os_aurora_refresh.Pmm.Bitmap.{page_size, bitmap_set, bitmap_clear, bitmap_test}

pub record Pmm : Type 0 where
  pub bitmap : Array ℕ
  pub refcount : Array ℕ
  pub total_pages : ℕ
  pub used_pages : ℕ
  pub memmap_addr_saved : ℕ
  pub memmap_length_saved : ℕ
  pub first_free_hint : ℕ

-- `0x100000000ULL`
abbrev pub four_gib : ℕ
four_gib = 4294967296

abbrev pub u64 : ℕ → ℕ
u64 x = x % 18446744073709551616

unfoldable pub pages_from_end_u64 : ℕ → ℕ
pages_from_end_u64 end64 =
    if end64 == 0
    then 0
    else u32 (((if ltb four_gib end64 then four_gib else end64) + page_size - 1) / page_size)

-- The loop from `page` on, with n pages left.
unfoldable pub recount_loop : Array ℕ → ℕ → ℕ → ℕ → ℕ
recount_loop b zero page count = count
recount_loop b (suc n) page count =
    recount_loop b n (page + 1) (if bitmap_test b page == 0 then count else u32 (count + 1))

unfoldable pub recount_used_pages : Array ℕ → ℕ → ℕ
recount_used_pages b page_limit = recount_loop b page_limit 0 0

unfoldable pub clamp_u64_to_u32 : ℕ → ℕ
clamp_u64_to_u32 value = if ltb 4294967295 value then 4294967295 else value

-- One round of the loop of mark_region_used.
unfoldable pub mark_page_used : Pmm → ℕ → Pmm
mark_page_used s p =
    if bitmap_test s.bitmap p == 0
    then record s { bitmap = bitmap_set s.bitmap p; used_pages = u32 (s.used_pages + 1) }
    else s

-- One round of the loop of mark_region_free.
unfoldable pub mark_page_free : Pmm → ℕ → Pmm
mark_page_free s p =
    if bitmap_test s.bitmap p == 0
    then s
    else record s { bitmap = bitmap_clear s.bitmap p; used_pages = sub32 s.used_pages 1 }

-- `for (p = start_page; p <= end_page; p++)` with n rounds left.
unfoldable pub mark_loop : (Pmm → ℕ → Pmm) → ℕ → ℕ → Pmm → Pmm
mark_loop mark zero p s = s
mark_loop mark (suc n) p s = mark_loop mark n (p + 1) (mark s p)

-- What mark_region_used and mark_region_free share: the page range of the bytes
-- [base, base + length), cut off at total_pages.
unfoldable pub mark_region : (Pmm → ℕ → Pmm) → Pmm → ℕ → ℕ → Pmm
mark_region mark s base len =
    let start_page = base / page_size in
    let last = sub32 (u32 (base + len)) 1 / page_size in
    let end_page = if leb s.total_pages last then s.total_pages - 1 else last in
    if len == 0
    then s
    else if leb s.total_pages start_page
    then s
    else mark_loop mark (end_page + 1 - start_page) start_page s

unfoldable pub mark_region_used : Pmm → ℕ → ℕ → Pmm
mark_region_used s base len = mark_region mark_page_used s base len

unfoldable pub mark_region_free : Pmm → ℕ → ℕ → Pmm
mark_region_free s base len = mark_region mark_page_free s base len

unfoldable pub mark_region_used_u64 : Pmm → ℕ → ℕ → Pmm
mark_region_used_u64 s base64 length64 =
    let cut = if ltb four_gib (u64 (base64 + length64)) then four_gib - base64 else length64 in
    let len = clamp_u64_to_u32 cut in
    if length64 == 0
    then s
    else if leb four_gib base64
    then s
    else if len == 0
    then s
    else mark_region_used s (u32 base64) len
