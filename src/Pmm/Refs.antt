-- ===== src/Pmm/Refs.antt =====
-- The operations of mem/pmm.c on one frame after it was handed out: freeing, reserving, and the
-- reference counts that copy-on-write mappings share.
use coffee_os_aurora_refresh.Base.{
  ℕ, ◌+◌, ◌-◌, ◌/◌, update, ltb, leb, ◌==◌, if◌then◌else◌, u32, sub32,
}
use coffee_os_aurora_refresh.Pmm.Bitmap.{page_size, bitmap_set, bitmap_clear, bitmap_test}
use coffee_os_aurora_refresh.Pmm.State.{Pmm}

-- `refcount[page] = 0u; bitmap_clear(page); used_pages--;` and the hint moved down to the page.
unfoldable pub release_page : Pmm → ℕ → Pmm
release_page s page = record s {
  refcount = update s.refcount page 0;
  bitmap = bitmap_clear s.bitmap page;
  used_pages = sub32 s.used_pages 1;
  first_free_hint = if ltb page s.first_free_hint then page else s.first_free_hint;
}

unfoldable pub pmm_free_page : Pmm → ℕ → Pmm
pmm_free_page s addr =
    let page = addr / page_size in
    if leb s.total_pages page
    then s
    else if bitmap_test s.bitmap page == 0
    then s
    else if ltb 1 (s.refcount page)
    then record s { refcount = update s.refcount page (s.refcount page - 1) }
    else if s.refcount page == 1
    then release_page s page
    else s

unfoldable pub pmm_mark_used : Pmm → ℕ → Pmm
pmm_mark_used s addr =
    let page = addr / page_size in
    let free = bitmap_test s.bitmap page == 0 in
    if leb s.total_pages page then s else record s {
      bitmap = if free then bitmap_set s.bitmap page else s.bitmap;
      used_pages = if free then u32 (s.used_pages + 1) else s.used_pages;
      refcount = if s.refcount page == 0 then update s.refcount page 1 else s.refcount;
      first_free_hint = if page == s.first_free_hint then page + 1 else s.first_free_hint;
    }

unfoldable pub pmm_ref_inc : Pmm → ℕ → Pmm
pmm_ref_inc s phys_addr =
    let page = phys_addr / page_size in
    if leb s.total_pages page
    then s
    else if bitmap_test s.bitmap page == 0
    then s
    else if s.refcount page == 0
    then record s { refcount = update s.refcount page 1 }
    else if s.refcount page == 0xffff
    then s
    else record s { refcount = update s.refcount page (s.refcount page + 1) }

unfoldable pub pmm_ref_dec : Pmm → ℕ → Pmm
pmm_ref_dec s phys_addr =
    let page = phys_addr / page_size in
    if leb s.total_pages page
    then s
    else if bitmap_test s.bitmap page == 0
    then s
    else if s.refcount page == 0
    then s
    else if ltb 1 (s.refcount page)
    then record s { refcount = update s.refcount page (s.refcount page - 1) }
    else release_page s page

unfoldable pub pmm_ref_count : Pmm → ℕ → ℕ
pmm_ref_count s phys_addr =
    let page = phys_addr / page_size in if leb s.total_pages page then 0 else s.refcount page
