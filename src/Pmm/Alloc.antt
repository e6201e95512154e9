-- ===== src/Pmm/Alloc.antt =====
-- The frame allocators of mem/pmm.c: the scan of the bitmap from the hint on, then from word 0.
-- A loop returns the page that it finds; `none` is the end of the loop.
use coffee_os_aurora_refresh.Base.{
  ℕ, zero, suc, ◌+◌, ◌-◌, ◌*◌, ◌/◌, Bool, false, Option, none, some, Array, update, ltb, leb, ◌==◌,
  if◌then◌else◌, u32, min,
}
use coffee_os_aurora_refresh.Base.Bits.{test_bit}
use coffee_os_aurora_refresh.Pmm.Bitmap.{page_size, bitmap_words, full_word, bitmap_set}
use coffee_os_aurora_refresh.Pmm.State.{Pmm}

-- The test `page >= max_page`; `none` in pmm_alloc_page, whose loops have no such test.
abbrev pub past : Option ℕ → ℕ → Bool
past none page = false
past (some max_page) page = leb max_page page

-- The loop over the bits of one word, from `bit` on with n rounds left: it skips pages below
-- `start_page` (0 in the second pass, which has no such test) and breaks past the limit.
unfoldable pub find_bit : ℕ → ℕ → ℕ → Option ℕ → ℕ → ℕ → Option ℕ
find_bit bits word start_page limit zero bit = none
find_bit bits word start_page limit (suc n) bit =
    let page = word * 32 + bit in
    let rest = find_bit bits word start_page limit n (bit + 1) in
    if ltb page start_page
    then rest
    else if past limit page
    then none
    else if test_bit bits bit == 0
    then some page
    else rest

-- The loop over the words, from `word` on with n words left.
unfoldable pub find_word : Array ℕ → ℕ → Option ℕ → ℕ → ℕ → Option ℕ
find_word bitmap start_page limit zero word = none
find_word bitmap start_page limit (suc n) word =
    let rest = find_word bitmap start_page limit n (word + 1) in
    let found = find_bit (bitmap word) word start_page limit 32 0 in
    if bitmap word == full_word then rest else elim found [ some page ↦ some page | none ↦ rest ]

-- `bitmap_set(page); used_pages++; refcount[page] = 1u; first_free_hint = page + 1u;`
unfoldable pub take_page : Pmm → ℕ → Pmm
take_page s page = record s {
  bitmap = bitmap_set s.bitmap page;
  used_pages = u32 (s.used_pages + 1);
  refcount = update s.refcount page 1;
  first_free_hint = page + 1;
}

-- The physical address of the page taken, 0 for none, and the state after.
unfoldable pub pmm_alloc_page_below : Pmm → ℕ → ℕ × Pmm
pmm_alloc_page_below s max_phys =
    let max_page = max_phys / page_size in
    let word_limit = min ((max_page + 31) / 32) bitmap_words in
    let start_page = if leb max_page s.first_free_hint then 0 else s.first_free_hint in
    let first = start_page / 32 in
    if max_page == 0
    then (0, s)
    else elim (find_word s.bitmap start_page (some max_page) (word_limit - first) first) [
      | some page ↦ (u32 (page * page_size), take_page s page)
      | none ↦ elim (find_word s.bitmap 0 (some max_page) (min first word_limit) 0) [
        | some page ↦ (u32 (page * page_size), take_page s page)
        | none ↦ (0, s)
      ]
    ]

-- A page found at or above total_pages ends the search with 0.
unfoldable pub finish_alloc : Pmm → ℕ → ℕ × Pmm
finish_alloc s page =
    if leb s.total_pages page then (0, s) else (u32 (page * page_size), take_page s page)

unfoldable pub pmm_alloc_page : Pmm → ℕ × Pmm
pmm_alloc_page s =
    let start_page = s.first_free_hint in
    let first = start_page / 32 in
    elim (find_word s.bitmap start_page none (bitmap_words - first) first) [
      | some page ↦ finish_alloc s page
      | none ↦ elim (find_word s.bitmap 0 none first 0) [
        | some page ↦ finish_alloc s page
        | none ↦ (0, s)
      ]
    ]
