-- ===== src/Paging/Tests.antt =====
-- Runs of mm/paging.c on a small machine, and its theorems at them.
use coffee_os_aurora_refresh.Base.{
  ℕ, ◌+◌, ◌-◌, ◌*◌, ◌≡◌, ◌≢◌, refl, true, ◌&&◌, some, none, update, ltb, leb, ◌==◌, if◌then◌else◌,
  arith,
}
use coffee_os_aurora_refresh.Base.Bits.{test_bit}
use coffee_os_aurora_refresh.Pmm.Bitmap.{
  bitmap_test, bitmap_set, bitmap_clear, bitmap_test_ones, bitmap_test-clear,
}
use coffee_os_aurora_refresh.Pmm.Sample.{busy, one_free, one_free-Inv}
use coffee_os_aurora_refresh.Pmm.Alloc.{
  find_bit, find_word, take_page, finish_alloc, pmm_alloc_page, pmm_alloc_page_below,
}
use coffee_os_aurora_refresh.Pmm.Refs.{release_page, pmm_free_page}
use coffee_os_aurora_refresh.Pmm.Steps.{step, run}
use coffee_os_aurora_refresh.Paging.Defs.{
  Paging, pte_flags_to_hw, alloc_table, install_table, walk_get_pte, set_pte, enter_page, map_page,
  unmap_page, paging_get_mapping,
}
use coffee_os_aurora_refresh.Paging.Mapping.{Sound}
use coffee_os_aurora_refresh.Paging.Translation.{translation}
use coffee_os_aurora_refresh.Paging.Roundtrip.{get_mapping-map_page, unmap_page-map_page}
use coffee_os_aurora_refresh.Paging.Isolation.{Foreign, map_page-isolates}

-- Page 37 is free. The directory is in frame 1, with nothing but its recursive entry.
abbrev machine : Paging
machine = record {
  pmm = one_free;
  frames = update (λ q i. 0) 1 (update (λ i. 0) 1023 0x1003);
  current_pd_phys = 0x1000;
  kernel_pd_phys = 0x1000;
}

page_used : (q : ℕ) → q ≢ 37 → bitmap_test one_free.bitmap q ≡ 1
unfolding run step pmm_free_page release_page
page_used q h =
    rw (bitmap_test_ones 37, bitmap_test-clear busy.bitmap 37 q, bitmap_test_ones q) (ground arith)

machine-Sound : Sound machine
unfolding test_bit
machine-Sound = record {
  pmm_inv = one_free-Inv;
  zero_used = page_used 0 (omega arith);
  directory_used = page_used 1 (omega arith);
  tables_apart = λ i h. ground arith;
}

maps : (map_page machine 0x400000 0x5000 7).0 ≡ true
unfolding map_page walk_get_pte enter_page set_pte install_table alloc_table pmm_alloc_page_below
    pmm_alloc_page finish_alloc take_page find_word find_bit test_bit run step pmm_free_page
    bitmap_test release_page bitmap_clear bitmap_set
maps = refl

get_mapping-map_page_example :
    paging_get_mapping (map_page machine 0x400000 0x5000 7).1 (0x400000 + 0x123)
    ≡ some (0x5000 + 0x123, pte_flags_to_hw 7)
get_mapping-map_page_example =
    get_mapping-map_page machine 0x400000 0x5000 7 0x123 machine-Sound (omega arith) maps
      (omega arith)

unmap_page-map_page_example :
    ((unmap_page (map_page machine 0x400000 0x5000 7).1 0x400000).0 ≡ true)
    × (paging_get_mapping (unmap_page (map_page machine 0x400000 0x5000 7).1 0x400000).1 0x400000
        ≡ none)
unmap_page-map_page_example =
    unmap_page-map_page machine 0x400000 0x5000 7 machine-Sound (omega arith) maps

frame_two : Foreign machine 0x400000 2
unfolding test_bit
frame_two = record {
  in_use = page_used 2 (omega arith);
  not_directory = omega arith;
  not_table = λ h. ground arith;
}

-- The directory in frame 2 is empty.
map_page-isolates_example :
    translation (map_page machine 0x400000 0x5000 7).1.frames 2 0x8000
    ≡ translation machine.frames 2 0x8000
unfolding test_bit
map_page-isolates_example =
    map_page-isolates machine 0x400000 0x5000 7 2 0x8000 machine-Sound (omega arith) frame_two
      (λ h. absurd (ground arith))

-- The directory in frame 1 maps the first 64 MiB to themselves, by the tables in frames 2 to 17.
abbrev identity_words : ℕ → ℕ → ℕ
identity_words q i =
    if q == 1
    then (if ltb i 16 then (i + 2) * 4096 + 3 else if i == 1023 then 0x1003 else 0)
    else if leb 2 q && ltb q 18
    then ((q - 2) * 1024 + i) * 4096 + 3
    else 0

abbrev booted : Paging
booted = record {
  pmm = one_free;
  frames = identity_words;
  current_pd_phys = 0x1000;
  kernel_pd_phys = 0x1000;
}
