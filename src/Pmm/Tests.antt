-- ===== src/Pmm/Tests.antt =====
-- Runs of the physical memory manager (mem/pmm.c) on small machines, and its theorems at them.
use coffee_os_aurora_refresh.Base.{ℕ, ◌+◌, ◌≡◌, ◌≤◌, ◌<◌, refl, ◌-◌, arith, some, [], ◌∷◌}
use coffee_os_aurora_refresh.Base.Bits.{test_bit}
use coffee_os_aurora_refresh.Pmm.Bitmap.{bitmap_test, bitmap_clear, bitmap_test_ones}
use coffee_os_aurora_refresh.Pmm.State.{Pmm, mark_region_used, mark_region_free}
use coffee_os_aurora_refresh.Pmm.Alloc.{
  find_bit, find_word, take_page, finish_alloc, pmm_alloc_page, pmm_alloc_page_below,
}
use coffee_os_aurora_refresh.Pmm.Refs.{release_page, pmm_free_page}
use coffee_os_aurora_refresh.Pmm.Invariant.{Inv}
use coffee_os_aurora_refresh.Pmm.Lowest.{
  Outcome, pmm_alloc_page-Outcome, pmm_alloc_page_below-Outcome,
}
use coffee_os_aurora_refresh.Pmm.Steps.{alloc_page, free_page, ref_inc, ref_dec, step, run, run-Inv}
use coffee_os_aurora_refresh.Pmm.Sharing.{
  Held, Same, incs, decs, decs-incs, free_page-alloc_page-Same,
}
use coffee_os_aurora_refresh.Pmm.Reserved.{Reserved, run-Reserved}
use coffee_os_aurora_refresh.Pmm.Regions.{mark_region_bits}
use coffee_os_aurora_refresh.Pmm.Init.{MultibootInfo, BootMemory, pmm_init}
use coffee_os_aurora_refresh.Pmm.Ready.{SaneMap}
use coffee_os_aurora_refresh.Pmm.Reserve.{KernelPage}
use coffee_os_aurora_refresh.Pmm.Booted.{pmm_init_total}
use coffee_os_aurora_refresh.Pmm.Sample.{busy, busy-Inv, one_free, one_free-Inv}

alloc_finds_it : (pmm_alloc_page one_free).0 ≡ 0x25000
unfolding pmm_alloc_page finish_alloc take_page find_word find_bit test_bit run step pmm_free_page
    bitmap_test release_page bitmap_clear
alloc_finds_it = refl

-- Page 37 ends at 0x26000.
alloc_below_misses_it : (pmm_alloc_page_below one_free 0x25fff).0 ≡ 0
unfolding pmm_alloc_page_below take_page find_word find_bit test_bit run step pmm_free_page
    bitmap_test release_page bitmap_clear
alloc_below_misses_it = refl

pmm_alloc_page-Outcome_example : Outcome one_free one_free.total_pages (pmm_alloc_page one_free)
pmm_alloc_page-Outcome_example = pmm_alloc_page-Outcome one_free one_free-Inv

pmm_alloc_page_below-Outcome_example : Outcome one_free 38 (pmm_alloc_page_below one_free 0x26000)
pmm_alloc_page_below-Outcome_example = pmm_alloc_page_below-Outcome one_free 0x26000 one_free-Inv

run-Inv_example : Inv (run one_free (alloc_page ∷ ref_inc 0x25000 ∷ ref_dec 0x25000 ∷ []))
run-Inv_example =
    run-Inv one_free (alloc_page ∷ ref_inc 0x25000 ∷ ref_dec 0x25000 ∷ []) one_free-Inv

busy-Held : Held busy 37 1
busy-Held = record { managed = omega arith; in_use = bitmap_test_ones 37; refs = refl }

-- Shared twice more, so that the third release frees it.
decs-incs_example :
    ((k : ℕ) → k ≤ 2 → Held (decs k (incs 2 busy 0x25000) 0x25000) 37 (2 + 1 - k))
    × (bitmap_test (decs 3 (incs 2 busy 0x25000) 0x25000).bitmap 37 ≡ 0)
decs-incs_example = decs-incs 2 busy 0x25000 (omega arith) busy-Held

free_page-alloc_page-Same_example :
    Same (pmm_free_page (pmm_alloc_page one_free).1 (pmm_alloc_page one_free).0) one_free
free_page-alloc_page-Same_example =
    free_page-alloc_page-Same one_free one_free-Inv (rw alloc_finds_it (omega arith))

run-Reserved_example : Reserved (run busy (free_page 0x3000 ∷ alloc_page ∷ ref_inc 0x5000 ∷ [])) 3
run-Reserved_example =
    run-Reserved busy 3 (free_page 0x3000 ∷ alloc_page ∷ ref_inc 0x5000 ∷ []) busy-Inv
      (tt, (tt, (omega arith, tt)))
      (record { managed = omega arith; in_use = bitmap_test_ones 3; refs = refl })

-- The bytes [0x1800, 0x2801) lie in the pages 1 and 2.
mark_region_bits_example :
    (bitmap_test (mark_region_used busy 0x1800 0x1001).bitmap 2 ≡ 1)
    × (bitmap_test (mark_region_free busy 0x1800 0x1001).bitmap 2 ≡ 0)
mark_region_bits_example = mark_region_bits busy 0x1800 0x1001 2

-- One available region of 4 MiB at 1 MiB, in one entry of 24 bytes at 0x9000.
abbrev memory : BootMemory
memory = record {
  entry_at = λ a. record { size = 20; addr = 0x100000; len = 0x400000; kind = 1 };
  module_at = λ m. record { mod_start = 0; mod_end = 0; string = 0 };
  kernel_phys_start = 0x100000;
  kernel_phys_end = 0x180000;
  info_addr = 0x9500;
}

abbrev boot_info : MultibootInfo
boot_info = record {
  flags = 0x40;
  mem_lower = 0;
  mem_upper = 0;
  cmdline = 0;
  mods_count = 0;
  mods_addr = 0;
  mmap_length = 24;
  mmap_addr = 0x9000;
  boot_loader_name = 0;
  framebuffer_addr = 0;
  framebuffer_pitch = 0;
  framebuffer_height = 0;
}

memory-SaneMap : SaneMap memory.entry_at 0x9018
memory-SaneMap = record { no_wrap = λ a. omega arith; advances = λ a h. omega arith }

pmm_init_total_example :
    (s : Pmm) × (pmm_init 8 memory boot_info ≡ some s)
    × Inv s
    × ((q : ℕ) → s.refcount q ≡ 0)
    × ((q : ℕ) → q < s.total_pages → KernelPage memory q → Reserved s q)
pmm_init_total_example = pmm_init_total memory boot_info memory-SaneMap (omega arith)
