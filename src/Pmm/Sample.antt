-- ===== src/Pmm/Sample.antt =====
-- A small machine for runs of mem/pmm.c.
use coffee_os_aurora_refresh.Base.{refl, arith, [], ◌∷◌, update}
use coffee_os_aurora_refresh.Base.Bits.{test_bit}
use coffee_os_aurora_refresh.Pmm.Bitmap.{full_word, bitmap_test, bitmap_test_ones}
use coffee_os_aurora_refresh.Pmm.State.{Pmm}
use coffee_os_aurora_refresh.Pmm.Count.{count_used}
use coffee_os_aurora_refresh.Pmm.Invariant.{Inv}
use coffee_os_aurora_refresh.Pmm.Steps.{free_page, run, run-Inv}

-- 64 pages in use, of which page 37 has a reference.
abbrev pub busy : Pmm
busy = record {
  bitmap = λ w. full_word;
  refcount = update (λ p. 0) 37 1;
  total_pages = 64;
  used_pages = 64;
  memmap_addr_saved = 0;
  memmap_length_saved = 0;
  first_free_hint = 64;
}

pub busy-Inv : Inv busy
unfolding count_used bitmap_test test_bit
busy-Inv = record {
  total_max = omega arith;
  outside = λ q h k. bitmap_test_ones q;
  hint_total = omega arith;
  below_hint = λ q h. bitmap_test_ones q;
  counted = refl;
  unreferenced = λ q h. absurd (omega (arith, bitmap_test_ones q));
  ref_max = λ q. ground arith;
}

-- Page 37 was freed.
abbrev pub one_free : Pmm
one_free = run busy (free_page 0x25000 ∷ [])

pub one_free-Inv : Inv one_free
one_free-Inv = run-Inv busy (free_page 0x25000 ∷ []) busy-Inv
