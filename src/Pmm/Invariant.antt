-- ===== src/Pmm/Invariant.antt =====
-- The invariant of the physical memory manager once it is initialised.
use coffee_os_aurora_refresh.Base.{ℕ, ◌≤◌, ◌<◌, ◌≡◌}
use coffee_os_aurora_refresh.Pmm.Bitmap.{max_pages, bitmap_test}
use coffee_os_aurora_refresh.Pmm.State.{Pmm}
use coffee_os_aurora_refresh.Pmm.Count.{count_used}

pub record Inv (s : Pmm) : Type 0 where
  -- The managed pages lie in the bitmap, and what lies above them is never free.
  pub total_max : s.total_pages ≤ max_pages
  pub outside : (q : ℕ) → s.total_pages ≤ q → q < max_pages → bitmap_test s.bitmap q ≡ 1
  -- No page below the hint is free.
  pub hint_total : s.first_free_hint ≤ s.total_pages
  pub below_hint : (q : ℕ) → q < s.first_free_hint → bitmap_test s.bitmap q ≡ 1
  -- used_pages is exact.
  pub counted : s.used_pages ≡ count_used s.bitmap s.total_pages
  -- A free page has no references, and no count leaves its 16 bits.
  pub unreferenced : (q : ℕ) → bitmap_test s.bitmap q ≡ 0 → s.refcount q ≡ 0
  pub ref_max : (q : ℕ) → s.refcount q ≤ 0xffff

-- The lowest free page of the managed memory.
abbrev pub LowestFree : Pmm → ℕ → Type 0
LowestFree s p =
    (p < s.total_pages)
    × (bitmap_test s.bitmap p ≡ 0)
    × ((q : ℕ) → q < p → bitmap_test s.bitmap q ≡ 1)
