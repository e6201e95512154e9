-- ===== src/Pmm/Regions.antt =====
-- The region helpers of mem/pmm.c: which pages they mark, and what they keep.
use native.Mathlib.Nat.{le_refl}
use coffee_os_aurora_refresh.Base.{
  ℕ, zero, suc, ◌+◌, ◌-◌, ◌/◌, ◌≤◌, ◌<◌, ◌≡◌, ◌==◌, ◌≢◌, arith, Bool, ltb, leb, u32, sub32,
  if◌then◌else◌, if_intro, max, ◌&&◌, not,
}
use coffee_os_aurora_refresh.Pmm.Bitmap.{
  page_size, bitmap_test, bitmap_test-set, bitmap_test-clear, bitmap_test-le-one,
}
use coffee_os_aurora_refresh.Pmm.State.{
  Pmm, mark_page_used, mark_page_free, mark_loop, mark_region, mark_region_used, mark_region_free,
}

-- The last page that holds a byte of a region.
abbrev pub last_page : ℕ → ℕ → ℕ
last_page base len = sub32 (u32 (base + len)) 1 / page_size

module _ {ℓ} (mark : Pmm → ℕ → Pmm) (P : Pmm → Type ℓ) where
  mark_loop_keeps :
      (lo hi : ℕ)
      → ((s : Pmm) (p : ℕ) → lo ≤ p → p < hi → P s → P (mark s p))
      → (n p : ℕ) (s : Pmm) → lo ≤ p
      → p + n ≤ hi
      → P s
      → P (mark_loop mark n p s)
  unfolding mark_loop
  mark_loop_keeps lo hi keep zero p s h k v = v
  mark_loop_keeps lo hi keep (suc n) p s h k v =
      mark_loop_keeps lo hi keep n (p + 1) (mark s p) (omega arith) (omega arith)
        (keep s p h (omega arith) v)

  -- What every managed page of a region keeps when it is marked, the region keeps.
  pub mark_region_keeps :
      (s : Pmm) (base len : ℕ)
      → ((t : Pmm) (p : ℕ)
          → len ≢ 0
          → base / page_size ≤ p
          → p ≤ last_page base len
          → p < s.total_pages
          → P t
          → P (mark t p))
      → P s
      → P (mark_region mark s base len)
  unfolding mark_region
  mark_region_keeps s base len keep v =
      if_intro P (len == 0) s _ (λ _. v)
        λ some_bytes.
          if_intro P (leb s.total_pages start) s _ (λ _. v)
            λ inside.
              mark_loop_keeps start (max (end + 1) start)
                (λ t p h k.
                  keep t p (ground (arith, some_bytes)) h (ground arith) (ground (arith, inside)))
                (end + 1 - start) start s (le_refl start) (omega arith) v
    where
      start : ℕ
      start = base / page_size

      end : ℕ
      end = if leb s.total_pages (last_page base len) then s.total_pages - 1 else last_page base len

-- What one page's marking does to every bit.
mark_page_used-test :
    (s : Pmm) (p q : ℕ)
    → bitmap_test (mark_page_used s p).bitmap q ≡ (if p == q then 1 else bitmap_test s.bitmap q)
unfolding mark_page_used
mark_page_used-test s p q =
    ground (arith, bitmap_test-set s.bitmap p q, bitmap_test-le-one s.bitmap p)

mark_page_free-test :
    (s : Pmm) (p q : ℕ)
    → bitmap_test (mark_page_free s p).bitmap q ≡ (if p == q then 0 else bitmap_test s.bitmap q)
unfolding mark_page_free
mark_page_free-test s p q =
    ground (arith, bitmap_test-clear s.bitmap p q, bitmap_test-le-one s.bitmap p)

-- Whether a loop over [p, p + n) reaches page q.
abbrev reaches : ℕ → ℕ → ℕ → Bool
reaches p n q = leb p q && ltb q (p + n)

mark_loop-test :
    (mark : Pmm → ℕ → Pmm) (value : ℕ)
    → ((s : Pmm) (p q : ℕ)
        → bitmap_test (mark s p).bitmap q ≡ (if p == q then value else bitmap_test s.bitmap q))
    → (n p q : ℕ) (s : Pmm)
    → bitmap_test (mark_loop mark n p s).bitmap q
      ≡ (if reaches p n q then value else bitmap_test s.bitmap q)
unfolding mark_loop
mark_loop-test mark value one zero p q s = ground arith
mark_loop-test mark value one (suc n) p q s =
    ground (arith, mark_loop-test mark value one n (p + 1) q (mark s p), one s p q)

-- The pages that a region covers and the manager manages.
abbrev pub covers : Pmm → ℕ → ℕ → ℕ → Bool
covers s base len q =
    not (len == 0) && leb (base / page_size) q && leb q (last_page base len) && ltb q s.total_pages

mark_region-test :
    (mark : Pmm → ℕ → Pmm) (value : ℕ)
    → ((s : Pmm) (p q : ℕ)
        → bitmap_test (mark s p).bitmap q ≡ (if p == q then value else bitmap_test s.bitmap q))
    → (s : Pmm) (base len q : ℕ)
    → bitmap_test (mark_region mark s base len).bitmap q
      ≡ (if covers s base len q then value else bitmap_test s.bitmap q)
unfolding mark_region
mark_region-test mark value one s base len q =
    ground (arith, mark_loop-test mark value one (end + 1 - start) start q s)
  where
    start : ℕ
    start = base / page_size

    end : ℕ
    end = if leb s.total_pages (last_page base len) then s.total_pages - 1 else last_page base len

-- mark_region_used sets the bits of exactly the managed pages that hold a byte of the region, and
-- mark_region_free clears the bits of exactly those; no other bit changes.
pub mark_region_bits :
    (s : Pmm) (base len q : ℕ)
    → (bitmap_test (mark_region_used s base len).bitmap q
        ≡ (if covers s base len q then 1 else bitmap_test s.bitmap q))
      × (bitmap_test (mark_region_free s base len).bitmap q
          ≡ (if covers s base len q then 0 else bitmap_test s.bitmap q))
unfolding mark_region_used mark_region_free
mark_region_bits s base len q = (
  mark_region-test mark_page_used 1 mark_page_used-test s base len q,
  mark_region-test mark_page_free 0 mark_page_free-test s base len q,
)
