-- ===== src/Pmm/Count.antt =====
-- The number of set bits of the bitmap, which recount_used_pages computes and used_pages keeps.
use coffee_os_aurora_refresh.Base.{
  ℕ, zero, suc, ◌+◌, ◌≤◌, ◌<◌, ◌≡◌, refl, arith, Array, ltb, if◌then◌else◌, ap, ◌∙◌,
}
use coffee_os_aurora_refresh.Pmm.Bitmap.{
  bitmap_set, bitmap_clear, bitmap_test, bitmap_test-le-one, bitmap_test-set, bitmap_test-clear,
}
use coffee_os_aurora_refresh.Pmm.State.{recount_loop, recount_used_pages}

-- The set bits among the first n.
unfoldable pub count_used : Array ℕ → ℕ → ℕ
count_used b zero = 0
count_used b (suc n) = count_used b n + bitmap_test b n

pub count_used-le : (b : Array ℕ) (n : ℕ) → count_used b n ≤ n
unfolding count_used
count_used-le b zero = omega arith
count_used-le b (suc n) = omega (arith, count_used-le b n, bitmap_test-le-one b n)

count_used_next : (b : Array ℕ) (p : ℕ) → count_used b (p + 1) ≡ count_used b p + bitmap_test b p
unfolding count_used
count_used_next b p = ap (count_used b) {y = suc p} (omega arith)

recount_loop_lem :
    (b : Array ℕ) (n p j c : ℕ)
    → j ≡ p + n
    → j < 4294967296
    → c ≡ count_used b p
    → recount_loop b n p c ≡ count_used b j
unfolding recount_loop
recount_loop_lem b zero p j c e h k = k ∙ ap (count_used b) (omega arith)
recount_loop_lem b (suc n) p j c e h k =
    recount_loop_lem b n (p + 1) j _ (omega arith) h
      (ground (arith, count_used_next b p, count_used-le b p, bitmap_test-le-one b p))

-- The loop counts the set bits.
pub recount_used_pages_lem :
    (b : Array ℕ) (n : ℕ) → n < 4294967296 → recount_used_pages b n ≡ count_used b n
unfolding recount_used_pages count_used
recount_used_pages_lem b n h = recount_loop_lem b n 0 n 0 (omega arith) h refl

-- Setting a clear bit below n adds one, any other adds none.
pub count_used-set :
    (b : Array ℕ) (p n : ℕ)
    → bitmap_test b p ≡ 0
    → count_used (bitmap_set b p) n ≡ count_used b n + (if ltb p n then 1 else 0)
unfolding count_used
count_used-set b p zero h = ground arith
count_used-set b p (suc n) h = ground (arith, count_used-set b p n h, bitmap_test-set b p n)

pub count_used-clear :
    (b : Array ℕ) (p n : ℕ)
    → bitmap_test b p ≡ 1
    → count_used (bitmap_clear b p) n + (if ltb p n then 1 else 0) ≡ count_used b n
unfolding count_used
count_used-clear b p zero h = ground arith
count_used-clear b p (suc n) h = ground (arith, count_used-clear b p n h, bitmap_test-clear b p n)

-- A set bit below n is counted.
pub count_used_pos : (b : Array ℕ) (p n : ℕ) → p < n → bitmap_test b p ≡ 1 → 0 < count_used b n
unfolding count_used
count_used_pos b p zero h e = absurd (omega arith)
count_used_pos b p (suc n) h e = ground (arith, count_used_pos b p n)
