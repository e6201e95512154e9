-- ===== src/Pmm/Bitmap.antt =====
-- The bitmap of mem/pmm.c: one bit for each page frame, set while the frame is in use.
use coffee_os_aurora_refresh.Base.{
  ℕ, ◌+◌, ◌-◌, ◌*◌, ◌/◌, ◌%◌, ◌^◌, ◌≤◌, ◌<◌, ◌≡◌, refl, arith, bit_and, bit_or, Array, update, ◌==◌,
  if◌then◌else◌,
}
use coffee_os_aurora_refresh.Base.Bits.{
  test_bit, test_bit-le-one, test_bit-bit_or, test_bit-bit_and, test_bit-pow, test_bit_ones,
  test_bit_mask,
}

abbrev pub page_size : ℕ
page_size = 4096

abbrev pub max_pages : ℕ
max_pages = 1048576

abbrev pub bitmap_words : ℕ
bitmap_words = 32768

-- `0xFFFFFFFFu`
abbrev pub full_word : ℕ
full_word = 4294967295

unfoldable pub bitmap_set : Array ℕ → ℕ → Array ℕ
bitmap_set b page = update b (page / 32) (bit_or (b (page / 32)) (2 ^ (page % 32)))

-- `~(1u << k)` is `0xFFFFFFFF - 2 ^ k`.
unfoldable pub bitmap_clear : Array ℕ → ℕ → Array ℕ
bitmap_clear b page = update b (page / 32) (bit_and (b (page / 32)) (full_word - 2 ^ (page % 32)))

unfoldable pub bitmap_test : Array ℕ → ℕ → ℕ
bitmap_test b page = test_bit (b (page / 32)) (page % 32)

pub bitmap_test-le-one : (b : Array ℕ) (q : ℕ) → bitmap_test b q ≤ 1
unfolding bitmap_test
bitmap_test-le-one b q = test_bit-le-one _ _

pub bitmap_test-set :
    (b : Array ℕ) (p q : ℕ)
    → bitmap_test (bitmap_set b p) q ≡ (if p == q then 1 else bitmap_test b q)
unfolding bitmap_test bitmap_set
bitmap_test-set b p q = ground (
  arith,
  test_bit-bit_or (b (p / 32)) (2 ^ (p % 32)) (q % 32),
  test_bit-pow (p % 32) (q % 32),
  test_bit-le-one (b (p / 32)) (q % 32),
)

pub bitmap_test-clear :
    (b : Array ℕ) (p q : ℕ)
    → bitmap_test (bitmap_clear b p) q ≡ (if p == q then 0 else bitmap_test b q)
unfolding bitmap_test bitmap_clear
bitmap_test-clear b p q = ground (
  arith,
  test_bit-bit_and (b (p / 32)) (full_word - 2 ^ (p % 32)) (q % 32),
  test_bit_mask 32 (p % 32) (q % 32),
  test_bit-le-one (b (p / 32)) (q % 32),
)

-- A word that the scan skips holds no free page.
pub bitmap_test-full :
    (b : Array ℕ) (w i : ℕ) → b w ≡ full_word → i < 32 → bitmap_test b (w * 32 + i) ≡ 1
unfolding bitmap_test
bitmap_test-full b w i e h = ground (arith, test_bit_ones 32 i h)

pub bitmap_test_ones : (q : ℕ) → bitmap_test (λ w. full_word) q ≡ 1
bitmap_test_ones q =
    let e : q ≡ q / 32 * 32 + q % 32 = omega arith in
    rw e (bitmap_test-full (λ w. full_word) (q / 32) (q % 32) refl (omega arith))
