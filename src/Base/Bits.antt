-- ===== src/Base/Bits.antt =====
-- Bits of machine words, at every width: what `|`, `&` and `~` of a one-bit mask do to each bit.
use Prim.Native.Nat.{
  ℕ, zero, suc, ◌-◌, ◌*◌, ◌/◌, ◌%◌, ◌^◌, ◌≤◌, ◌<◌, min, max, bit_and, bit_or, digits,
  bit_and-bitwise, bit_or-bitwise,
}
use mathlib.Core.Path.{◌≡◌, refl, sym, ap, ◌∙◌}
use native.Mathlib.Nat.{le_refl, pow-suc, one-le-pow, pow-le-pow_right, div-div-eq-div-mul}
use native.Mathlib.Omega.{arith}
use coffee_os_aurora_refresh.Base.Tests.{◌==◌, if◌then◌else◌}

-- bit i of x, as `(x >> i) & 1`
unfoldable pub test_bit : ℕ → ℕ → ℕ
test_bit x i = x / 2 ^ i % 2

-- The bits of x above the lowest are those of x / 2.
test_bit-zero : (x : ℕ) → test_bit x 0 ≡ x % 2
unfolding test_bit
test_bit-zero x = omega arith

test_bit-suc : (x i : ℕ) → test_bit x (suc i) ≡ test_bit (x / 2) i
unfolding test_bit
test_bit-suc x i = ap (λ d. d % 2) (ap (λ d. x / d) (pow-suc 2 i ∙ omega arith) ∙ div_div x (2 ^ i))
  where
    div_div : (a b : ℕ) → a / (2 * b) ≡ a / 2 / b
    div_div a b = rw (div-div-eq-div-mul a 2 b) refl

pub test_bit-le-one : (x i : ℕ) → test_bit x i ≤ 1
unfolding test_bit
test_bit-le-one x i = omega arith

test_bit_of_zero : (i : ℕ) → test_bit 0 i ≡ 0
test_bit_of_zero zero = test_bit-zero 0
test_bit_of_zero (suc i) = test_bit-suc 0 i ∙ test_bit_of_zero i

-- A bitwise operation is its digit function on every bit: `f` takes digits to digits, and `z` gives
-- what is left when the first number has run out of digits.
test_bit-digits :
    (z : ℕ → ℕ) (f : ℕ → ℕ → ℕ)
    → ((y i : ℕ) → test_bit (z y) i ≡ f 0 (test_bit y i))
    → ((x y : ℕ) → f (x % 2) (y % 2) ≤ 1)
    → (i fuel x y : ℕ) → x ≤ fuel
    → test_bit (digits z f fuel x y) i ≡ f (test_bit x i) (test_bit y i)
test_bit-digits z f out bit i zero zero y h =
    out y i ∙ ap (λ t. f t (test_bit y i)) (sym (test_bit_of_zero i))
test_bit-digits z f out bit i (suc fuel) zero y h =
    out y i ∙ ap (λ t. f t (test_bit y i)) (sym (test_bit_of_zero i))
test_bit-digits z f out bit i zero (suc x) y h = absurd (omega arith)
test_bit-digits z f out bit zero (suc fuel) (suc x) y h =
    rw (test_bit-zero (suc x), test_bit-zero y, test_bit-zero (digits z f (suc fuel) (suc x) y))
      (omega (arith, bit (suc x) y))
test_bit-digits z f out bit (suc i) (suc fuel) (suc x) y h =
    rw (test_bit-suc (suc x) i, test_bit-suc y i, test_bit-suc (digits z f (suc fuel) (suc x) y) i)
      (ap (λ t. test_bit t i) {y = digits z f fuel (suc x / 2) (y / 2)}
          (omega (arith, bit (suc x) y))
        ∙ test_bit-digits z f out bit i fuel (suc x / 2) (y / 2) (omega arith))

pub test_bit-bit_or : (a b i : ℕ) → test_bit (bit_or a b) i ≡ max (test_bit a i) (test_bit b i)
test_bit-bit_or a b i =
    rw (bit_or-bitwise a b)
      (test_bit-digits (λ y. y) max (λ y j. omega arith) (λ x y. omega arith) i a a b (le_refl a))

pub test_bit-bit_and : (a b i : ℕ) → test_bit (bit_and a b) i ≡ min (test_bit a i) (test_bit b i)
test_bit-bit_and a b i = rw (bit_and-bitwise a b) (
    test_bit-digits (λ y. 0) min (λ y j. omega (arith, test_bit_of_zero j)) (λ x y. omega arith) i a
      a b (le_refl a))

-- `1 << k` has bit k alone.
pub test_bit-pow : (k i : ℕ) → test_bit (2 ^ k) i ≡ (if k == i then 1 else 0)
test_bit-pow zero zero = test_bit-zero 1
test_bit-pow zero (suc i) = ground (arith, test_bit-suc 1 i, test_bit_of_zero i)
test_bit-pow (suc k) zero = grind (arith, test_bit-zero (2 ^ suc k), pow-suc 2 k)
test_bit-pow (suc k) (suc i) =
    test_bit-suc (2 ^ suc k) i
    ∙ ap (λ x. test_bit x i) {y = 2 ^ k} (omega (arith, pow-suc 2 k))
    ∙ ground (arith, test_bit-pow k i)

-- `2 ^ w - 1` has all of its w bits.
pub test_bit_ones : (w i : ℕ) → i < w → test_bit (2 ^ w - 1) i ≡ 1
test_bit_ones zero i h = elim h [ ]
test_bit_ones (suc w) zero h =
    omega (arith, test_bit-zero (2 ^ suc w - 1), pow-suc 2 w, one-le-pow w 2)
test_bit_ones (suc w) (suc i) h =
    test_bit-suc (2 ^ suc w - 1) i
    ∙ ap (λ x. test_bit x i) (omega (arith, pow-suc 2 w, one-le-pow w 2))
    ∙ test_bit_ones w i (omega arith)

-- `~(1 << k)` in w bits has all bits but bit k.
pub test_bit_mask :
    (w k i : ℕ) → k < w → i < w → test_bit (2 ^ w - 1 - 2 ^ k) i ≡ (if k == i then 0 else 1)
test_bit_mask zero k i hk hi = elim hk [ ]
test_bit_mask (suc w) zero zero hk hi =
    grind (arith, test_bit-zero (2 ^ suc w - 1 - 1), pow-suc 2 w, one-le-pow w 2)
test_bit_mask (suc w) zero (suc i) hk hi =
    test_bit-suc (2 ^ suc w - 1 - 1) i
    ∙ ap (λ x. test_bit x i) {y = 2 ^ w - 1} (omega (arith, pow-suc 2 w, one-le-pow w 2))
    ∙ ground (arith, test_bit_ones w i)
test_bit_mask (suc w) (suc k) zero hk hi = ground (
  arith,
  test_bit-zero (2 ^ suc w - 1 - 2 ^ suc k),
  one-le-pow w 2,
  pow-suc 2 w,
  pow-suc 2 k,
  pow-le-pow_right {n = 2} (omega arith) {i = suc k} {j = w} (omega arith),
)
test_bit_mask (suc w) (suc k) (suc i) hk hi =
    test_bit-suc (2 ^ suc w - 1 - 2 ^ suc k) i
    ∙ ap (λ x. test_bit x i) {y = 2 ^ w - 1 - 2 ^ k}
        (omega (
          arith,
          pow-suc 2 w,
          pow-suc 2 k,
          pow-le-pow_right {n = 2} (omega arith) {i = suc k} {j = w} (omega arith),
        ))
    ∙ ground (arith, test_bit_mask w k i (omega arith) (omega arith))
