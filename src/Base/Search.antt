-- ===== src/Base/Search.antt =====
-- The loop `for (i = lo; i < hi; i++) if (p(i)) return i;` and what it finds.
use Prim.Native.Nat.{ℕ, zero, suc, ◌+◌, ◌≤◌, ◌<◌}
use mathlib.Core.Path.{◌≡◌, refl, sym, ap}
use mathlib.Core.Logic.{inl, inr}
use mathlib.Core.Bool.{Bool, true, false}
use mathlib.Core.Option.{Option, none, some}
use native.Mathlib.Omega.{arith}
use coffee_os_aurora_refresh.Base.Tests.{if◌then◌else◌, if_intro, eq_cases, lt_cases}

-- The loop from i on, with n rounds left.
unfoldable pub first : (ℕ → Bool) → ℕ → ℕ → Option ℕ
first p zero i = none
first p (suc n) i = let rest = first p n (i + 1) in if p i then some i else rest

abbrev pub First : (ℕ → Bool) → ℕ → ℕ → Option ℕ → Type 0
First p i hi none = (j : ℕ) → i ≤ j → j < hi → p j ≡ false
First p i hi (some k) = (i ≤ k) × (k < hi) × (p k ≡ true) × ((j : ℕ) → i ≤ j → j < k → p j ≡ false)

First-step :
    (p : ℕ → Bool) (i hi : ℕ) (r : Option ℕ) → p i ≡ false → First p (i + 1) hi r → First p i hi r
First-step p i hi none h v =
    λ j l u. elim (eq_cases i j) [ inl e ↦ rw (sym e) h | inr e ↦ v j (omega arith) u ]
First-step p i hi (some k) h v = (omega (arith, v.0), v.1, v.2, earlier)
  where
    earlier : (j : ℕ) → i ≤ j → j < k → p j ≡ false
    earlier j l u = elim (eq_cases i j) [ inl e ↦ rw (sym e) h | inr e ↦ v.3 j (omega arith) u ]

pub first-First : (p : ℕ → Bool) (n i hi : ℕ) → i + n ≡ hi → First p i hi (first p n i)
unfolding first
first-First p zero i hi e = λ j l u. absurd (omega arith)
first-First p (suc n) i hi e =
    if_intro (First p i hi) (p i) (some i) (first p n (i + 1))
      (λ h. (omega arith, omega arith, h, λ j l u. absurd (omega arith)))
      (λ h. First-step p i hi _ h (first-First p n (i + 1) hi (omega arith)))

-- What is found is determined by First.
pub First-unique :
    (p : ℕ → Bool) (i hi : ℕ) (r t : Option ℕ) → First p i hi r → First p i hi t → r ≡ t
First-unique p i hi none none v w = refl
First-unique p i hi none (some b) v w = let e : p b ≡ false = v b w.0 w.1 in absurd cc
First-unique p i hi (some a) none v w = let e : p a ≡ false = w a v.0 v.1 in absurd cc
First-unique p i hi (some a) (some b) v w = elim (lt_cases a b) [
  | inl l ↦ let e : p a ≡ false = w.3 a v.0 l in absurd cc
  | inr l ↦ elim (eq_cases a b) [
    | inl e ↦ ap some e
    | inr n ↦ let e : p b ≡ false = v.3 b w.0 (omega arith) in absurd cc
  ]
]
