-- ===== src/Pmm/Scan.antt =====
-- What the scan loops of mem/pmm.c find: the first free page of the range that they look at.
use coffee_os_aurora_refresh.Base.{
  ℕ, zero, suc, ◌+◌, ◌-◌, ◌*◌, ◌≤◌, ◌<◌, ◌≡◌, refl, sym, ap₂, arith, true, false, Option, none,
  some, Array, ltb, ◌==◌, if◌then◌else◌, inl, inr, lt_cases, Bool-cases,
}
use coffee_os_aurora_refresh.Base.Bits.{test_bit}
use coffee_os_aurora_refresh.Pmm.Bitmap.{
  full_word, bitmap_test, bitmap_test-le-one, bitmap_test-full,
}
use coffee_os_aurora_refresh.Pmm.Alloc.{past, find_bit, find_word}

module _ (b : Array ℕ) (start : ℕ) (limit : Option ℕ) where
  -- Every page of [lo, hi) that the loops consider is in use.
  abbrev pub AllUsed : ℕ → ℕ → Type 0
  AllUsed lo hi = (q : ℕ) → lo ≤ q → q < hi → start ≤ q → past limit q ≡ false → bitmap_test b q ≡ 1

  -- The result of a search of [lo, hi).
  abbrev pub Finds : ℕ → ℕ → Option ℕ → Type 0
  Finds lo hi none = AllUsed lo hi
  Finds lo hi (some p) =
      (lo ≤ p)
      × (p < hi)
      × (start ≤ p)
      × (past limit p ≡ false)
      × (bitmap_test b p ≡ 0)
      × AllUsed lo p

  AllUsed-append : (lo mid hi : ℕ) → AllUsed lo mid → AllUsed mid hi → AllUsed lo hi
  AllUsed-append lo mid hi u v q h k s e = elim (lt_cases q mid) [
    | inl l ↦ u q h l s e
    | inr g ↦ v q g k s e
  ]

  Finds-append :
      (lo mid hi : ℕ) (r : Option ℕ) → lo ≤ mid → AllUsed lo mid → Finds mid hi r → Finds lo hi r
  Finds-append lo mid hi none h u f = AllUsed-append lo mid hi u f
  Finds-append lo mid hi (some p) h u f =
      (omega arith, omega arith, f.2, f.3, f.4, AllUsed-append lo mid p u f.5)

  Finds-widen : (lo mid hi p : ℕ) → mid ≤ hi → Finds lo mid (some p) → Finds lo hi (some p)
  Finds-widen lo mid hi p h f = (f.0, omega arith, f.2, f.3, f.4, f.5)

-- Past the limit there is nothing more to consider.
pub past_mono : (limit : Option ℕ) (p q : ℕ) → past limit p ≡ true → p ≤ q → past limit q ≡ true
past_mono none p q h k = h
past_mono (some m) p q h k = ground arith

module _ (b : Array ℕ) (start : ℕ) (limit : Option ℕ) where
  AllUsed-past : (lo hi : ℕ) → past limit lo ≡ true → AllUsed b start limit lo hi
  AllUsed-past lo hi e q h k s f = ground (arith, past_mono limit lo q e h)

  AllUsed-one :
      (lo : ℕ)
      → (start ≤ lo → past limit lo ≡ false → bitmap_test b lo ≡ 1)
      → AllUsed b start limit lo (lo + 1)
  AllUsed-one lo f q h k s e = let p : q ≡ lo = omega arith in rw p (f (rw p at s) (rw p at e))

  -- A page that the loop passes over, then what the rest of the loop finds.
  Finds-skip :
      (lo hi : ℕ) (r : Option ℕ)
      → (start ≤ lo → past limit lo ≡ false → bitmap_test b lo ≡ 1)
      → Finds b start limit (lo + 1) hi r
      → Finds b start limit lo hi r
  Finds-skip lo hi r f =
      Finds-append b start limit lo (lo + 1) hi r (omega arith) (AllUsed-one lo f)

  -- The bit of page `32 * w + bit`.
  word_bit : (w bit lo : ℕ) → lo ≡ w * 32 + bit → bit < 32 → bitmap_test b lo ≡ test_bit (b w) bit
  unfolding bitmap_test
  word_bit w bit lo p h =
      ap₂ (λ x i. test_bit (b x) i) {y = w} {v = bit} (omega arith) (omega arith)

  -- One round of the loop over the bits, whatever its later rounds give.
  Finds-step :
      (w bit lo hi : ℕ) (rest : Option ℕ)
      → lo ≡ w * 32 + bit
      → lo < hi
      → bit < 32
      → Finds b start limit (lo + 1) hi rest
      → Finds b start limit lo hi (
          if ltb lo start
          then rest
          else if past limit lo
          then none
          else if test_bit (b w) bit == 0
          then some lo
          else rest)
  Finds-step w bit lo hi rest p k h f = elim (Bool-cases (ltb lo start)) [
    | inl early ↦ rw early (Finds-skip lo hi rest (λ s x. absurd (ground arith)) f)
    | inr late ↦ rw late (elim (Bool-cases (past limit lo)) [
      | inl out ↦ rw out (AllUsed-past lo hi out)
      | inr within ↦ rw within (elim (Bool-cases (test_bit (b w) bit == 0)) [
        | inl free ↦ rw free (
          omega arith,
          k,
          ground arith,
          within,
          ground (arith, here),
          λ q u v s x. absurd (omega arith),
        )
        | inr used ↦
            rw used (Finds-skip lo hi rest (λ s x. ground (arith, here, bitmap_test-le-one b lo)) f)
      ])
    ])
  ]
    where
      here : bitmap_test b lo ≡ test_bit (b w) bit
      here = word_bit w bit lo p h

  find_bit-Finds :
      (w n bit lo hi : ℕ)
      → lo ≡ w * 32 + bit
      → hi ≡ lo + n
      → bit + n ≤ 32
      → Finds b start limit lo hi (find_bit (b w) w start limit n bit)
  unfolding find_bit
  find_bit-Finds w zero bit lo hi p e h = λ q k l s x. absurd (omega arith)
  find_bit-Finds w (suc n) bit lo hi p e h = rw (sym p) (
      Finds-step w bit lo hi _ p (omega arith) (omega arith)
        (find_bit-Finds w n (bit + 1) (lo + 1) hi (omega arith) (omega arith) (omega arith)))

  -- What one word gives, then what the later words give.
  Finds-orelse :
      (lo mid hi : ℕ) (r rest : Option ℕ)
      → lo ≤ mid
      → mid ≤ hi
      → Finds b start limit lo mid r
      → Finds b start limit mid hi rest
      → Finds b start limit lo hi (elim r [ some page ↦ some page | none ↦ rest ])
  Finds-orelse lo mid hi none rest h k f g = Finds-append b start limit lo mid hi rest h f g
  Finds-orelse lo mid hi (some p) rest h k f g = Finds-widen b start limit lo mid hi p k f

  full-AllUsed : (w lo : ℕ) → lo ≡ w * 32 → b w ≡ full_word → AllUsed b start limit lo (lo + 32)
  full-AllUsed w lo p e q k l s x =
      let at : q ≡ w * 32 + (q - lo) = omega arith in
      rw at (bitmap_test-full b w (q - lo) e (omega arith))

  pub find_word-Finds :
      (n w lo hi : ℕ)
      → lo ≡ w * 32
      → hi ≡ lo + n * 32
      → Finds b start limit lo hi (find_word b start limit n w)
  unfolding find_word
  find_word-Finds zero w lo hi p e = λ q k l s x. absurd (omega arith)
  find_word-Finds (suc n) w lo hi p e = elim (Bool-cases (b w == full_word)) [
    | inl full ↦ rw full (
        Finds-append b start limit lo (lo + 32) hi _ (omega arith)
          (full-AllUsed w lo p (ground arith))
          (find_word-Finds n (w + 1) (lo + 32) hi (omega arith) (omega arith)))
    | inr other ↦ rw other (
        Finds-orelse lo (lo + 32) hi _ _ (omega arith) (omega arith)
          (find_bit-Finds w 32 0 lo (lo + 32) (omega arith) refl (omega arith))
          (find_word-Finds n (w + 1) (lo + 32) hi (omega arith) (omega arith)))
  ]
