-- ===== src/Pmm/Lowest.antt =====
-- The allocators of mem/pmm.c give out the lowest free page.
use coffee_os_aurora_refresh.Base.{
  ℕ, ◌+◌, ◌-◌, ◌*◌, ◌/◌, ◌≤◌, ◌<◌, ◌≡◌, ◌==◌, ◌⊎◌, inl, inr, refl, arith, false, Option, none, some,
  Bool-cases, lt_cases, leb, min, u32, if◌then◌else◌,
}
use native.Mathlib.Nat.{le_refl}
use coffee_os_aurora_refresh.Pmm.Bitmap.{page_size, bitmap_words, bitmap_test}
use coffee_os_aurora_refresh.Pmm.State.{Pmm}
use coffee_os_aurora_refresh.Pmm.Alloc.{
  past, find_word, take_page, finish_alloc, pmm_alloc_page, pmm_alloc_page_below,
}
use coffee_os_aurora_refresh.Pmm.Scan.{AllUsed, Finds, past_mono, find_word-Finds}
use coffee_os_aurora_refresh.Pmm.Invariant.{Inv, LowestFree}

-- What an allocator limited to the pages below `bound` may return: the address of the lowest free
-- page and the state with that page taken, or 0 and the state unchanged if there is none.
abbrev pub Outcome : Pmm → ℕ → ℕ × Pmm → Type 0
Outcome s bound r =
    ((r ≡ (0, s)) × ((q : ℕ) → q < bound → q < s.total_pages → bitmap_test s.bitmap q ≡ 1))
    ⊎ ((p : ℕ) × LowestFree s p × (p < bound) × (r ≡ (p * page_size, take_page s p)))

-- A pass that starts at or below the hint finds the lowest free page.
found-LowestFree :
    (s : Pmm) (start : ℕ) (limit : Option ℕ) (lo hi p : ℕ)
    → Inv s
    → lo ≤ start
    → start ≤ s.first_free_hint
    → hi ≤ 1048576
    → Finds s.bitmap start limit lo hi (some p)
    → LowestFree s p
found-LowestFree s start limit lo hi p v l h m f = (managed, f.4, below)
  where
    managed : p < s.total_pages
    managed = ground (arith, v.outside p)

    below : (q : ℕ) → q < p → bitmap_test s.bitmap q ≡ 1
    below q k = elim (lt_cases q s.first_free_hint) [
      | inl old ↦ v.below_hint q old
      | inr new ↦ elim (Bool-cases (past limit q)) [
        | inl out ↦ absurd (ground (arith, past_mono limit q p out))
        | inr within ↦ f.5 q (omega arith) k (omega arith) within
      ]
    ]

-- A pass that finds nothing has seen every page up to its end in use.
missed-used :
    (s : Pmm) (start : ℕ) (limit : Option ℕ) (lo hi : ℕ)
    → Inv s
    → lo ≤ start
    → start ≤ s.first_free_hint
    → AllUsed s.bitmap start limit lo hi
    → (q : ℕ) → q < hi
    → past limit q ≡ false
    → bitmap_test s.bitmap q ≡ 1
missed-used s start limit lo hi v l h u q k e = elim (lt_cases q s.first_free_hint) [
  | inl old ↦ v.below_hint q old
  | inr new ↦ u q (omega arith) k (omega arith) e
]

-- The two passes of an allocator, by what each finds and by what it does with the page.
passes-Outcome :
    (s : Pmm) (bound : ℕ) (finish : ℕ → ℕ × Pmm) (first second : Option ℕ)
    → ((p : ℕ) → LowestFree s p → finish p ≡ (p * page_size, take_page s p))
    → ((p : ℕ) → first ≡ some p → LowestFree s p × (p < bound))
    → ((p : ℕ) → second ≡ some p → LowestFree s p × (p < bound))
    → (first ≡ none → (q : ℕ) → q < bound → q < s.total_pages → bitmap_test s.bitmap q ≡ 1)
    → Outcome s bound (elim first [
      | some page ↦ finish page
      | none ↦ elim second [ some page ↦ finish page | none ↦ (0, s) ]
    ])
passes-Outcome s bound finish (some p) second e f g u =
    inr (p, (f p refl).0, (f p refl).1, e p (f p refl).0)
passes-Outcome s bound finish none (some p) e f g u =
    inr (p, (g p refl).0, (g p refl).1, e p (g p refl).0)
passes-Outcome s bound finish none none e f g u = inl (refl, u refl)

-- The outcome of a scan from the hint, or from 0.
module _ {s : Pmm} (v : Inv s) (start : ℕ) (low : start ≤ s.first_free_hint) where
  scan_found :
      (limit : Option ℕ) (n w p : ℕ)
      → w * 32 ≤ start
      → w * 32 + n * 32 ≤ 1048576
      → find_word s.bitmap start limit n w ≡ some p
      → LowestFree s p × (past limit p ≡ false)
  scan_found limit n w p h k e = (found-LowestFree s start limit _ _ p v h low k f, f.3)
    where
      f : Finds s.bitmap start limit (w * 32) (w * 32 + n * 32) (some p)
      f = rw e at (find_word-Finds s.bitmap start limit n w (w * 32) (w * 32 + n * 32) refl refl)

  scan_missed :
      (limit : Option ℕ) (n w : ℕ)
      → w * 32 ≤ start
      → find_word s.bitmap start limit n w ≡ none
      → (q : ℕ) → q < w * 32 + n * 32
      → past limit q ≡ false
      → bitmap_test s.bitmap q ≡ 1
  scan_missed limit n w h e = missed-used s start limit _ _ v h low u
    where
      u : Finds s.bitmap start limit (w * 32) (w * 32 + n * 32) none
      u = rw e at (find_word-Finds s.bitmap start limit n w (w * 32) (w * 32 + n * 32) refl refl)

-- pmm_alloc_page returns the lowest free page and takes it, or fails when no page is free.
pub pmm_alloc_page-Outcome : (s : Pmm) → Inv s → Outcome s s.total_pages (pmm_alloc_page s)
unfolding pmm_alloc_page finish_alloc
pmm_alloc_page-Outcome s v =
    passes-Outcome s s.total_pages (finish_alloc s) _ _ taken first second missed
  where
    open s use {bitmap, total_pages, first_free_hint}

    taken : (p : ℕ) → LowestFree s p → finish_alloc s p ≡ (p * page_size, take_page s p)
    taken p f = ground (arith, v.total_max)

    first :
        (p : ℕ)
        → find_word bitmap first_free_hint none
            (bitmap_words - first_free_hint / 32)
            (first_free_hint / 32)
          ≡ some p
        → LowestFree s p × (p < total_pages)
    first p e =
        let f =
          scan_found v first_free_hint (le_refl _) none _ _ p (omega arith) (omega (arith, v)) e in
        (f.0, f.0.0)

    second :
        (p : ℕ)
        → find_word bitmap 0 none (first_free_hint / 32) 0 ≡ some p
        → LowestFree s p × (p < total_pages)
    second p e =
        let f = scan_found v 0 (omega arith) none _ _ p (omega arith) (omega (arith, v)) e in
        (f.0, f.0.0)

    missed :
        find_word bitmap first_free_hint none
            (bitmap_words - first_free_hint / 32)
            (first_free_hint / 32)
          ≡ none
        → (q : ℕ) → q < total_pages
        → q < total_pages
        → bitmap_test bitmap q ≡ 1
    missed e q h k =
        scan_missed v first_free_hint (le_refl _) none _ _ (omega arith) e q (omega (arith, v)) refl

-- pmm_alloc_page_below does the same among the pages that lie wholly below max_phys.
pub pmm_alloc_page_below-Outcome :
    (s : Pmm) (max_phys : ℕ)
    → Inv s
    → Outcome s (max_phys / page_size) (pmm_alloc_page_below s max_phys)
unfolding pmm_alloc_page_below
pmm_alloc_page_below-Outcome s max_phys v = elim (Bool-cases (max_phys / page_size == 0)) [
  | inl nothing ↦ rw nothing (inl (refl, λ q h k. absurd (ground arith)))
  | inr pages ↦ rw pages (
      passes-Outcome s bound (λ p. (u32 (p * page_size), take_page s p)) _ _ taken first second
        missed)
]
  where
    open s use {bitmap, total_pages, first_free_hint}

    bound : ℕ
    bound = max_phys / page_size

    words : ℕ
    words = min ((bound + 31) / 32) bitmap_words

    start : ℕ
    start = if leb bound first_free_hint then 0 else first_free_hint

    start-le : start ≤ first_free_hint
    start-le = ground arith

    start-words : start / 32 ≤ words
    start-words = ground (arith, v.hint_total, v.total_max)

    taken :
        (p : ℕ)
        → LowestFree s p
        → ◌≡◌ {A = ℕ × Pmm} (u32 (p * page_size), take_page s p) (p * page_size, take_page s p)
    taken p f = ground (arith, v.total_max)

    first :
        (p : ℕ)
        → find_word bitmap start (some bound) (words - start / 32) (start / 32) ≡ some p
        → LowestFree s p × (p < bound)
    first p e =
        let f =
          scan_found v start start-le (some bound) _ _ p (omega arith) (omega (arith, start-words))
            e in
        (f.0, ground arith)

    second :
        (p : ℕ)
        → find_word bitmap 0 (some bound) (min (start / 32) words) 0 ≡ some p
        → LowestFree s p × (p < bound)
    second p e =
        let f = scan_found v 0 (omega arith) (some bound) _ _ p (omega arith) (omega arith) e in
        (f.0, ground arith)

    missed :
        find_word bitmap start (some bound) (words - start / 32) (start / 32) ≡ none
        → (q : ℕ) → q < bound
        → q < total_pages
        → bitmap_test bitmap q ≡ 1
    missed e q h k =
        scan_missed v start start-le (some bound) _ _ (omega arith) e q
          (omega (arith, start-words, v.total_max)) (ground arith)
