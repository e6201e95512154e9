-- ===== src/Paging/Isolation.antt =====
-- Address spaces are kept apart: what map_page of mm/paging.c leaves alone in other directories.
use coffee_os_aurora_refresh.Base.{
  ℕ, ◌%◌, ◌≡◌, ◌≢◌, inl, inr, refl, sym, ◌∙◌, ap, Bool, true, not, ◌||◌, Option, none, some, Array,
  ◌==◌, if_intro, Bool-cases, arith,
}
use coffee_os_aurora_refresh.Base.Bits.{test_bit}
use coffee_os_aurora_refresh.Pmm.Bitmap.{bitmap_test}
use coffee_os_aurora_refresh.Paging.Defs.{
  Paging, frame_of, pde_index, pte_index, present, recursive_mapped, set_pte, enter_page, map_page,
}
use coffee_os_aurora_refresh.Paging.Mapping.{
  directory, entry, Sound, Walked, WalkOutcome, walk_get_pte-Outcome,
}
use coffee_os_aurora_refresh.Paging.Translation.{translation}

-- The frame q is in use, and neither the current directory nor its table for vaddr.
pub record Foreign (s : Paging) (vaddr q : ℕ) : Type 0 where
  pub in_use : bitmap_test s.pmm.bitmap q ≡ 1
  pub not_directory : q ≢ directory s
  pub not_table :
      present (entry s (pde_index vaddr)) ≡ true → frame_of (entry s (pde_index vaddr)) ≢ q

Foreign-apart :
    (s t : Paging) (vaddr table q : ℕ) → Walked s t vaddr table → Foreign s vaddr q → q ≢ table
Foreign-apart s t vaddr table q w f e = elim w.origin [
  | inl (p, g) ↦ f.not_table p (g ∙ sym e)
  | inr g ↦ let used : bitmap_test s.pmm.bitmap table ≡ 1 = rw (sym e) f.in_use in absurd cc
]

-- A foreign frame is not written, whatever the walk finds.
enter_page_keeps :
    (s : Paging) (vaddr e q : ℕ) (r : Option ℕ × Paging)
    → WalkOutcome s vaddr r
    → Foreign s vaddr q
    → (enter_page r vaddr e).1.frames q ≡ s.frames q
unfolding enter_page set_pte
enter_page_keeps s vaddr e q (none, t) w f = ap (λ (g : Array (Array ℕ)). g q) w.0
enter_page_keeps s vaddr e q (some table, t) w f =
    if_intro (λ (r : Bool × Paging). r.1.frames q ≡ s.frames q)
      (present (t.frames table (pte_index vaddr))) _ _ (λ h. kept)
      (λ h. ground (arith, Foreign-apart s t vaddr table q w f, kept))
  where
    kept : t.frames q ≡ s.frames q
    kept = w.frames_kept q f.not_directory (Foreign-apart s t vaddr table q w f)

map_page_keeps :
    (s : Paging) (vaddr paddr flags q : ℕ)
    → Sound s
    → pde_index vaddr ≢ 1023
    → Foreign s vaddr q
    → (map_page s vaddr paddr flags).1.frames q ≡ s.frames q
unfolding map_page
map_page_keeps s vaddr paddr flags q v k f =
    if_intro (λ (r : Bool × Paging). r.1.frames q ≡ s.frames q)
      (test_bit flags 3 == 1
        || not (vaddr % 4096 == 0)
        || not (paddr % 4096 == 0)
        || test_bit flags 0 == 0
        || not (recursive_mapped s))
      _ _ (λ h. refl)
      (λ h. enter_page_keeps s vaddr _ q _ (walk_get_pte-Outcome s vaddr flags v k) f)

-- A translation depends on the directory and on the table that it names.
translation-eq :
    (f g : Array (Array ℕ)) (d vaddr : ℕ)
    → g d ≡ f d
    → (present (f d (pde_index vaddr)) ≡ true
        → g (frame_of (f d (pde_index vaddr))) ≡ f (frame_of (f d (pde_index vaddr))))
    → translation g d vaddr ≡ translation f d vaddr
unfolding translation
translation-eq f g d vaddr e h = elim (Bool-cases (present (f d (pde_index vaddr)))) [
  | inl p ↦ rw (e, p, h p) refl
  | inr p ↦ rw (e, p) refl
]

-- In a sound state a call of map_page for a page outside the recursive slot, whether it succeeds
-- or not, changes no translation under another directory, if that directory and its table for the
-- address are in use and are neither the current directory nor its table for the page.
pub map_page-isolates :
    (s : Paging) (vaddr paddr flags d other : ℕ)
    → Sound s
    → pde_index vaddr ≢ 1023
    → Foreign s vaddr d
    → (present (s.frames d (pde_index other)) ≡ true
        → Foreign s vaddr (frame_of (s.frames d (pde_index other))))
    → translation (map_page s vaddr paddr flags).1.frames d other ≡ translation s.frames d other
map_page-isolates s vaddr paddr flags d other v k f g =
    translation-eq s.frames _ d other (map_page_keeps s vaddr paddr flags d v k f)
      (λ p. map_page_keeps s vaddr paddr flags _ v k (g p))
