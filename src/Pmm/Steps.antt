-- ===== src/Pmm/Steps.antt =====
-- Every operation of mem/pmm.c keeps the invariant, so it holds after any sequence of calls.
use coffee_os_aurora_refresh.Base.{
  ℕ, ◌+◌, ◌/◌, ◌≤◌, ◌<◌, ◌≡◌, ◌==◌, ◌≢◌, inl, inr, refl, arith, true, Bool-cases, if_intro, List,
  [], ◌∷◌, leb, ltb, u32, if◌then◌else◌, update,
}
use coffee_os_aurora_refresh.Pmm.Bitmap.{
  page_size, bitmap_test, bitmap_set, bitmap_test-set, bitmap_test-clear, bitmap_test-le-one,
}
use coffee_os_aurora_refresh.Pmm.State.{Pmm}
use coffee_os_aurora_refresh.Pmm.Alloc.{take_page, pmm_alloc_page, pmm_alloc_page_below}
use coffee_os_aurora_refresh.Pmm.Refs.{
  release_page, pmm_free_page, pmm_mark_used, pmm_ref_inc, pmm_ref_dec,
}
use coffee_os_aurora_refresh.Pmm.Count.{count_used-le, count_used-set, count_used-clear}
use coffee_os_aurora_refresh.Pmm.Invariant.{Inv, LowestFree}
use coffee_os_aurora_refresh.Pmm.Lowest.{
  Outcome, pmm_alloc_page-Outcome, pmm_alloc_page_below-Outcome,
}

take_page-Inv : (s : Pmm) (p : ℕ) → Inv s → LowestFree s p → Inv (take_page s p)
unfolding take_page
take_page-Inv s p v f = record {
  total_max = v.total_max;
  outside = λ q h k. ground (arith, bitmap_test-set s.bitmap p q, v.outside q);
  hint_total = omega arith;
  below_hint = λ q h. ground (arith, bitmap_test-set s.bitmap p q, f.2 q);
  counted = ground (
    arith,
    v.counted,
    v.total_max,
    count_used-set s.bitmap p s.total_pages,
    count_used-le s.bitmap s.total_pages,
  );
  unreferenced = λ q h. ground (arith, bitmap_test-set s.bitmap p q, v.unreferenced q);
  ref_max = λ q. ground (arith, v.ref_max q);
}

-- A page in use is one that is set in the bitmap.
used_of_ne : (s : Pmm) (p : ℕ) → bitmap_test s.bitmap p ≢ 0 → bitmap_test s.bitmap p ≡ 1
used_of_ne s p h = omega (arith, bitmap_test-le-one s.bitmap p)

release_page-Inv :
    (s : Pmm) (p : ℕ)
    → Inv s
    → p < s.total_pages
    → bitmap_test s.bitmap p ≡ 1
    → Inv (release_page s p)
unfolding release_page
release_page-Inv s p v h e = record {
  total_max = v.total_max;
  outside = λ q k l. ground (arith, bitmap_test-clear s.bitmap p q, v.outside q);
  hint_total = ground (arith, v.hint_total);
  below_hint = λ q k. ground (arith, bitmap_test-clear s.bitmap p q, v.below_hint q);
  counted = ground (
    arith,
    v.counted,
    v.total_max,
    count_used-clear s.bitmap p s.total_pages e,
    count_used-le s.bitmap s.total_pages,
  );
  unreferenced = λ q k. ground (arith, bitmap_test-clear s.bitmap p q, v.unreferenced q);
  ref_max = λ q. ground (arith, v.ref_max q);
}

-- A new count for a page in use.
recount-Inv :
    (s : Pmm) (p n : ℕ)
    → Inv s
    → bitmap_test s.bitmap p ≡ 1
    → n ≤ 0xffff
    → Inv (record s { refcount = update s.refcount p n })
recount-Inv s p n v e h = record {
  total_max = v.total_max;
  outside = v.outside;
  hint_total = v.hint_total;
  below_hint = v.below_hint;
  counted = v.counted;
  unreferenced = λ q k. ground (arith, v.unreferenced q);
  ref_max = λ q. ground (arith, v.ref_max q);
}

-- The operations on one frame act on a page that is managed and in use.
module _ (s : Pmm) (p : ℕ) (v : Inv s) where
  in_use-Inv :
      (t : Pmm)
      → (p < s.total_pages → bitmap_test s.bitmap p ≡ 1 → Inv t)
      → Inv (if leb s.total_pages p then s else if bitmap_test s.bitmap p == 0 then s else t)
  in_use-Inv t f =
      if_intro Inv (leb s.total_pages p) s _ (λ _. v)
        λ h.
          if_intro Inv (bitmap_test s.bitmap p == 0) s t (λ _. v)
            λ k. f (ground arith) (used_of_ne s p (ground arith))

pmm_free_page-Inv : (s : Pmm) (addr : ℕ) → Inv s → Inv (pmm_free_page s addr)
unfolding pmm_free_page
pmm_free_page-Inv s addr v =
    let p = addr / page_size in
    in_use-Inv s p v _ λ h e.
      if_intro Inv (ltb 1 (s.refcount p)) _ _
        (λ _. recount-Inv s p _ v e (omega (arith, v.ref_max p)))
        λ _. if_intro Inv (s.refcount p == 1) _ _ (λ _. release_page-Inv s p v h e) (λ _. v)

pmm_ref_dec-Inv : (s : Pmm) (addr : ℕ) → Inv s → Inv (pmm_ref_dec s addr)
unfolding pmm_ref_dec
pmm_ref_dec-Inv s addr v =
    let p = addr / page_size in
    in_use-Inv s p v _ λ h e.
      if_intro Inv (s.refcount p == 0) _ _ (λ _. v)
        λ _.
          if_intro Inv (ltb 1 (s.refcount p)) _ _
            (λ _. recount-Inv s p _ v e (omega (arith, v.ref_max p)))
            λ _. release_page-Inv s p v h e

pmm_ref_inc-Inv : (s : Pmm) (addr : ℕ) → Inv s → Inv (pmm_ref_inc s addr)
unfolding pmm_ref_inc
pmm_ref_inc-Inv s addr v =
    let p = addr / page_size in
    in_use-Inv s p v _ λ h e.
      if_intro Inv (s.refcount p == 0) _ _ (λ _. recount-Inv s p 1 v e (omega arith))
        λ _.
          if_intro Inv (s.refcount p == 0xffff) _ _ (λ _. v)
            λ k. recount-Inv s p _ v e (ground (arith, v.ref_max p))

-- Reserving a page that is free, and one that is in use.
mark_free-Inv :
    (s : Pmm) (p h : ℕ)
    → Inv s
    → p < s.total_pages
    → bitmap_test s.bitmap p ≡ 0
    → h ≡ (if p == s.first_free_hint then p + 1 else s.first_free_hint)
    → Inv (record s {
      bitmap = bitmap_set s.bitmap p;
      used_pages = u32 (s.used_pages + 1);
      refcount = update s.refcount p 1;
      first_free_hint = h;
    })
mark_free-Inv s p h v m e eh = record {
  total_max = v.total_max;
  outside = λ q k l. ground (arith, bitmap_test-set s.bitmap p q, v.outside q);
  hint_total = ground (arith, v.hint_total);
  below_hint = λ q k. ground (arith, bitmap_test-set s.bitmap p q, v.below_hint q);
  counted = ground (
    arith,
    v.counted,
    v.total_max,
    count_used-set s.bitmap p s.total_pages e,
    count_used-le s.bitmap s.total_pages,
  );
  unreferenced = λ q k. ground (arith, bitmap_test-set s.bitmap p q, v.unreferenced q);
  ref_max = λ q. ground (arith, v.ref_max q);
}

hint-Inv :
    (s : Pmm) (p h : ℕ)
    → Inv s
    → p < s.total_pages
    → bitmap_test s.bitmap p ≡ 1
    → h ≡ (if p == s.first_free_hint then p + 1 else s.first_free_hint)
    → Inv (record s { first_free_hint = h })
hint-Inv s p h v m e eh = record {
  total_max = v.total_max;
  outside = v.outside;
  hint_total = ground (arith, v.hint_total);
  below_hint = λ q k. ground (arith, v.below_hint q);
  counted = v.counted;
  unreferenced = v.unreferenced;
  ref_max = v.ref_max;
}

pmm_mark_used-Inv : (s : Pmm) (addr : ℕ) → Inv s → Inv (pmm_mark_used s addr)
unfolding pmm_mark_used
pmm_mark_used-Inv s addr v =
    let p = addr / page_size in
    if_intro Inv (leb s.total_pages p) _ _ (λ _. v)
      λ h. elim (Bool-cases (bitmap_test s.bitmap p == 0)) [
        | inl free ↦
            rw (free, zero_count (ground arith))
              (mark_free-Inv s p _ v (ground arith) (ground arith) refl)
        | inr busy ↦ rw busy (elim (Bool-cases (s.refcount p == 0)) [
          | inl none_yet ↦ rw none_yet (
              hint-Inv (record s { refcount = update s.refcount p 1 }) p _
                (recount-Inv s p 1 v (used_of_ne s p (ground arith)) (omega arith)) (ground arith)
                (used_of_ne s p (ground arith)) refl)
          | inr counted ↦
              rw counted (hint-Inv s p _ v (ground arith) (used_of_ne s p (ground arith)) refl)
        ])
      ]
  where
    zero_count :
        bitmap_test s.bitmap (addr / page_size) ≡ 0 → (s.refcount (addr / page_size) == 0) ≡ true
    zero_count e = ground (arith, v.unreferenced (addr / page_size) e)

Outcome-Inv : (s : Pmm) (bound : ℕ) (r : ℕ × Pmm) → Inv s → Outcome s bound r → Inv r.1
Outcome-Inv s bound r v (inl (e, _)) = rw e v
Outcome-Inv s bound r v (inr (p, f, _, e)) = rw e (take_page-Inv s p v f)

-- The calls that the rest of the kernel makes of the manager.
pub data Call : Type 0 where
  alloc_page : Call
  alloc_page_below : ℕ → Call
  free_page : ℕ → Call
  mark_used : ℕ → Call
  ref_inc : ℕ → Call
  ref_dec : ℕ → Call

unfoldable pub step : Pmm → Call → Pmm
step s alloc_page = (pmm_alloc_page s).1
step s (alloc_page_below max_phys) = (pmm_alloc_page_below s max_phys).1
step s (free_page addr) = pmm_free_page s addr
step s (mark_used addr) = pmm_mark_used s addr
step s (ref_inc addr) = pmm_ref_inc s addr
step s (ref_dec addr) = pmm_ref_dec s addr

unfoldable pub run : Pmm → List Call → Pmm
run s [] = s
run s (c ∷ cs) = run (step s c) cs

pub step-Inv : (s : Pmm) (c : Call) → Inv s → Inv (step s c)
unfolding step
step-Inv s alloc_page v = Outcome-Inv s _ _ v (pmm_alloc_page-Outcome s v)
step-Inv s (alloc_page_below m) v = Outcome-Inv s _ _ v (pmm_alloc_page_below-Outcome s m v)
step-Inv s (free_page addr) v = pmm_free_page-Inv s addr v
step-Inv s (mark_used addr) v = pmm_mark_used-Inv s addr v
step-Inv s (ref_inc addr) v = pmm_ref_inc-Inv s addr v
step-Inv s (ref_dec addr) v = pmm_ref_dec-Inv s addr v

-- Any sequence of allocations, releases, reservations and reference-count changes keeps the
-- invariant: used_pages stays the number of set bits, the hint a bound below every free page, the
-- counts of free pages 0, and no page outside the managed memory becomes free.
pub run-Inv : (s : Pmm) (cs : List Call) → Inv s → Inv (run s cs)
unfolding run
run-Inv s [] v = v
run-Inv s (c ∷ cs) v = run-Inv (step s c) cs (step-Inv s c v)
