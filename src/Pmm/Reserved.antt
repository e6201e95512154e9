-- ===== src/Pmm/Reserved.antt =====
-- Frames that mem/pmm.c keeps out of circulation: in use, and held by no reference.
use coffee_os_aurora_refresh.Base.{ℕ, ◌/◌, ◌≢◌, inl, inr, arith, List, [], ◌∷◌}
use coffee_os_aurora_refresh.Pmm.Bitmap.{page_size, bitmap_test-set, bitmap_test-clear}
use coffee_os_aurora_refresh.Pmm.State.{Pmm}
use coffee_os_aurora_refresh.Pmm.Alloc.{take_page}
use coffee_os_aurora_refresh.Pmm.Refs.{
  release_page, pmm_free_page, pmm_mark_used, pmm_ref_inc, pmm_ref_dec,
}
use coffee_os_aurora_refresh.Pmm.Invariant.{Inv, LowestFree}
use coffee_os_aurora_refresh.Pmm.Lowest.{
  Outcome, pmm_alloc_page-Outcome, pmm_alloc_page_below-Outcome,
}
use coffee_os_aurora_refresh.Pmm.Sharing.{Held}
use coffee_os_aurora_refresh.Pmm.Steps.{
  Call, alloc_page, alloc_page_below, free_page, mark_used, ref_inc, ref_dec, step, run, step-Inv,
}

-- A page in use that no reference holds, as the kernel image and the memory map are after
-- initialisation.
abbrev pub Reserved : Pmm → ℕ → Type 0
Reserved s p = Held s p 0

-- The calls that do not add a reference to page p.
abbrev pub Spares : ℕ → Call → Type 0
Spares p (mark_used addr) = addr / page_size ≢ p
Spares p (ref_inc addr) = addr / page_size ≢ p
Spares p _ = Unit

abbrev pub AllSpare : ℕ → List Call → Type 0
AllSpare p [] = Unit
AllSpare p (c ∷ cs) = Spares p c × AllSpare p cs

take_page-Reserved :
    (s : Pmm) (p q : ℕ) → LowestFree s q → Reserved s p → Reserved (take_page s q) p
unfolding take_page
take_page-Reserved s p q f v = ground (arith, bitmap_test-set s.bitmap q p)

Outcome-Reserved :
    (s : Pmm) (p bound : ℕ) (r : ℕ × Pmm) → Reserved s p → Outcome s bound r → Reserved r.1 p
Outcome-Reserved s p bound r v (inl (e, _)) = rw e v
Outcome-Reserved s p bound r v (inr (q, f, _, e)) = rw e (take_page-Reserved s p q f v)

free_page-Reserved : (s : Pmm) (p addr : ℕ) → Reserved s p → Reserved (pmm_free_page s addr) p
unfolding pmm_free_page release_page
free_page-Reserved s p addr r = ground (arith, bitmap_test-clear s.bitmap (addr / page_size) p)

ref_dec-Reserved : (s : Pmm) (p addr : ℕ) → Reserved s p → Reserved (pmm_ref_dec s addr) p
unfolding pmm_ref_dec release_page
ref_dec-Reserved s p addr r = ground (arith, bitmap_test-clear s.bitmap (addr / page_size) p)

ref_inc-Reserved :
    (s : Pmm) (p addr : ℕ) → addr / page_size ≢ p → Reserved s p → Reserved (pmm_ref_inc s addr) p
unfolding pmm_ref_inc
ref_inc-Reserved s p addr h r = ground arith

mark_used-Reserved :
    (s : Pmm) (p addr : ℕ) → addr / page_size ≢ p → Reserved s p → Reserved (pmm_mark_used s addr) p
unfolding pmm_mark_used
mark_used-Reserved s p addr h r = ground (arith, bitmap_test-set s.bitmap (addr / page_size) p)

step-Reserved :
    (s : Pmm) (p : ℕ) (c : Call) → Inv s → Spares p c → Reserved s p → Reserved (step s c) p
unfolding step
step-Reserved s p alloc_page v k r = Outcome-Reserved s p _ _ r (pmm_alloc_page-Outcome s v)
step-Reserved s p (alloc_page_below m) v k r =
    Outcome-Reserved s p _ _ r (pmm_alloc_page_below-Outcome s m v)
step-Reserved s p (free_page addr) v k r = free_page-Reserved s p addr r
step-Reserved s p (mark_used addr) v k r = mark_used-Reserved s p addr k r
step-Reserved s p (ref_inc addr) v k r = ref_inc-Reserved s p addr k r
step-Reserved s p (ref_dec addr) v k r = ref_dec-Reserved s p addr r

-- Reserved frames are never handed out or freed: no sequence of allocations and releases, and of
-- reservations and references of other frames, changes one.
pub run-Reserved :
    (s : Pmm) (p : ℕ) (cs : List Call)
    → Inv s
    → AllSpare p cs
    → Reserved s p
    → Reserved (run s cs) p
unfolding run
run-Reserved s p [] v k r = r
run-Reserved s p (c ∷ cs) v k r =
    run-Reserved (step s c) p cs (step-Inv s c v) k.1 (step-Reserved s p c v k.0 r)
