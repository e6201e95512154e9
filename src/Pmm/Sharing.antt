-- ===== src/Pmm/Sharing.antt =====
-- Frames handed out, shared and given back: the reference counts of mem/pmm.c.
use native.Mathlib.Nat.{le_refl}
use native.Mathlib.Numerals.{add-one}
use coffee_os_aurora_refresh.Base.{
  ℕ, zero, suc, ◌+◌, ◌-◌, ◌*◌, ◌/◌, ◌≤◌, ◌<◌, ◌≡◌, ◌≢◌, inl, inr, refl, ◌∙◌, arith,
}
use coffee_os_aurora_refresh.Pmm.Bitmap.{
  page_size, bitmap_set, bitmap_test, bitmap_test-set, bitmap_test-clear,
}
use coffee_os_aurora_refresh.Pmm.State.{Pmm}
use coffee_os_aurora_refresh.Pmm.Alloc.{take_page, pmm_alloc_page}
use coffee_os_aurora_refresh.Pmm.Refs.{release_page, pmm_free_page, pmm_ref_inc, pmm_ref_dec}
use coffee_os_aurora_refresh.Pmm.Count.{count_used-le}
use coffee_os_aurora_refresh.Pmm.Invariant.{Inv, LowestFree}
use coffee_os_aurora_refresh.Pmm.Lowest.{pmm_alloc_page-Outcome}

-- A managed page in use with n references.
pub record Held (s : Pmm) (p n : ℕ) : Type 0 where
  pub managed : p < s.total_pages
  pub in_use : bitmap_test s.bitmap p ≡ 1
  pub refs : s.refcount p ≡ n

-- n calls of pmm_ref_inc, and of pmm_ref_dec, on one address.
unfoldable pub incs : ℕ → Pmm → ℕ → Pmm
incs zero s addr = s
incs (suc n) s addr = pmm_ref_inc (incs n s addr) addr

unfoldable pub decs : ℕ → Pmm → ℕ → Pmm
decs zero s addr = s
decs (suc n) s addr = pmm_ref_dec (decs n s addr) addr

ref_inc-Held :
    (s : Pmm) (addr n : ℕ)
    → n < 0xffff
    → Held s (addr / page_size) n
    → Held (pmm_ref_inc s addr) (addr / page_size) (n + 1)
unfolding pmm_ref_inc
ref_inc-Held s addr n h v = ground arith

ref_dec-Held :
    (s : Pmm) (addr n : ℕ)
    → 0 < n
    → Held s (addr / page_size) (n + 1)
    → Held (pmm_ref_dec s addr) (addr / page_size) n
unfolding pmm_ref_dec
ref_dec-Held s addr n h v = ground arith

ref_dec_last :
    (s : Pmm) (addr : ℕ)
    → Held s (addr / page_size) 1
    → (bitmap_test (pmm_ref_dec s addr).bitmap (addr / page_size) ≡ 0)
      × ((pmm_ref_dec s addr).refcount (addr / page_size) ≡ 0)
unfolding pmm_ref_dec release_page
ref_dec_last s addr v =
    ground (arith, bitmap_test-clear s.bitmap (addr / page_size) (addr / page_size))

Held-eq : {s : Pmm} {p : ℕ} (m n : ℕ) → m ≡ n → Held s p m → Held s p n
Held-eq m n e v = record { managed = v.managed; in_use = v.in_use; refs = v.refs ∙ e }

incs-Held :
    (n : ℕ) (s : Pmm) (addr : ℕ)
    → n < 0xffff
    → Held s (addr / page_size) 1
    → Held (incs n s addr) (addr / page_size) (n + 1)
unfolding incs
incs-Held zero s addr h v = v
incs-Held (suc n) s addr h v =
    Held-eq _ (suc n + 1) (omega arith)
      (ref_inc-Held (incs n s addr) addr (n + 1) (omega arith) (incs-Held n s addr (omega arith) v))

decs-Held :
    (k : ℕ) (s : Pmm) (addr n : ℕ)
    → k ≤ n
    → Held s (addr / page_size) (n + 1)
    → Held (decs k s addr) (addr / page_size) (n + 1 - k)
unfolding decs
decs-Held zero s addr n h v = Held-eq (n + 1) (n + 1 - 0) (omega arith) v
decs-Held (suc k) s addr n h v =
    ref_dec-Held (decs k s addr) addr (n + 1 - suc k) (omega arith)
      (Held-eq (n + 1 - k) _ (omega arith) (decs-Held k s addr n (omega arith) v))

-- A frame with one reference that is shared n more times stays in use until n + 1 references are
-- dropped: after k ≤ n of them it has n + 1 - k, and the last one frees it.
pub decs-incs :
    (n : ℕ) (s : Pmm) (addr : ℕ)
    → n < 0xffff
    → Held s (addr / page_size) 1
    → ((k : ℕ) → k ≤ n → Held (decs k (incs n s addr) addr) (addr / page_size) (n + 1 - k))
      × (bitmap_test (decs (n + 1) (incs n s addr) addr).bitmap (addr / page_size) ≡ 0)
unfolding decs
decs-incs n s addr h v =
    (λ k l. decs-Held k _ addr n l shared, rw (add-one n) (ref_dec_last _ addr last).0)
  where
    shared : Held (incs n s addr) (addr / page_size) (n + 1)
    shared = incs-Held n s addr h v

    last : Held (decs n (incs n s addr) addr) (addr / page_size) 1
    last = Held-eq (n + 1 - n) 1 (omega arith) (decs-Held n _ addr n (le_refl n) shared)

-- The state as clients observe it: the same pages free, the same counts.
pub record Same (s t : Pmm) : Type 0 where
  pub pages : s.total_pages ≡ t.total_pages
  pub used : s.used_pages ≡ t.used_pages
  pub bits : (q : ℕ) → bitmap_test s.bitmap q ≡ bitmap_test t.bitmap q
  pub counts : (q : ℕ) → s.refcount q ≡ t.refcount q

free_page-release :
    (s : Pmm) (p : ℕ) → Held s p 1 → pmm_free_page s (p * page_size) ≡ release_page s p
unfolding pmm_free_page
free_page-release s p v = rw at (ground arith)
  where
    at : p * page_size / page_size ≡ p
    at = omega arith

take_page-Held : (s : Pmm) (p : ℕ) → LowestFree s p → Held (take_page s p) p 1
unfolding take_page
take_page-Held s p f = record {
  managed = f.0;
  in_use = ground (arith, bitmap_test-set s.bitmap p p);
  refs = ground arith;
}

release-take-Same :
    (s : Pmm) → Inv s → (p : ℕ) → LowestFree s p → Same (release_page (take_page s p) p) s
unfolding take_page release_page
release-take-Same s v p f = record {
  pages = refl;
  used = omega (arith, v.counted, count_used-le s.bitmap s.total_pages, v.total_max);
  bits = λ q.
      ground (arith, bitmap_test-clear (bitmap_set s.bitmap p) p q, bitmap_test-set s.bitmap p q);
  counts = λ q. ground (arith, v.unreferenced p);
}

-- Freeing the frame just allocated gives back the state, but for the hint.
pub free_page-alloc_page-Same :
    (s : Pmm)
    → Inv s
    → (pmm_alloc_page s).0 ≢ 0
    → Same (pmm_free_page (pmm_alloc_page s).1 (pmm_alloc_page s).0) s
free_page-alloc_page-Same s v h = elim (pmm_alloc_page-Outcome s v) [
  | inl (e, _) ↦ absurd (h (rw e refl))
  | inr (p, f, _, e) ↦
      rw (e, free_page-release (take_page s p) p (take_page-Held s p f)) (release-take-Same s v p f)
]
