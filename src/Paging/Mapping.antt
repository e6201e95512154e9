-- ===== src/Paging/Mapping.antt =====
-- What a call of map_page changes (mm/paging.c): the walk to a page table, the entries it writes,
-- and the frames it leaves alone.
use coffee_os_aurora_refresh.Base.{
  ℕ, ◌+◌, ◌*◌, ◌≤◌, ◌≡◌, ◌≢◌, ◌⊎◌, inl, inr, refl, ◌∙◌, ap, Bool, true, false, Option, none, some,
  ◌==◌, if◌then◌else◌, Bool-cases, if_intro, arith,
}
use coffee_os_aurora_refresh.Base.Bits.{test_bit, test_bit-le-one}
use coffee_os_aurora_refresh.Pmm.Bitmap.{bitmap_test, page_size}
use coffee_os_aurora_refresh.Pmm.State.{Pmm}
use coffee_os_aurora_refresh.Pmm.Invariant.{Inv}
use coffee_os_aurora_refresh.Pmm.Lowest.{
  Outcome, pmm_alloc_page-Outcome, pmm_alloc_page_below-Outcome,
}
use coffee_os_aurora_refresh.Paging.Defs.{
  Paging, identity_limit, frame_of, page_base, pde_index, present, write_word, current_pde,
  alloc_table, install_table, walk_get_pte,
}

-- The frame of the current directory, and its entry i.
abbrev pub directory : Paging → ℕ
directory s = frame_of s.current_pd_phys

abbrev pub entry : Paging → ℕ → ℕ
entry s i = s.frames (directory s) i

-- The page allocator's invariant holds, page 0 and the directory's frame are in use, and no entry
-- but the recursive one takes the directory for a page table.
pub record Sound (s : Paging) : Type 0 where
  pub pmm_inv : Inv s.pmm
  pub zero_used : bitmap_test s.pmm.bitmap 0 ≡ 1
  pub directory_used : bitmap_test s.pmm.bitmap (directory s) ≡ 1
  pub tables_apart :
      (i : ℕ) → i ≢ 1023 → present (entry s i) ≡ true → frame_of (entry s i) ≢ directory s

-- alloc_table takes a free page, or there is none below the limit and no other.
abbrev pub Table : Pmm → ℕ × Pmm → Type 0
Table pmm r = (r.0 ≡ 0) ⊎ ((p : ℕ) × (r.0 ≡ p * 4096) × (bitmap_test pmm.bitmap p ≡ 0))

Outcome-Table : (pmm : Pmm) (bound : ℕ) (r : ℕ × Pmm) → Outcome pmm bound r → Table pmm r
Outcome-Table pmm bound r (inl (e, _)) = inl (ap (λ (x : ℕ × Pmm). x.0) e)
Outcome-Table pmm bound r (inr (p, f, _, e)) = inr (p, ap (λ (x : ℕ × Pmm). x.0) e, f.1)

pub alloc_table-Table :
    (pmm : Pmm) → Inv pmm → bitmap_test pmm.bitmap 0 ≡ 1 → Table pmm (alloc_table pmm)
unfolding alloc_table
alloc_table-Table pmm v zero_used = elim (pmm_alloc_page_below-Outcome pmm identity_limit v) [
  | inl (e, _) ↦ rw e (Outcome-Table pmm _ _ (pmm_alloc_page-Outcome pmm v))
  | inr (p, f, _, e) ↦ rw e (
      if_intro (Table pmm) (p * page_size == 0) _ _
        (λ z. absurd (free_nonzero p f.1 (ground arith))) (λ z. inr (p, refl, f.1)))
]
  where
    free_nonzero : (p : ℕ) → bitmap_test pmm.bitmap p ≡ 0 → p ≢ 0
    free_nonzero p free e = let taken : bitmap_test pmm.bitmap p ≡ 1 = rw e zero_used in absurd cc

-- The entry that install_table writes, and the user bit passed on to an entry.
new_entry :
    (p b : ℕ)
    → b ≤ 1
    → (present (page_base (p * 4096) + 3 + b * 4) ≡ true)
      × (frame_of (page_base (p * 4096) + 3 + b * 4) ≡ p)
unfolding test_bit
new_entry p b h = (ground arith, omega arith)

user_entry :
    (x : ℕ) → test_bit x 2 ≡ 0 → (present (x + 4) ≡ present x) × (frame_of (x + 4) ≡ frame_of x)
unfolding test_bit
user_entry x h = (ground arith, omega arith)

-- A walk from s that ends in t with the page table `table` for vaddr: only the directory's entry
-- for vaddr may be new, and only the table's frame besides; the table was there before, or its
-- frame was free.
pub record Walked (s t : Paging) (vaddr table : ℕ) : Type 0 where
  pub same_directory : t.current_pd_phys ≡ s.current_pd_phys
  pub mapped : present (entry t (pde_index vaddr)) ≡ true
  pub names : frame_of (entry t (pde_index vaddr)) ≡ table
  pub apart : table ≢ directory s
  pub others : (i : ℕ) → i ≢ pde_index vaddr → entry t i ≡ entry s i
  pub frames_kept : (q : ℕ) → q ≢ directory s → q ≢ table → t.frames q ≡ s.frames q
  pub origin :
      ((present (entry s (pde_index vaddr)) ≡ true)
        × (frame_of (entry s (pde_index vaddr)) ≡ table))
      ⊎ (bitmap_test s.pmm.bitmap table ≡ 0)

abbrev pub WalkOutcome : Paging → ℕ → Option ℕ × Paging → Type 0
WalkOutcome s vaddr (none, t) = (t.frames ≡ s.frames) × (t.current_pd_phys ≡ s.current_pd_phys)
WalkOutcome s vaddr (some table, t) = Walked s t vaddr table

-- The walk makes a new table in a free frame.
install_table-Walked :
    (s : Paging) (pmm' : Pmm) (vaddr flags p : ℕ)
    → bitmap_test s.pmm.bitmap p ≡ 0
    → p ≢ directory s
    → Walked s (install_table (record s { pmm = pmm' }) vaddr flags (p * 4096)) vaddr p
unfolding install_table
install_table-Walked s pmm' vaddr flags p free apart = record {
  same_directory = refl;
  mapped = rw written (new_entry p b (test_bit-le-one flags 2)).0;
  names = rw written (new_entry p b (test_bit-le-one flags 2)).1;
  apart = apart;
  others = λ i h. ground arith;
  frames_kept = λ q h k. ground arith;
  origin = inr free;
}
  where
    b : ℕ
    b = test_bit flags 2

    written :
        entry (install_table (record s { pmm = pmm' }) vaddr flags (p * 4096)) (pde_index vaddr)
        ≡ page_base (p * 4096) + 3 + b * 4
    written = ground arith

-- The walk finds a table, and may pass on the user bit to its entry.
found-Walked :
    (s : Paging) (vaddr : ℕ) (user : Bool)
    → present (current_pde s vaddr) ≡ true
    → frame_of (current_pde s vaddr) ≢ directory s
    → (user ≡ true → test_bit (current_pde s vaddr) 2 ≡ 0)
    → Walked s
        (if user
          then record s {
            frames = write_word s.frames (directory s) (pde_index vaddr) (current_pde s vaddr + 4);
          }
          else s)
        vaddr
        (frame_of (current_pde s vaddr))
found-Walked s vaddr false h apart f = record {
  same_directory = refl;
  mapped = h;
  names = refl;
  apart = apart;
  others = λ i k. refl;
  frames_kept = λ q k l. refl;
  origin = inl (h, refl);
}
found-Walked s vaddr true h apart f = record {
  same_directory = refl;
  mapped = rw written ((user_entry (current_pde s vaddr) (f refl)).0 ∙ h);
  names = rw written (user_entry (current_pde s vaddr) (f refl)).1;
  apart = apart;
  others = λ i k. ground arith;
  frames_kept = λ q k l. ground arith;
  origin = inl (h, refl);
}
  where
    written :
        write_word s.frames
          (directory s)
          (pde_index vaddr)
          (current_pde s vaddr + 4)
          (directory s)
          (pde_index vaddr)
        ≡ current_pde s vaddr + 4
    written = ground arith

pub walk_get_pte-Outcome :
    (s : Paging) (vaddr flags : ℕ)
    → Sound s
    → pde_index vaddr ≢ 1023
    → WalkOutcome s vaddr (walk_get_pte s vaddr true flags)
unfolding walk_get_pte
walk_get_pte-Outcome s vaddr flags v k = elim (Bool-cases (present (current_pde s vaddr))) [
  | inl h ↦
      rw h (found-Walked s vaddr _ h (v.tables_apart (pde_index vaddr) k h) (λ e. ground arith))
  | inr h ↦ rw h (elim (alloc_table-Table s.pmm v.pmm_inv v.zero_used) [
    | inl e ↦ rw e (refl, refl)
    | inr (p, e, free) ↦ missing p e free
  ])
]
  where
    free_apart : (p : ℕ) → bitmap_test s.pmm.bitmap p ≡ 0 → p ≢ directory s
    free_apart p free e =
        let taken : bitmap_test s.pmm.bitmap p ≡ 1 = rw e v.directory_used in absurd cc

    missing :
        (p : ℕ)
        → (alloc_table s.pmm).0 ≡ p * 4096
        → bitmap_test s.pmm.bitmap p ≡ 0
        → WalkOutcome s vaddr (
            if (alloc_table s.pmm).0 == 0
            then (none, record s { pmm = (alloc_table s.pmm).1 })
            else (
              some (frame_of (alloc_table s.pmm).0),
              install_table
                  (record s { pmm = (alloc_table s.pmm).1 })
                  vaddr
                  flags
                  (alloc_table s.pmm).0,
            ))
    missing p e free =
        if_intro (WalkOutcome s vaddr) ((alloc_table s.pmm).0 == 0) _ _ (λ z. (refl, refl))
          (λ z. rw (e, at) (install_table-Walked s _ vaddr flags p free (free_apart p free)))
      where
        at : frame_of (p * 4096) ≡ p
        at = omega arith
