-- ===== src/Vm/Unmapping.antt =====
-- What the calls of unmap_page and pmm_ref_dec in free_virtual_pages of mm/vm.c do to the page
-- tables and to the reference counts.
use coffee_os_aurora_refresh.Base.{
  ℕ, ◌+◌, ◌*◌, ◌/◌, ◌%◌, ◌≤◌, ◌<◌, ◌≡◌, ◌≢◌, ◌⊎◌, inl, inr, refl, ◌∙◌, Bool, true, Option, none,
  some, ◌==◌, if◌then◌else◌, if_intro, Bool-cases, eq_cases, arith,
}
use coffee_os_aurora_refresh.Base.Bits.{test_bit}
use coffee_os_aurora_refresh.Pmm.State.{Pmm}
use coffee_os_aurora_refresh.Pmm.Refs.{pmm_ref_dec}
use coffee_os_aurora_refresh.Paging.Defs.{
  Paging, frame_of, page_base, pde_index, pte_index, present, recursive_mapped, set_pte, unmap_page,
  paging_get_mapping, pte_hw_to_flags,
}
use coffee_os_aurora_refresh.Paging.Mapping.{directory, entry}
use coffee_os_aurora_refresh.Paging.Translation.{
  translation, walk_get_pte_look, paging_get_mapping-translation,
}
use coffee_os_aurora_refresh.Vm.{heap_base, heap_pages, drop_mapping}

-- What the current directory maps.
abbrev pub mapped_at : Paging → ℕ → Option (ℕ × ℕ)
mapped_at p vaddr = translation p.frames (directory p) vaddr

-- The page tables of the heap, entries 836 to 851 of the directory, are not the directory, and no
-- other entry but the recursive one names them.
pub record HeapTables (p : Paging) : Type 0 where
  pub recursive : recursive_mapped p ≡ true
  pub not_directory :
      (i : ℕ) → 836 ≤ i → i < 852 → present (entry p i) ≡ true → frame_of (entry p i) ≢ directory p
  pub apart :
      (i j : ℕ)
      → 836 ≤ i
      → i < 852
      → j ≢ i
      → j ≢ 1023
      → present (entry p i) ≡ true
      → present (entry p j) ≡ true
      → frame_of (entry p j) ≢ frame_of (entry p i)

-- An address's entry cleared, and its frame released.
cleared : Paging → ℕ → ℕ → Paging
cleared p vaddr phys = record (set_pte p (frame_of (entry p (pde_index vaddr))) vaddr 0) {
  pmm = pmm_ref_dec p.pmm (page_base phys);
}

drop_found :
    (p : Paging) (vaddr phys flags : ℕ) (q : Bool × Paging)
    → paging_get_mapping p vaddr ≡ some (phys, flags)
    → unmap_page p vaddr ≡ q
    → drop_mapping p vaddr ≡ record (q.1) { pmm = pmm_ref_dec q.1.pmm (page_base phys) }
unfolding drop_mapping
drop_found p vaddr phys flags q e f = rw (e, drop_mapping, f) refl

drop_none : (p : Paging) (vaddr : ℕ) → paging_get_mapping p vaddr ≡ none → drop_mapping p vaddr ≡ p
unfolding drop_mapping
drop_none p vaddr e = rw (e, drop_mapping) refl

drop_mapping_lem :
    (p : Paging) (vaddr : ℕ)
    → recursive_mapped p ≡ true
    → vaddr % 4096 ≡ 0
    → ((mapped_at p vaddr ≡ none) × (drop_mapping p vaddr ≡ p))
      ⊎ ((phys : ℕ) × (flags : ℕ) × (mapped_at p vaddr ≡ some (phys, flags))
          × (present (entry p (pde_index vaddr)) ≡ true)
          × (drop_mapping p vaddr ≡ cleared p vaddr phys))
unfolding unmap_page cleared translation set_pte
drop_mapping_lem p vaddr h a = elim (Bool-cases (present (entry p (pde_index vaddr)))) [
  | inr e ↦
      inl (rw e refl, drop_none p vaddr (paging_get_mapping-translation p vaddr h ∙ rw e refl))
  | inl e ↦ elim (Bool-cases (present hw)) [
    | inr f ↦ inl (
      rw (e, f) refl,
      drop_none p vaddr (paging_get_mapping-translation p vaddr h ∙ rw (e, f) refl),
    )
    | inl f ↦ inr (page_base hw + vaddr % 4096, pte_hw_to_flags hw, rw (e, f) refl, e, found e f)
  ]
]
  where
    hw : ℕ
    hw = p.frames (frame_of (entry p (pde_index vaddr))) (pte_index vaddr)

    unmapped :
        present (entry p (pde_index vaddr)) ≡ true
        → present hw ≡ true
        → unmap_page p vaddr ≡ (true, set_pte p (frame_of (entry p (pde_index vaddr))) vaddr 0)
    unmapped e f = rw (a, h, walk_get_pte_look p vaddr, e, f) refl

    found :
        present (entry p (pde_index vaddr)) ≡ true
        → present hw ≡ true
        → drop_mapping p vaddr ≡ cleared p vaddr (page_base hw + vaddr % 4096)
    found e f =
        drop_found p vaddr (page_base hw + vaddr % 4096) (pte_hw_to_flags hw)
          (true, set_pte p (frame_of (entry p (pde_index vaddr))) vaddr 0)
          (paging_get_mapping-translation p vaddr h ∙ rw (e, f) refl) (unmapped e f)

-- The directory is kept, the page of vaddr is not mapped, and all other pages are as they were.
pub record Step (p t : Paging) (vaddr : ℕ) : Type 0 where
  pub same_directory : t.current_pd_phys ≡ p.current_pd_phys
  pub kernel_directory : t.kernel_pd_phys ≡ p.kernel_pd_phys
  pub entries : (i : ℕ) → entry t i ≡ entry p i
  pub gone : (v : ℕ) → v / 4096 ≡ vaddr / 4096 → mapped_at t v ≡ none
  pub others : (v : ℕ) → v < 0xffc00000 → v / 4096 ≢ vaddr / 4096 → mapped_at t v ≡ mapped_at p v

module _ (p : Paging) (vaddr phys : ℕ) (ok : HeapTables p) (low : heap_base ≤ vaddr)
    (high : vaddr < heap_base + heap_pages * 4096)
    (there : present (entry p (pde_index vaddr)) ≡ true) where
  abbrev table : ℕ
  table = frame_of (entry p (pde_index vaddr))

  table_apart : table ≢ directory p
  table_apart = ok.not_directory (pde_index vaddr) (omega arith) (omega arith) there

  entries_kept : (i : ℕ) → entry (cleared p vaddr phys) i ≡ entry p i
  unfolding cleared set_pte
  entries_kept i = ground (arith, table_apart)

  cleared_word :
      (q i : ℕ)
      → (cleared p vaddr phys).frames q i
        ≡ (if q == table then (if i == pte_index vaddr then 0 else p.frames q i) else p.frames q i)
  unfolding cleared set_pte
  cleared_word q i = ground arith

  cleared_gone : (v : ℕ) → v / 4096 ≡ vaddr / 4096 → mapped_at (cleared p vaddr phys) v ≡ none
  unfolding translation test_bit
  cleared_gone v e =
      let k : pde_index v ≡ pde_index vaddr = omega arith in
      let l : pte_index v ≡ pte_index vaddr = omega arith in
      rw (k, l, entries_kept (pde_index vaddr), zero_there)
        (if_intro (λ x. x ≡ none) _ _ _ (λ e. refl) (λ e. refl))
    where
      zero_there :
          (cleared p vaddr phys).frames (frame_of (entry p (pde_index vaddr))) (pte_index vaddr) ≡ 0
      zero_there = cleared_word _ _ ∙ ground arith

  cleared_others :
      (v : ℕ)
      → v < 0xffc00000
      → v / 4096 ≢ vaddr / 4096
      → mapped_at (cleared p vaddr phys) v ≡ mapped_at p v
  unfolding translation
  cleared_others v h n = elim (Bool-cases (present (entry p (pde_index v)))) [
    | inr e ↦ rw (entries_kept (pde_index v), e) refl
    | inl e ↦ rw (entries_kept (pde_index v), e, word e) refl
  ]
    where
      word :
          present (entry p (pde_index v)) ≡ true
          → (cleared p vaddr phys).frames (frame_of (entry p (pde_index v))) (pte_index v)
            ≡ p.frames (frame_of (entry p (pde_index v))) (pte_index v)
      word e = elim (eq_cases (pde_index v) (pde_index vaddr)) [
        | inl k ↦
            let l : pte_index v ≢ pte_index vaddr = λ l. n (omega arith) in
            cleared_word _ _ ∙ ground (arith, l)
        | inr m ↦
            cleared_word _ _
            ∙ ground (
              arith,
              ok.apart (pde_index vaddr) (pde_index v) (omega arith) (omega arith) m (omega arith)
                  there e,
            )
      ]

  cleared-Step : Step p (cleared p vaddr phys) vaddr
  unfolding cleared set_pte
  cleared-Step = record {
    same_directory = refl;
    kernel_directory = refl;
    entries = entries_kept;
    gone = cleared_gone;
    others = cleared_others;
  }

-- The reference that a page's frame loses, by what the page is mapped to.
unfoldable pub release : Option (ℕ × ℕ) → Pmm → Pmm
release none pmm = pmm
release (some (phys, flags)) pmm = pmm_ref_dec pmm (page_base phys)

-- An address of the same page is mapped exactly when the page is.
same_page :
    (p : Paging) (v vaddr : ℕ)
    → v / 4096 ≡ vaddr / 4096
    → mapped_at p vaddr ≡ none
    → mapped_at p v ≡ none
unfolding translation
same_page p v vaddr e h =
    let k : pde_index v ≡ pde_index vaddr = omega arith in
    let l : pte_index v ≡ pte_index vaddr = omega arith in
    elim (Bool-cases (present (entry p (pde_index vaddr)))) [
      | inr f ↦ rw (k, f) refl
      | inl f ↦ elim (Bool-cases (present (hw vaddr))) [
        | inr g ↦ rw (k, l, f, g) refl
        | inl g ↦ let n : some (address vaddr) ≡ none = rw (f, g) at h in absurd cc
      ]
    ]
  where
    hw : ℕ → ℕ
    hw x = p.frames (frame_of (entry p (pde_index x))) (pte_index x)

    address : ℕ → ℕ × ℕ
    address x = (page_base (hw x) + x % 4096, pte_hw_to_flags (hw x))

pub drop_mapping-Step :
    (p : Paging) (vaddr : ℕ)
    → HeapTables p
    → heap_base ≤ vaddr
    → vaddr < heap_base + heap_pages * 4096
    → vaddr % 4096 ≡ 0
    → Step p (drop_mapping p vaddr) vaddr
      × ((drop_mapping p vaddr).pmm ≡ release (mapped_at p vaddr) p.pmm)
unfolding release cleared set_pte
drop_mapping-Step p vaddr ok low high a = elim (drop_mapping_lem p vaddr ok.recursive a) [
  | inl (e, f) ↦
      rw (f, e)
        (
          record {
            same_directory = refl;
            kernel_directory = refl;
            entries = λ i. refl;
            gone = λ v k. same_page p v vaddr k e;
            others = λ v h n. refl;
          },
          refl,
        )
  | inr (phys, flags, e, there, f) ↦ rw (f, e) (cleared-Step p vaddr phys ok low high there, refl)
]

-- The tables of the heap stay what they are.
pub Step-HeapTables : (p t : Paging) (vaddr : ℕ) → Step p t vaddr → HeapTables p → HeapTables t
Step-HeapTables p t vaddr m ok = record {
  recursive = rw (m.entries 1023) ok.recursive;
  not_directory = λ i l u. rw (m.entries i, m.same_directory) (ok.not_directory i l u);
  apart = λ i j l u. rw (m.entries i, m.entries j) (ok.apart i j l u);
}
