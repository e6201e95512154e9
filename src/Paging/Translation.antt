-- ===== src/Paging/Translation.antt =====
-- The walk of the processor through a directory and a page table, against which the operations of
-- mm/paging.c are stated, and what map_page does to it.
use coffee_os_aurora_refresh.Base.{
  ℕ, ◌+◌, ◌%◌, ◌≡◌, ◌≢◌, inl, inr, refl, ◌∙◌, ap, Bool, true, false, not, ◌||◌, Option, none, some,
  Array, ◌==◌, if◌then◌else◌, Bool-cases, if_intro, arith,
}
use coffee_os_aurora_refresh.Base.Bits.{test_bit, test_bit-le-one}
use coffee_os_aurora_refresh.Paging.Defs.{
  Paging, frame_of, page_base, pde_index, pte_index, present, recursive_mapped, walk_get_pte,
  set_pte, enter_page, map_page, paging_get_mapping, pte_flags_to_hw, pte_hw_to_flags,
}
use coffee_os_aurora_refresh.Paging.Mapping.{
  directory, entry, Sound, Walked, WalkOutcome, walk_get_pte-Outcome,
}

-- The physical address and the flags of an address under the directory in frame d.
unfoldable pub translation : Array (Array ℕ) → ℕ → ℕ → Option (ℕ × ℕ)
translation frames d vaddr =
    let pde = frames d (pde_index vaddr) in
    let hw = frames (frame_of pde) (pte_index vaddr) in
    if present pde
    then (if present hw then some (page_base hw + vaddr % 4096, pte_hw_to_flags hw) else none)
    else none

-- Walking without making tables reads one entry of the directory.
pub walk_get_pte_look :
    (s : Paging) (vaddr : ℕ)
    → (walk_get_pte s vaddr false 0).0 ≡ (
        if present (entry s (pde_index vaddr))
        then some (frame_of (entry s (pde_index vaddr)))
        else none)
unfolding walk_get_pte
walk_get_pte_look s vaddr = elim (Bool-cases (present (entry s (pde_index vaddr)))) [
  | inl e ↦ rw e refl
  | inr e ↦ rw e refl
]

walk_get_pte_page :
    (s : Paging) (vaddr : ℕ)
    → (walk_get_pte s (page_base vaddr) false 0).0 ≡ (
        if present (entry s (pde_index vaddr))
        then some (frame_of (entry s (pde_index vaddr)))
        else none)
walk_get_pte_page s vaddr =
    walk_get_pte_look s (page_base vaddr)
    ∙ ap (λ i. if present (entry s i) then some (frame_of (entry s i)) else none)
        {x = pde_index (page_base vaddr)} {y = pde_index vaddr} (omega arith)

-- paging_get_mapping computes what the processor's walk gives.
pub paging_get_mapping-translation :
    (s : Paging) (vaddr : ℕ)
    → recursive_mapped s ≡ true
    → paging_get_mapping s vaddr ≡ translation s.frames (directory s) vaddr
unfolding paging_get_mapping translation
paging_get_mapping-translation s vaddr h =
    rw (h, walk_get_pte_page s vaddr)
      (if_intro
        (λ (w : Option ℕ).
          elim w [
            | none ↦ none
            | some t ↦
                let hw = s.frames t (pte_index vaddr) in
                if present hw then some (page_base hw + vaddr % 4096, pte_hw_to_flags hw) else none
          ]
          ≡ translation s.frames (directory s) vaddr)
        (present (entry s (pde_index vaddr))) _ _ (λ e. rw e refl) (λ e. rw e refl))

-- A call of map_page that succeeds: the walk, and the entry written.
pub record Mapped (s t : Paging) (vaddr paddr flags : ℕ) : Type 0 where
  pub table : ℕ
  pub walked : Paging
  pub walk : Walked s walked vaddr table
  pub aligned : vaddr % 4096 ≡ 0
  pub frame_aligned : paddr % 4096 ≡ 0
  pub asked_present : test_bit flags 0 ≡ 1
  pub recursive : recursive_mapped s ≡ true
  pub was_free : present (walked.frames table (pte_index vaddr)) ≡ false
  pub result : t ≡ set_pte walked table vaddr (page_base paddr + pte_flags_to_hw flags)

-- What enter_page makes of a walk.
enter_page-Mapped :
    (s : Paging) (vaddr paddr flags : ℕ) (r : Option ℕ × Paging)
    → WalkOutcome s vaddr r
    → vaddr % 4096 ≡ 0
    → paddr % 4096 ≡ 0
    → test_bit flags 0 ≡ 1
    → recursive_mapped s ≡ true
    → (enter_page r vaddr (page_base paddr + pte_flags_to_hw flags)).0 ≡ true
    → Mapped s (enter_page r vaddr (page_base paddr + pte_flags_to_hw flags)).1 vaddr paddr flags
unfolding enter_page
enter_page-Mapped s vaddr paddr flags (none, t) w ha hf hp hr = λ h. absurd cc
enter_page-Mapped s vaddr paddr flags (some table, t) w ha hf hp hr =
    elim (Bool-cases (present (t.frames table (pte_index vaddr)))) [
      | inl f ↦ rw f (λ h. absurd cc)
      | inr f ↦ rw f (λ h. record {
        table = table;
        walked = t;
        walk = w;
        aligned = ha;
        frame_aligned = hf;
        asked_present = hp;
        recursive = hr;
        was_free = f;
        result = refl;
      })
    ]

pub map_page-Mapped :
    (s : Paging) (vaddr paddr flags : ℕ)
    → Sound s
    → pde_index vaddr ≢ 1023
    → (map_page s vaddr paddr flags).0 ≡ true
    → Mapped s (map_page s vaddr paddr flags).1 vaddr paddr flags
unfolding map_page
map_page-Mapped s vaddr paddr flags v k = elim (Bool-cases bad) [
  | inl e ↦ rw e (λ h. absurd cc)
  | inr e ↦ rw e (
      enter_page-Mapped s vaddr paddr flags _ (walk_get_pte-Outcome s vaddr flags v k)
        (ground arith) (ground arith) (ground (arith, test_bit-le-one flags 0)) (ground arith))
]
  where
    bad : Bool
    bad =
        test_bit flags 3 == 1
        || not (vaddr % 4096 == 0)
        || not (paddr % 4096 == 0)
        || test_bit flags 0 == 0
        || not (recursive_mapped s)
