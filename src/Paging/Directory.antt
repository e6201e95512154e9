-- ===== src/Paging/Directory.antt =====
-- Operations of mm/paging.c on a directory that is not the current one, and the directory of a new
-- process.
use coffee_os_aurora_refresh.Base.{
  ℕ, ◌+◌, ◌-◌, ◌*◌, Bool, ◌&&◌, Option, none, some, Array, update, ltb, leb, ◌==◌, if◌then◌else◌,
}
use coffee_os_aurora_refresh.Base.Bits.{test_bit}
use coffee_os_aurora_refresh.Paging.Defs.{
  Paging, frame_of, page_base, current_pde, alloc_table, map_page, unmap_page, paging_get_mapping,
}
use coffee_os_aurora_refresh.Paging.Translation.{translation}

unfoldable pub paging_switch_directory : Paging → ℕ → Paging
paging_switch_directory s page_directory_phys = record s {
  current_pd_phys = page_base page_directory_phys;
}

unfoldable pub paging_map_page_in_directory : Paging → ℕ → ℕ → ℕ → ℕ → Bool × Paging
paging_map_page_in_directory s page_directory_phys vaddr paddr flags =
    let saved = s.current_pd_phys in
    let (ok, t) = map_page (paging_switch_directory s page_directory_phys) vaddr paddr flags in
    (ok, paging_switch_directory t saved)

unfoldable pub paging_unmap_page_in_directory : Paging → ℕ → ℕ → Bool × Paging
paging_unmap_page_in_directory s page_directory_phys vaddr =
    let saved = s.current_pd_phys in
    let (ok, t) = unmap_page (paging_switch_directory s page_directory_phys) vaddr in
    (ok, paging_switch_directory t saved)

unfoldable pub paging_get_mapping_in_directory : Paging → ℕ → ℕ → Option (ℕ × ℕ)
paging_get_mapping_in_directory s page_directory_phys vaddr =
    paging_get_mapping (paging_switch_directory s page_directory_phys) vaddr

-- The words of a new user directory at pd_phys, from those of the kernel's: nothing below entry
-- 768, the kernel's entries without their user bit, and the recursive slot.
unfoldable pub user_directory : Array ℕ → ℕ → Array ℕ
user_directory kernel pd_phys i =
    if i == 1023
    then page_base pd_phys + 3
    else if leb 768 i && ltb i 1023
    then kernel i - test_bit (kernel i) 2 * 4
    else 0

-- The new directory is written, and the kernel's is read, through the pages that the current
-- directory maps at their physical addresses; none is a page fault, also of a write to a page that
-- is not writable, since paging_init sets CR0.WP.
unfoldable pub fill_directory : Paging → ℕ → Option Paging
fill_directory s pd_phys = elim (translation s.frames (frame_of s.current_pd_phys) pd_phys) [
  | none ↦ none
  | some (pd, flags) ↦
      let zeroed = update s.frames (frame_of pd) (λ i. 0) in
      let filled : Option Paging =
        elim (translation zeroed (frame_of s.current_pd_phys) s.kernel_pd_phys) [
          | none ↦ none
          | some (kernel, _) ↦ some (record s {
            frames =
                update s.frames (frame_of pd) (user_directory (zeroed (frame_of kernel)) pd_phys);
          })
        ] in
      if test_bit flags 1 == 1 && test_bit (current_pde s pd_phys) 1 == 1 then filled else none
]

-- paging_create_user_directory_phys: the new directory's address, 0 if there is no page for it;
-- none is a page fault.
unfoldable pub paging_create_user_directory_phys : Paging → Option (ℕ × Paging)
paging_create_user_directory_phys s =
    let (pd_phys, pmm') = alloc_table s.pmm in
    if pd_phys == 0
    then some (0, record s { pmm = pmm' })
    else elim (fill_directory (record s { pmm = pmm' }) pd_phys) [
      | none ↦ none
      | some t ↦ some (pd_phys, t)
    ]
