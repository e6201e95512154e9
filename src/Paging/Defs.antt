-- ===== src/Paging/Defs.antt =====
-- The page tables of mm/paging.c. Physical memory is a function from frame numbers to the 1024
-- words of a frame; a page directory and a page table are frames. The code reaches them through
-- the recursive slot 1023, which is taken to show the current directory and the tables that its
-- entries name. Words are put together from disjoint fields, so `|` of such fields is a sum, and
-- `& 0xFFFFF000` drops the remainder by 4096. TLB invalidation is left out.
use coffee_os_aurora_refresh.Base.{
  ℕ, ◌+◌, ◌*◌, ◌/◌, ◌%◌, Bool, true, false, not, ◌&&◌, ◌||◌, Option, none, some, Array, update,
  ◌==◌, if◌then◌else◌,
}
use coffee_os_aurora_refresh.Base.Bits.{test_bit}
use coffee_os_aurora_refresh.Pmm.State.{Pmm}
use coffee_os_aurora_refresh.Pmm.Alloc.{pmm_alloc_page, pmm_alloc_page_below}

-- The frames, their managers, CR3 (as current_pd_phys_cache holds it) and kernel_pd_phys.
pub record Paging : Type 0 where
  pub pmm : Pmm
  pub frames : Array (Array ℕ)
  pub current_pd_phys : ℕ
  pub kernel_pd_phys : ℕ

-- PAGING_BOOT_IDENTITY_LIMIT, 64 MiB
abbrev pub identity_limit : ℕ
identity_limit = 67108864

-- The frame that an address or a table entry names, and the address without its offset.
abbrev pub frame_of : ℕ → ℕ
frame_of addr = addr / 4096

abbrev pub page_base : ℕ → ℕ
page_base addr = addr / 4096 * 4096

-- PDE_INDEX and PTE_INDEX
abbrev pub pde_index : ℕ → ℕ
pde_index vaddr = vaddr / 4194304 % 1024

abbrev pub pte_index : ℕ → ℕ
pte_index vaddr = vaddr / 4096 % 1024

abbrev pub present : ℕ → Bool
present entry = test_bit entry 0 == 1

-- The bits present, writable, user and COW of a set of flags.
unfoldable pub pte_flags_to_hw : ℕ → ℕ
pte_flags_to_hw flags =
    test_bit flags 0 + test_bit flags 1 * 2 + test_bit flags 2 * 4 + test_bit flags 9 * 512

unfoldable pub pte_hw_to_flags : ℕ → ℕ
pte_hw_to_flags hw = test_bit hw 0 + test_bit hw 1 * 2 + test_bit hw 2 * 4 + test_bit hw 9 * 512

-- One word of a frame overwritten.
abbrev pub write_word : Array (Array ℕ) → ℕ → ℕ → ℕ → Array (Array ℕ)
write_word frames frame index value = update frames frame (update (frames frame) index value)

-- The entry of the current directory for an address.
abbrev pub current_pde : Paging → ℕ → ℕ
current_pde s vaddr = s.frames (frame_of s.current_pd_phys) (pde_index vaddr)

-- ensure_recursive_mapping_current
abbrev pub recursive_mapped : Paging → Bool
recursive_mapped s = present (s.frames (frame_of s.current_pd_phys) 1023)

-- The page that walk_get_pte takes for a new table: below the identity limit if it can be.
unfoldable pub alloc_table : Pmm → ℕ × Pmm
alloc_table pmm =
    let (low, pmm') = pmm_alloc_page_below pmm identity_limit in
    if low == 0 then pmm_alloc_page pmm' else (low, pmm')

-- A new, empty table at a physical address, entered in the current directory.
unfoldable pub install_table : Paging → ℕ → ℕ → ℕ → Paging
install_table s vaddr flags pt_phys =
    let entry = page_base pt_phys + 3 + test_bit flags 2 * 4 in
    let linked = write_word s.frames (frame_of s.current_pd_phys) (pde_index vaddr) entry in
    record s { frames = update linked (frame_of pt_phys) (λ i. 0) }

-- walk_get_pte: the frame of the page table for an address, if there is one or one could be made;
-- the entry has the index pte_index of the address. The user flag is passed on to the directory.
unfoldable pub walk_get_pte : Paging → ℕ → Bool → ℕ → Option ℕ × Paging
walk_get_pte s vaddr create flags =
    let pde = current_pde s vaddr in
    let (pt_phys, pmm') = alloc_table s.pmm in
    let made = install_table (record s { pmm = pmm' }) vaddr flags pt_phys in
    let missing =
      if create
      then (if pt_phys == 0
          then (none, record s { pmm = pmm' })
          else (some (frame_of pt_phys), made))
      else (none, s) in
    let user = record s {
      frames = write_word s.frames (frame_of s.current_pd_phys) (pde_index vaddr) (pde + 4);
    } in
    if present pde
    then (some (frame_of pde), if test_bit flags 2 == 1 && test_bit pde 2 == 0 then user else s)
    else missing

-- Writing a page table entry.
unfoldable pub set_pte : Paging → ℕ → ℕ → ℕ → Paging
set_pte s table vaddr entry = record s {
  frames = write_word s.frames table (pte_index vaddr) entry;
}

-- The end of map_page_current: the entry written where the walk led, unless one is there.
unfoldable pub enter_page : Option ℕ × Paging → ℕ → ℕ → Bool × Paging
enter_page (none, walked) vaddr entry = (false, walked)
enter_page (some t, walked) vaddr entry =
    if present (walked.frames t (pte_index vaddr))
    then (false, walked)
    else (true, set_pte walked t vaddr entry)

-- map_page, map_page_current: 1 and the new state, or 0.
unfoldable pub map_page : Paging → ℕ → ℕ → ℕ → Bool × Paging
map_page s vaddr paddr flags =
    let bad =
      test_bit flags 3 == 1
      || not (vaddr % 4096 == 0)
      || not (paddr % 4096 == 0)
      || test_bit flags 0 == 0
      || not (recursive_mapped s) in
    if bad
    then (false, s)
    else enter_page (walk_get_pte s vaddr true flags) vaddr
        (page_base paddr + pte_flags_to_hw flags)

unfoldable pub unmap_page : Paging → ℕ → Bool × Paging
unmap_page s vaddr =
    let cleared : Bool × Paging = elim ((walk_get_pte s vaddr false 0).0) [
      | none ↦ (false, s)
      | some t ↦
          if present (s.frames t (pte_index vaddr)) then (true, set_pte s t vaddr 0) else (false, s)
    ] in
    if not (vaddr % 4096 == 0) || not (recursive_mapped s) then (false, s) else cleared

-- paging_get_mapping: the physical address and the flags of a mapped address.
unfoldable pub paging_get_mapping : Paging → ℕ → Option (ℕ × ℕ)
paging_get_mapping s vaddr =
    let found : Option (ℕ × ℕ) = elim ((walk_get_pte s (page_base vaddr) false 0).0) [
      | none ↦ none
      | some t ↦
          let hw = s.frames t (pte_index vaddr) in
          if present hw then some (page_base hw + vaddr % 4096, pte_hw_to_flags hw) else none
    ] in
    if recursive_mapped s then found else none

unfoldable pub translate_virtual_address : Paging → ℕ → ℕ
translate_virtual_address s vaddr = elim (paging_get_mapping s vaddr) [ none ↦ 0 | some (p, f) ↦ p ]
