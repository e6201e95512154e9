-- ===== src/Vm.antt =====
-- The lazy kernel heap of mm/vm.c: its table of page states, allocation and freeing of page runs,
-- and the page fault handlers for demand paging and copy-on-write. Bytes of a frame are moved as
-- its words. Messages to the serial port are left out.
use coffee_os_aurora_refresh.Base.{
  ℕ, zero, suc, ◌+◌, ◌-◌, ◌*◌, ◌/◌, ◌%◌, Bool, true, false, not, ◌&&◌, ◌||◌, Option, none, some,
  Array, update, ltb, leb, ◌==◌, if◌then◌else◌, u32,
}
use coffee_os_aurora_refresh.Base.Bits.{test_bit}
use coffee_os_aurora_refresh.Pmm.Alloc.{pmm_alloc_page}
use coffee_os_aurora_refresh.Pmm.Refs.{pmm_ref_dec}
use coffee_os_aurora_refresh.Paging.Defs.{
  Paging, frame_of, page_base, map_page, unmap_page, paging_get_mapping,
}
use coffee_os_aurora_refresh.Paging.Flags.{paging_temp_map}
pub mod Runs
pub mod Unmapping
pub mod Freed
mod Tests

-- VM_PAGE_FREE, VM_PAGE_RESERVED and VM_PAGE_LAZY
pub data VmPage : Type 0 where
  free : VmPage
  reserved : VmPage
  lazy : VmPage

pub record Vm : Type 0 where
  pub vm_page_state : Array VmPage
  pub paging : Paging

abbrev pub heap_base : ℕ
heap_base = 0xd1000000

abbrev pub heap_pages : ℕ
heap_pages = 16384

abbrev pub heap_size : ℕ
heap_size = 67108864

unfoldable pub is_free : VmPage → Bool
is_free VmPage.free = true
is_free VmPage.reserved = false
is_free VmPage.lazy = false

unfoldable pub is_lazy : VmPage → Bool
is_lazy VmPage.free = false
is_lazy VmPage.reserved = false
is_lazy VmPage.lazy = true

unfoldable pub vm_init : Paging → Vm
vm_init paging = record { vm_page_state = λ i. VmPage.free; paging = paging }

-- The search of allocate_virtual_pages, from page i on with n pages left: the first page of a run
-- of `count` free pages.
unfoldable pub find_run : Array VmPage → ℕ → ℕ → ℕ → ℕ → ℕ → Option ℕ
find_run state count zero i run run_start = none
find_run state count (suc n) i run run_start =
    let free = is_free (state i) in
    let run' = if free then run + 1 else 0 in
    let start' = if free && run == 0 then i else run_start in
    let rest = find_run state count n (i + 1) run' start' in
    if free && run' == count then some start' else rest

-- The n pages from j on become lazy.
unfoldable pub mark_lazy : Array VmPage → ℕ → ℕ → Array VmPage
mark_lazy state zero j = state
mark_lazy state (suc n) j = mark_lazy (update state j VmPage.lazy) n (j + 1)

unfoldable pub allocate_virtual_pages : Vm → ℕ → ℕ × Vm
allocate_virtual_pages s count =
    let allocated : ℕ × Vm = elim (find_run s.vm_page_state count heap_pages 0 0 0) [
      | none ↦ (0, s)
      | some start ↦ (
        heap_base + start * 4096,
        record s { vm_page_state = mark_lazy s.vm_page_state count start },
      )
    ] in
    if count == 0 || ltb heap_pages count then (0, s) else allocated

-- A mapped page is unmapped, and its frame loses a reference.
unfoldable pub drop_mapping : Paging → ℕ → Paging
drop_mapping p vaddr = elim (paging_get_mapping p vaddr) [
  | none ↦ p
  | some (phys, flags) ↦
      let q = (unmap_page p vaddr).1 in record q { pmm = pmm_ref_dec q.pmm (page_base phys) }
]

-- The loop of free_virtual_pages, from page i on with n pages left.
unfoldable pub free_loop : Vm → ℕ → ℕ → Bool × Vm
free_loop s zero i = (true, s)
free_loop s (suc n) i =
    let freed : Vm = record {
      vm_page_state = update s.vm_page_state i VmPage.free;
      paging = drop_mapping s.paging (u32 (heap_base + i * 4096));
    } in
    let rest = free_loop freed n (i + 1) in if is_free (s.vm_page_state i) then (false, s) else rest

unfoldable pub free_virtual_pages : Vm → ℕ → ℕ → Bool × Vm
free_virtual_pages s addr count =
    let end = u32 (addr + u32 (count * 4096)) in
    let first_page = (addr - heap_base) / 4096 in
    let last_page = u32 (first_page + count) in
    if count == 0
    then (true, s)
    else if not (addr % 4096 == 0)
    then (false, s)
    else if ltb addr heap_base || ltb (heap_base + heap_size) end || ltb end addr
    then (false, s)
    else free_loop s (last_page - first_page) first_page

unfoldable pub vm_heap_contains : ℕ → Bool
vm_heap_contains addr = leb heap_base addr && ltb addr (heap_base + heap_size)

-- The end of a lazy fault: the frame mapped, cleared and recorded, or given back.
unfoldable pub back_page : Vm → ℕ → ℕ → ℕ → Bool × Vm
back_page s page idx frame =
    let (ok, p) = map_page s.paging page frame 3 in
    if ok
    then (
      true,
      record {
        vm_page_state = update s.vm_page_state idx VmPage.reserved;
        paging = record p { frames = update p.frames (frame_of frame) (λ i. 0) };
      },
    )
    else (false, record s { paging = record p { pmm = pmm_ref_dec p.pmm frame } })

unfoldable pub vm_handle_lazy_fault : Vm → ℕ → Bool × Vm
vm_handle_lazy_fault s fault_addr =
    let page = page_base fault_addr in
    let idx = (page - heap_base) / 4096 in
    let (frame, pmm') = pmm_alloc_page s.paging.pmm in
    let s' : Vm = record s { paging = record s.paging { pmm = pmm' } } in
    if not (vm_heap_contains page) || leb heap_pages idx || not (is_lazy (s.vm_page_state idx))
    then (false, s)
    else if frame == 0
    then (false, s')
    else back_page s' page idx frame

-- The end of a copy-on-write fault: the page's words copied to the new frame, the old mapping
-- dropped and the new one made.
unfoldable pub copy_page : Paging → ℕ → ℕ → ℕ → ℕ → Bool × Paging
copy_page p page old_phys new_phys flags =
    let copied = record p {
      frames = update p.frames (frame_of new_phys) (p.frames (frame_of old_phys));
    } in
    let unmapped = (unmap_page copied page).1 in
    let dropped = record unmapped { pmm = pmm_ref_dec unmapped.pmm old_phys } in
    let (ok, q) = map_page dropped page new_phys (3 + test_bit flags 2 * 4) in
    if ok then (true, q) else (false, record q { pmm = pmm_ref_dec q.pmm new_phys })

-- The copy-on-write path for a page mapped to old_phys.
unfoldable pub cow_page : Paging → ℕ → ℕ → ℕ → Bool × Paging
cow_page p page old_phys flags =
    let (new_phys, pmm') = pmm_alloc_page p.pmm in
    let (mapped, q) = paging_temp_map (record p { pmm = pmm' }) new_phys in
    if new_phys == 0
    then (false, record p { pmm = pmm' })
    else if mapped
    then copy_page q page old_phys new_phys flags
    else (false, record q { pmm = pmm_ref_dec q.pmm new_phys })

unfoldable pub vm_handle_cow_fault : Paging → ℕ → Bool × Paging
vm_handle_cow_fault p fault_addr =
    let page = page_base fault_addr in
    elim (paging_get_mapping p page) [
      | none ↦ (false, p)
      | some (phys, flags) ↦
          if test_bit flags 9 == 0 then (false, p) else cow_page p page (page_base phys) flags
    ]

unfoldable pub vm_handle_page_fault : Vm → ℕ → ℕ → Bool × Vm
vm_handle_page_fault s fault_addr err_code =
    let (ok, p) = vm_handle_cow_fault s.paging fault_addr in
    if test_bit err_code 0 == 0
    then vm_handle_lazy_fault s fault_addr
    else if test_bit err_code 1 == 1
    then (ok, record s { paging = p })
    else (false, s)
