-- ===== src/Vm/Tests.antt =====
-- Runs of the heap of mm/vm.c, and its theorems at them.
use coffee_os_aurora_refresh.Base.{ℕ, ◌≡◌, ◌≢◌, true, update, arith}
use coffee_os_aurora_refresh.Pmm.Sample.{one_free}
use coffee_os_aurora_refresh.Vm.{
  Vm, VmPage, is_free, find_run, allocate_virtual_pages, free_virtual_pages,
}
use coffee_os_aurora_refresh.Vm.Runs.{Allocated, allocate_virtual_pages-Allocated, free-allocate}

-- Pages 1 and 2 of the heap are in use.
abbrev heap : Vm
heap = record {
  vm_page_state = update (update (λ i. VmPage.free) 1 VmPage.lazy) 2 VmPage.reserved;
  paging = record {
    pmm = one_free;
    frames = λ q i. 0;
    current_pd_phys = 0x1000;
    kernel_pd_phys = 0x1000;
  };
}

allocate_virtual_pages-Allocated_example : Allocated heap 2 (allocate_virtual_pages heap 2)
allocate_virtual_pages-Allocated_example =
    allocate_virtual_pages-Allocated heap 2 (omega arith) (omega arith)

allocates : (allocate_virtual_pages heap 2).0 ≢ 0
unfolding allocate_virtual_pages find_run is_free
allocates = omega arith

free-allocate_example :
    ((free_virtual_pages (allocate_virtual_pages heap 2).1 (allocate_virtual_pages heap 2).0 2).0
      ≡ true)
    × ((q : ℕ)
        → (free_virtual_pages
              (allocate_virtual_pages heap 2).1
              (allocate_virtual_pages heap 2).0
              2).1.vm_page_state
            q
          ≡ heap.vm_page_state q)
free-allocate_example = free-allocate heap 2 (omega arith) (omega arith) allocates

-- The same heap under a directory with its recursive slot and an empty table for the heap, in
-- frame 3.
abbrev mapped_heap : Vm
mapped_heap = record {
  vm_page_state = update (update (λ i. VmPage.free) 1 VmPage.lazy) 2 VmPage.reserved;
  paging = record {
    pmm = one_free;
    frames =
        update (update (λ q i. 0) 1 (update (update (λ i. 0) 1023 0x1003) 836 0x3003)) 3
          (update (λ i. 0) 2 0x5003);
    current_pd_phys = 0x1000;
    kernel_pd_phys = 0x1000;
  };
}
