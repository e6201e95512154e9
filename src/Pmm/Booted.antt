-- ===== src/Pmm/Booted.antt =====
-- What holds when pmm_init of mem/pmm.c returns.
use coffee_os_aurora_refresh.Base.{
  ℕ, suc, ◌+◌, ◌/◌, ◌<◌, ◌≡◌, ◌==◌, refl, arith, u32, some, Bool-cases, inl, inr,
}
use coffee_os_aurora_refresh.Base.Bits.{test_bit}
use coffee_os_aurora_refresh.Pmm.Bitmap.{bitmap_test}
use coffee_os_aurora_refresh.Pmm.State.{Pmm}
use coffee_os_aurora_refresh.Pmm.Invariant.{Inv}
use coffee_os_aurora_refresh.Pmm.Reserved.{Reserved}
use coffee_os_aurora_refresh.Pmm.Init.{
  MultibootInfo, BootMemory, MapScan, all_used, scan_map, fall_back, settle, reserve_kernel,
  reserve_boot, scan_boot_map, pmm_init,
}
use coffee_os_aurora_refresh.Pmm.Boot.{Scanned}
use coffee_os_aurora_refresh.Pmm.Reserve.{
  Unshared, mark_region_used-Unshared, mark_region_used-bit, reserve_boot_keeps, KernelPage,
  reserve_kernel-Unshared, reserve_kernel-bit,
}
use coffee_os_aurora_refresh.Pmm.Ready.{
  SaneMap, all_used-Scanning, scan_map-Scanned, scan_map_total, fall_back-Scanning, settle-Inv,
}

scan_boot_map_total :
    (mem : BootMemory) (mbi : MultibootInfo)
    → SaneMap mem.entry_at (u32 (mbi.mmap_addr + mbi.mmap_length))
    → mbi.mmap_length < 4294967296
    → (st : MapScan) × (scan_boot_map (mbi.mmap_length / 4 + 2) mem mbi ≡ some st) × Scanned st
unfolding scan_boot_map all_used
scan_boot_map_total mem mbi sane h = elim (Bool-cases (test_bit mbi.flags 6 == 1)) [
  | inl map_given ↦ rw (map_given, fuel) (scanned.0, scanned.1, from_map)
  | inr nothing ↦ rw nothing (fresh, refl, untouched 0 0)
]
  where
    fuel : mbi.mmap_length / 4 + 2 ≡ suc (mbi.mmap_length / 4 + 1)
    fuel = omega arith

    start : ℕ → ℕ → MapScan
    start a l = record {
      pmm = record all_used { memmap_addr_saved = a; memmap_length_saved = l };
      detected = 0;
      available = 0;
    }

    fresh : MapScan
    fresh = record { pmm = all_used; detected = 0; available = 0 }

    untouched : (a l : ℕ) → Scanned (start a l)
    untouched a l = record {
      scanning = all_used-Scanning a l;
      bounded = omega arith;
      untouched = λ _. all_used-Scanning a l;
    }

    scanned :
        (st : MapScan) × (scan_map mem.entry_at
            (suc (mbi.mmap_length / 4 + 1))
            mbi.mmap_addr
            (u32 (mbi.mmap_addr + mbi.mmap_length))
            (start mbi.mmap_addr mbi.mmap_length)
          ≡ some st)
    scanned =
        scan_map_total mem.entry_at _ sane (mbi.mmap_length / 4 + 1) mbi.mmap_addr _ (omega arith)
          (omega arith)

    from_map : Scanned scanned.0
    from_map =
        scan_map-Scanned mem.entry_at _ sane _ _ (start mbi.mmap_addr mbi.mmap_length) scanned.0
          (omega arith) (untouched mbi.mmap_addr mbi.mmap_length) scanned.1

refcount-settle : (st : MapScan) → (settle st).refcount ≡ (st.pmm).refcount
unfolding settle
refcount-settle st = refl

-- What the rest of pmm_init makes of a scanned map.
finish_boot :
    (mem : BootMemory) (mbi : MultibootInfo) (st : MapScan)
    → Scanned st
    → let s = reserve_boot mem mbi (reserve_kernel mem (settle (fall_back st mbi))) in
      Inv s
      × ((q : ℕ) → s.refcount q ≡ 0)
      × ((q : ℕ) → q < s.total_pages → KernelPage mem q → Reserved s q)
finish_boot mem mbi st v = (
  done.inv,
  done.no_refs,
  λ q h k. record {
    managed = h;
    in_use =
        reserve_boot_keeps (λ t. bitmap_test t.bitmap q ≡ 1) (mark_region_used-bit q) mem mbi _
          (reserve_kernel-bit mem q settled (rw (done.total) at h) ready k);
    refs = done.no_refs q;
  },
)
  where
    settled : Pmm
    settled = settle (fall_back st mbi)

    ready : Unshared settled.total_pages settled
    ready =
        let kept = fall_back-Scanning st mbi v in
        record {
          inv = settle-Inv (fall_back st mbi) kept.0 kept.1;
          total = refl;
          no_refs = λ q. rw (refcount-settle (fall_back st mbi)) (kept.0.no_refs q);
        }

    done : Unshared settled.total_pages (reserve_boot mem mbi (reserve_kernel mem settled))
    done =
        reserve_boot_keeps (Unshared settled.total_pages)
          (λ s base len. mark_region_used-Unshared settled.total_pages s base len) mem mbi _
          (reserve_kernel-Unshared mem settled.total_pages settled ready)

-- pmm_init ends, on any map whose entries neither run over 2^64 nor wrap the cursor, with fuel for
-- one round in four bytes of the map. It leaves the invariant and no reference, and reserves every
-- managed page of the first megabyte and of the kernel image.
pub pmm_init_total :
    (mem : BootMemory) (mbi : MultibootInfo)
    → SaneMap mem.entry_at (u32 (mbi.mmap_addr + mbi.mmap_length))
    → mbi.mmap_length < 4294967296
    → (s : Pmm) × (pmm_init (mbi.mmap_length / 4 + 2) mem mbi ≡ some s)
      × Inv s
      × ((q : ℕ) → s.refcount q ≡ 0)
      × ((q : ℕ) → q < s.total_pages → KernelPage mem q → Reserved s q)
unfolding pmm_init
pmm_init_total mem mbi sane h =
    let (st, e, v) = scan_boot_map_total mem mbi sane h in
    let (inv, refs, kernel) = finish_boot mem mbi st v in
    (
      reserve_boot mem mbi (reserve_kernel mem (settle (fall_back st mbi))),
      rw (e, pmm_init) refl,
      inv,
      refs,
      kernel,
    )
