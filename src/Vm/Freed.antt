-- ===== src/Vm/Freed.antt =====
-- What free_virtual_pages of mm/vm.c gives back: the pages, their mappings, and the references to
-- the frames mapped there.
use coffee_os_aurora_refresh.Base.{ℕ, zero, suc, ◌+◌, ◌*◌, ◌≤◌, ◌<◌, ◌≡◌, ◌⊎◌, none}
use coffee_os_aurora_refresh.Pmm.State.{Pmm}
use coffee_os_aurora_refresh.Paging.Defs.{Paging}
use coffee_os_aurora_refresh.Vm.{Vm, heap_base}
use coffee_os_aurora_refresh.Vm.Unmapping.{mapped_at, release}

-- One reference less for each frame that p maps at the n pages of the heap from page i on.
unfoldable pub released : Paging → Pmm → ℕ → ℕ → Pmm
released p pmm zero i = pmm
released p pmm (suc n) i = released p (release (mapped_at p (heap_base + i * 4096)) pmm) n (i + 1)

-- The n pages of the heap from page i on are not mapped in t, every other address below the
-- recursive slot is mapped as in p, and the frames mapped there have lost one reference each.
pub record Unmapped (p t : Paging) (n i : ℕ) : Type 0 where
  pub same_directory : t.current_pd_phys ≡ p.current_pd_phys
  pub kernel_directory : t.kernel_pd_phys ≡ p.kernel_pd_phys
  pub gone :
      (v : ℕ) → heap_base + i * 4096 ≤ v → v < heap_base + (i + n) * 4096 → mapped_at t v ≡ none
  pub others :
      (v : ℕ)
      → v < 0xffc00000
      → (v < heap_base + i * 4096) ⊎ (heap_base + (i + n) * 4096 ≤ v)
      → mapped_at t v ≡ mapped_at p v
  pub references : t.pmm ≡ released p p.pmm n i
