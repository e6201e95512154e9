-- ===== src/Paging/UserSpace.antt =====
-- What paging_create_user_directory_phys of mm/paging.c returns and writes.
use coffee_os_aurora_refresh.Base.{ℕ, ◌*◌, ◌≤◌, ◌<◌, ◌≡◌, ◌⊎◌, true, Option, none, some}
use coffee_os_aurora_refresh.Base.Bits.{test_bit}
use coffee_os_aurora_refresh.Pmm.Bitmap.{bitmap_test}
use coffee_os_aurora_refresh.Pmm.State.{Pmm}
use coffee_os_aurora_refresh.Pmm.Alloc.{take_page}
use coffee_os_aurora_refresh.Pmm.Invariant.{LowestFree}
use coffee_os_aurora_refresh.Paging.Defs.{Paging, identity_limit, frame_of, pde_index, present}
use coffee_os_aurora_refresh.Paging.Mapping.{directory, entry}
use coffee_os_aurora_refresh.Paging.Translation.{translation}
use coffee_os_aurora_refresh.Paging.UserDirectory.{UserSpace}

-- The directories and tables in use, and the identity mapping of the current directory.
pub record KernelMapped (s : Paging) : Type 0 where
  pub kernel_low : s.kernel_pd_phys < identity_limit
  pub kernel_used : bitmap_test s.pmm.bitmap (frame_of s.kernel_pd_phys) ≡ 1
  pub kernel_tables :
      (i : ℕ)
      → present (s.frames (frame_of s.kernel_pd_phys) i) ≡ true
      → bitmap_test s.pmm.bitmap (frame_of (s.frames (frame_of s.kernel_pd_phys) i)) ≡ 1
  pub directory_used : bitmap_test s.pmm.bitmap (directory s) ≡ 1
  pub tables_used :
      (i : ℕ) → present (entry s i) ≡ true → bitmap_test s.pmm.bitmap (frame_of (entry s i)) ≡ 1
  pub identity :
      (addr : ℕ)
      → addr < identity_limit
      → (flags : ℕ) × (translation s.frames (directory s) addr ≡ some (addr, flags))
        × (test_bit flags 1 ≡ 1)
        × (test_bit (entry s (pde_index addr)) 1 ≡ 1)

-- What paging_create_user_directory_phys may do.
abbrev pub Creation : Paging → Option (ℕ × Paging) → Type 0
Creation s r =
    ((r ≡ some (0, s)) × ((q : ℕ) → q < s.pmm.total_pages → bitmap_test s.pmm.bitmap q ≡ 1))
    ⊎ ((p : ℕ) × LowestFree s.pmm p
        × (identity_limit ≤ p * 4096)
        × (translation s.frames (directory s) (p * 4096) ≡ none → r ≡ none))
    ⊎ ((p : ℕ) × (t : Paging) × LowestFree s.pmm p
        × (p * 4096 < identity_limit)
        × (r ≡ some (p * 4096, t))
        × (t.pmm ≡ take_page s.pmm p)
        × UserSpace s t p)
