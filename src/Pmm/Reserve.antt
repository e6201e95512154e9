-- ===== src/Pmm/Reserve.antt =====
-- The reservations of pmm_init (mem/pmm.c) keep the invariant and whatever every marking keeps.
use coffee_os_aurora_refresh.Base.{
  ℕ, zero, suc, ◌+◌, ◌-◌, ◌/◌, ◌≤◌, ◌<◌, ◌≡◌, ◌==◌, ◌≢◌, ◌⊎◌, arith, Bool, ltb, leb, u32, sub32,
  if◌then◌else◌, if_intro, not, ◌&&◌, inl, inr,
}
use coffee_os_aurora_refresh.Base.Bits.{test_bit}
use coffee_os_aurora_refresh.Pmm.Bitmap.{page_size, bitmap_test, bitmap_test-set}
use coffee_os_aurora_refresh.Pmm.State.{
  Pmm, four_gib, u64, clamp_u64_to_u32, mark_page_used, mark_region_used, mark_region_used_u64,
}
use coffee_os_aurora_refresh.Pmm.Count.{count_used-le, count_used-set}
use coffee_os_aurora_refresh.Pmm.Invariant.{Inv}
use coffee_os_aurora_refresh.Pmm.Regions.{last_page, mark_region_keeps, mark_region_bits}
use coffee_os_aurora_refresh.Pmm.Init.{
  MultibootInfo, BootModule, BootMemory, reserve_modules, reserve_mods, reserve_strings,
  reserve_framebuffer, reserve_kernel, reserve_boot,
}

-- The invariant with nothing referenced, of d managed pages.
pub record Unshared (d : ℕ) (s : Pmm) : Type 0 where
  pub inv : Inv s
  pub total : s.total_pages ≡ d
  pub no_refs : (q : ℕ) → s.refcount q ≡ 0

mark_page_used-Inv : (s : Pmm) (p : ℕ) → p < s.total_pages → Inv s → Inv (mark_page_used s p)
unfolding mark_page_used
mark_page_used-Inv s p h v =
    if_intro Inv (bitmap_test s.bitmap p == 0) _ _
      (λ e. record {
        total_max = v.total_max;
        outside = λ q k l. ground (arith, bitmap_test-set s.bitmap p q, v.outside q);
        hint_total = v.hint_total;
        below_hint = λ q k. ground (arith, bitmap_test-set s.bitmap p q, v.below_hint q);
        counted = ground (
          arith,
          v.counted,
          v.total_max,
          count_used-set s.bitmap p s.total_pages,
          count_used-le s.bitmap s.total_pages,
        );
        unreferenced = λ q k. ground (arith, bitmap_test-set s.bitmap p q, v.unreferenced q);
        ref_max = v.ref_max;
      })
      (λ _. v)

mark_page_used-Unshared :
    (d : ℕ) (s : Pmm) (p : ℕ) → p < d → Unshared d s → Unshared d (mark_page_used s p)
unfolding mark_page_used
mark_page_used-Unshared d s p h v = record {
  inv = mark_page_used-Inv s p (omega (arith, v.total)) v.inv;
  total = ground (arith, v.total);
  no_refs = λ q. ground (arith, v.no_refs q);
}

pub mark_region_used-Unshared :
    (d : ℕ) (s : Pmm) (base len : ℕ) → Unshared d s → Unshared d (mark_region_used s base len)
unfolding mark_region_used
mark_region_used-Unshared d s base len v =
    mark_region_keeps mark_page_used (Unshared d) s base len
      (λ t p n k l m w. mark_page_used-Unshared d t p (omega (arith, v.total)) w) v

pub mark_region_used-bit :
    (q : ℕ) (s : Pmm) (base len : ℕ)
    → bitmap_test s.bitmap q ≡ 1
    → bitmap_test (mark_region_used s base len).bitmap q ≡ 1
mark_region_used-bit q s base len e = ground (arith, (mark_region_bits s base len q).0)

-- What every marking keeps, the reservations keep.
module _ {ℓ} (P : Pmm → Type ℓ)
    (keep : (s : Pmm) (base len : ℕ) → P s → P (mark_region_used s base len)) where
  reserve_if_keeps :
      (test : Bool) (base len : ℕ) (s : Pmm)
      → P s
      → P (if test then mark_region_used s base len else s)
  reserve_if_keeps test base len s v = if_intro P test _ _ (λ _. keep s base len v) (λ _. v)

  reserve_modules_keeps :
      (module_at : ℕ → BootModule) (n m : ℕ) (s : Pmm) → P s → P (reserve_modules module_at n m s)
  unfolding reserve_modules
  reserve_modules_keeps module_at zero m s v = v
  reserve_modules_keeps module_at (suc n) m s v =
      reserve_modules_keeps module_at n (m + 1) _
        (reserve_if_keeps _ _ 256 _ (reserve_if_keeps _ _ _ s v))

  mark_region_used_u64_keeps : (s : Pmm) (base len : ℕ) → P s → P (mark_region_used_u64 s base len)
  unfolding mark_region_used_u64
  mark_region_used_u64_keeps s base len v =
      let cut =
        clamp_u64_to_u32 (if ltb four_gib (u64 (base + len)) then four_gib - base else len) in
      if_intro P (len == 0) _ _ (λ _. v)
        λ _.
          if_intro P (leb four_gib base) _ _ (λ _. v)
            λ _.
              if_intro P (cut == 0) s (mark_region_used s (u32 base) cut) (λ _. v)
                (λ _. keep s _ _ v)

  reserve_mods_keeps :
      (mem : BootMemory) (mbi : MultibootInfo) (s : Pmm) → P s → P (reserve_mods mem mbi s)
  unfolding reserve_mods
  reserve_mods_keeps mem mbi s v =
      if_intro P (test_bit mbi.flags 3 == 1 && not (mbi.mods_count == 0)) _ _
        (λ _. reserve_modules_keeps mem.module_at mbi.mods_count 0 _ (keep s _ _ v)) (λ _. v)

  reserve_strings_keeps : (mbi : MultibootInfo) (s : Pmm) → P s → P (reserve_strings mbi s)
  unfolding reserve_strings
  reserve_strings_keeps mbi s v =
      reserve_if_keeps (test_bit mbi.flags 9 == 1 && not (mbi.boot_loader_name == 0)) _ 256 _
        (reserve_if_keeps (test_bit mbi.flags 2 == 1 && not (mbi.cmdline == 0)) _ 256 s v)

  reserve_framebuffer_keeps : (mbi : MultibootInfo) (s : Pmm) → P s → P (reserve_framebuffer mbi s)
  unfolding reserve_framebuffer
  reserve_framebuffer_keeps mbi s v =
      if_intro P (test_bit mbi.flags 12 == 1) _ _ (λ _. mark_region_used_u64_keeps s _ _ v) (λ _. v)

  pub reserve_boot_keeps :
      (mem : BootMemory) (mbi : MultibootInfo) (s : Pmm) → P s → P (reserve_boot mem mbi s)
  unfolding reserve_boot
  reserve_boot_keeps mem mbi s v = reserve_framebuffer_keeps mbi _ (
      reserve_strings_keeps mbi _ (
        reserve_mods_keeps mem mbi _
          (reserve_if_keeps (test_bit mbi.flags 6 == 1) _ _ _ (keep s _ 116 v))))

-- The pages of the first megabyte and of the kernel image, as far as they are managed.
abbrev pub KernelPage : BootMemory → ℕ → Type 0
KernelPage mem q =
    (q < 256)
    ⊎ ((sub32 mem.kernel_phys_end mem.kernel_phys_start ≢ 0)
        × (mem.kernel_phys_start / page_size ≤ q)
        × (q ≤ last_page mem.kernel_phys_start (sub32 mem.kernel_phys_end mem.kernel_phys_start)))

pub reserve_kernel-Unshared :
    (mem : BootMemory) (d : ℕ) (s : Pmm) → Unshared d s → Unshared d (reserve_kernel mem s)
unfolding reserve_kernel
reserve_kernel-Unshared mem d s v =
    mark_region_used-Unshared d _ _ _ (mark_region_used-Unshared d s 0 0x100000 v)

pub reserve_kernel-bit :
    (mem : BootMemory) (q : ℕ) (s : Pmm)
    → q < s.total_pages
    → Unshared s.total_pages s
    → KernelPage mem q
    → bitmap_test (reserve_kernel mem s).bitmap q ≡ 1
unfolding reserve_kernel
reserve_kernel-bit mem q s h v (inl k) =
    mark_region_used-bit q _ _ _ (ground (arith, (mark_region_bits s 0 0x100000 q).0))
reserve_kernel-bit mem q s h v (inr k) =
    let w = mark_region_used-Unshared s.total_pages s 0 0x100000 v in
    let size = sub32 mem.kernel_phys_end mem.kernel_phys_start in
    ground (
      arith,
      w.total,
      (mark_region_bits (mark_region_used s 0 0x100000) mem.kernel_phys_start size q).0,
    )
