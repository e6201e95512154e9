-- ===== src/Paging/Flags.antt =====
-- Operations of mm/paging.c on mapped pages: changing flags and the scratch mapping; and the range
-- check of mem/vmm.c that system calls rely on. Clearing a bit that is set is a subtraction.
use coffee_os_aurora_refresh.Base.{
  ℕ, zero, suc, ◌+◌, ◌-◌, ◌/◌, ◌%◌, Bool, true, false, not, ◌&&◌, ◌||◌, Option, none, some, ltb,
  leb, ◌==◌, if◌then◌else◌, u32,
}
use coffee_os_aurora_refresh.Base.Bits.{test_bit}
use coffee_os_aurora_refresh.Paging.Defs.{
  Paging, page_base, pte_index, present, recursive_mapped, walk_get_pte, set_pte,
}
use coffee_os_aurora_refresh.Paging.Directory.{
  paging_switch_directory, paging_get_mapping_in_directory,
}

-- `w |= bit` if bit k of `set` is on, then `w &= ~bit` if bit k of `clear` is.
unfoldable pub update_flag : ℕ → ℕ → ℕ → ℕ → ℕ → ℕ
update_flag k bit set clear w =
    let on = if test_bit set k == 1 && test_bit w k == 0 then w + bit else w in
    if test_bit clear k == 1 && test_bit on k == 1 then on - bit else on

unfoldable pub update_flags : ℕ → ℕ → ℕ → ℕ
update_flags set clear hw =
    update_flag 9 512 set clear (update_flag 2 4 set clear (update_flag 1 2 set clear hw))

unfoldable pub paging_update_page_flags : Paging → ℕ → ℕ → ℕ → Bool × Paging
paging_update_page_flags s vaddr set_flags clear_flags =
    let updated : Bool × Paging = elim ((walk_get_pte s (page_base vaddr) false 0).0) [
      | none ↦ (false, s)
      | some t ↦
          let hw = s.frames t (pte_index vaddr) in
          if present hw
          then (true, set_pte s t vaddr (update_flags set_flags clear_flags hw))
          else (false, s)
    ] in
    if not (vaddr % 4096 == 0) || not (recursive_mapped s) then (false, s) else updated

unfoldable pub paging_update_page_flags_in_directory : Paging → ℕ → ℕ → ℕ → ℕ → Bool × Paging
paging_update_page_flags_in_directory s page_directory_phys vaddr set_flags clear_flags =
    let saved = s.current_pd_phys in
    let (ok, t) =
      paging_update_page_flags (paging_switch_directory s page_directory_phys) vaddr set_flags
        clear_flags in
    (ok, paging_switch_directory t saved)

-- The page of the scratch mapping.
abbrev pub scratch_vaddr : ℕ
scratch_vaddr = 0xffbff000

-- paging_temp_map: whether the frame could be mapped at scratch_vaddr.
unfoldable pub paging_temp_map : Paging → ℕ → Bool × Paging
paging_temp_map s physical_addr =
    let (table, walked) = walk_get_pte s scratch_vaddr true 2 in
    let mapped : Bool × Paging = elim table [
      | none ↦ (false, walked)
      | some t ↦ (true, set_pte walked t scratch_vaddr (page_base physical_addr + 3))
    ] in
    if not (physical_addr % 4096 == 0) || not (recursive_mapped s) then (false, s) else mapped

-- One page of the range: mapped, for the user, and writable if `write`.
unfoldable pub page_accessible : Paging → ℕ → ℕ → Bool → Bool
page_accessible s page_directory a write =
    elim (paging_get_mapping_in_directory s page_directory a) [
      | none ↦ false
      | some (phys, flags) ↦ test_bit flags 2 == 1 && not (write && test_bit flags 1 == 0)
    ]

-- The loop of vmm_user_range_accessible from page `a` to page `last`; n bounds the rounds.
unfoldable pub range_accessible : Paging → ℕ → ℕ → Bool → ℕ → ℕ → Option Bool
range_accessible s page_directory last write zero a = none
range_accessible s page_directory last write (suc n) a =
    let rest = range_accessible s page_directory last write n (u32 (a + 4096)) in
    if not (page_accessible s page_directory a write)
    then some false
    else if leb last a
    then some true
    else rest

-- The fuel is one round for each page of the range.
unfoldable pub vmm_user_range_accessible : Paging → ℕ → ℕ → ℕ → Bool → Option Bool
vmm_user_range_accessible s page_directory addr len write =
    let end = u32 (addr + len + 4294967295) in
    let first = page_base addr in
    let last = page_base end in
    if len == 0
    then some true
    else if leb 0xc0000000 addr
    then some false
    else if ltb end addr || leb 0xc0000000 end
    then some false
    else range_accessible s page_directory last write ((last - first) / 4096 + 1) first
