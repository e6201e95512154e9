-- ===== src/Paging/Roundtrip.antt =====
-- map_page and unmap_page of mm/paging.c against paging_get_mapping.
use coffee_os_aurora_refresh.Base.{
  ℕ, ◌+◌, ◌*◌, ◌/◌, ◌≤◌, ◌<◌, ◌≡◌, ◌≢◌, refl, sym, ◌∙◌, ap, true, none, some, if_intro, arith,
}
use coffee_os_aurora_refresh.Base.Bits.{test_bit, test_bit-le-one}
use coffee_os_aurora_refresh.Paging.Defs.{
  Paging, page_base, pde_index, pte_index, recursive_mapped, set_pte, map_page, unmap_page,
  paging_get_mapping, pte_flags_to_hw, pte_hw_to_flags,
}
use coffee_os_aurora_refresh.Paging.Mapping.{directory, entry, Sound}
use coffee_os_aurora_refresh.Paging.Translation.{
  translation, walk_get_pte_look, paging_get_mapping-translation, Mapped, map_page-Mapped,
}

-- The bits of an entry: the flags lie below the frame's address.
entry_bits :
    (q a b c d : ℕ)
    → a ≤ 1
    → b ≤ 1
    → c ≤ 1
    → d ≤ 1
    → (test_bit (q * 4096 + (a + b * 2 + c * 4 + d * 512)) 0 ≡ a)
      × (test_bit (q * 4096 + (a + b * 2 + c * 4 + d * 512)) 1 ≡ b)
      × (test_bit (q * 4096 + (a + b * 2 + c * 4 + d * 512)) 2 ≡ c)
      × (test_bit (q * 4096 + (a + b * 2 + c * 4 + d * 512)) 9 ≡ d)
unfolding test_bit
entry_bits q a b c d ha hb hc hd = (omega arith, omega arith, omega arith, omega arith)

flags_bound : (flags : ℕ) → pte_flags_to_hw flags < 4096
unfolding pte_flags_to_hw
flags_bound flags = omega (
  arith,
  test_bit-le-one flags 0,
  test_bit-le-one flags 1,
  test_bit-le-one flags 2,
  test_bit-le-one flags 9,
)

-- Reading back the flags of an entry.
flags_read :
    (q flags : ℕ)
    → (pte_hw_to_flags (q * 4096 + pte_flags_to_hw flags) ≡ pte_flags_to_hw flags)
      × (test_bit (q * 4096 + pte_flags_to_hw flags) 0 ≡ test_bit flags 0)
unfolding pte_flags_to_hw pte_hw_to_flags
flags_read q flags = (rw (bits.0, bits.1, bits.2, bits.3) refl, bits.0)
  where
    bits :
        (test_bit (q * 4096 + pte_flags_to_hw flags) 0 ≡ test_bit flags 0)
        × (test_bit (q * 4096 + pte_flags_to_hw flags) 1 ≡ test_bit flags 1)
        × (test_bit (q * 4096 + pte_flags_to_hw flags) 2 ≡ test_bit flags 2)
        × (test_bit (q * 4096 + pte_flags_to_hw flags) 9 ≡ test_bit flags 9)
    bits =
        entry_bits q (test_bit flags 0) (test_bit flags 1) (test_bit flags 2) (test_bit flags 9)
          (test_bit-le-one flags 0) (test_bit-le-one flags 1) (test_bit-le-one flags 2)
          (test_bit-le-one flags 9)

-- The state after a call of map_page that succeeds, at the page mapped.
module _ {s t : Paging} {vaddr paddr flags : ℕ} (m : Mapped s t vaddr paddr flags) where
  after_directory : t.current_pd_phys ≡ s.current_pd_phys
  unfolding set_pte
  after_directory = rw (m.result) m.walk.same_directory

  after_entry : (i : ℕ) → entry t i ≡ entry m.walked i
  unfolding set_pte
  after_entry i = rw (m.result) (ground (arith, m.walk.apart, m.walk.same_directory))

  after_pte : t.frames m.table (pte_index vaddr) ≡ page_base paddr + pte_flags_to_hw flags
  unfolding set_pte
  after_pte = rw (m.result) (ground arith)

  after_recursive : pde_index vaddr ≢ 1023 → recursive_mapped t ≡ true
  after_recursive k = rw (after_entry 1023, m.walk.others 1023 (λ e. k (sym e))) m.recursive

  -- The walk of the processor at an address of the page.
  after_translation :
      (o : ℕ)
      → o < 4096
      → translation t.frames (directory t) (vaddr + o) ≡ some (paddr + o, pte_flags_to_hw flags)
  unfolding translation
  after_translation o h =
      rw
        (
          pde,
          pte,
          after_entry (pde_index vaddr),
          m.walk.mapped,
          m.walk.names,
          after_pte,
          (flags_read (paddr / 4096) flags).1,
          m.asked_present,
          (flags_read (paddr / 4096) flags).0,
        )
        (ap (λ a. some (a, pte_flags_to_hw flags))
          (omega (arith, flags_bound flags, m.frame_aligned, m.aligned)))
    where
      pde : pde_index (vaddr + o) ≡ pde_index vaddr
      pde = omega (arith, m.aligned)

      pte : pte_index (vaddr + o) ≡ pte_index vaddr
      pte = omega (arith, m.aligned)

  -- The entry found and cleared again.
  after_unmap : pde_index vaddr ≢ 1023 → unmap_page t vaddr ≡ (true, set_pte t m.table vaddr 0)
  unfolding unmap_page
  after_unmap k =
      rw
        (
          m.aligned,
          after_recursive k,
          walk_get_pte_look t vaddr,
          after_entry (pde_index vaddr),
          m.walk.mapped,
          m.walk.names,
          after_pte,
          (flags_read (paddr / 4096) flags).1,
          m.asked_present,
        )
        refl

  cleared_entry : (i : ℕ) → entry (set_pte t m.table vaddr 0) i ≡ entry m.walked i
  unfolding set_pte
  cleared_entry i = ground (arith, m.walk.apart, after_directory, after_entry i)

  cleared_pte : (set_pte t m.table vaddr 0).frames m.table (pte_index vaddr) ≡ 0
  unfolding set_pte
  cleared_pte = ground arith

  cleared_translation :
      translation (set_pte t m.table vaddr 0).frames (directory (set_pte t m.table vaddr 0)) vaddr
      ≡ none
  unfolding translation test_bit
  cleared_translation =
      rw (cleared_entry (pde_index vaddr), m.walk.names, cleared_pte)
        (if_intro (λ x. x ≡ none) _ _ _ (λ e. refl) (λ e. refl))

  cleared_recursive : pde_index vaddr ≢ 1023 → recursive_mapped (set_pte t m.table vaddr 0) ≡ true
  cleared_recursive k = rw (cleared_entry 1023, m.walk.others 1023 (λ e. k (sym e))) m.recursive

-- In a sound state, after a call of map_page that succeeds for a page outside the recursive slot,
-- paging_get_mapping gives for every address of the page the frame's address at the same offset,
-- with the flags present, writable, user and COW that were asked for.
pub get_mapping-map_page :
    (s : Paging) (vaddr paddr flags o : ℕ)
    → Sound s
    → pde_index vaddr ≢ 1023
    → (map_page s vaddr paddr flags).0 ≡ true
    → o < 4096
    → paging_get_mapping (map_page s vaddr paddr flags).1 (vaddr + o)
      ≡ some (paddr + o, pte_flags_to_hw flags)
get_mapping-map_page s vaddr paddr flags o v k h l =
    paging_get_mapping-translation _ (vaddr + o) (after_recursive m k) ∙ after_translation m o l
  where
    m : Mapped s (map_page s vaddr paddr flags).1 vaddr paddr flags
    m = map_page-Mapped s vaddr paddr flags v k h

-- In a sound state, a page outside the recursive slot that map_page just mapped can be unmapped,
-- and then it has no mapping.
pub unmap_page-map_page :
    (s : Paging) (vaddr paddr flags : ℕ)
    → Sound s
    → pde_index vaddr ≢ 1023
    → (map_page s vaddr paddr flags).0 ≡ true
    → ((unmap_page (map_page s vaddr paddr flags).1 vaddr).0 ≡ true)
      × (paging_get_mapping (unmap_page (map_page s vaddr paddr flags).1 vaddr).1 vaddr ≡ none)
unmap_page-map_page s vaddr paddr flags v k h =
    rw (after_unmap m k)
      (refl, paging_get_mapping-translation _ vaddr (cleared_recursive m k) ∙ cleared_translation m)
  where
    m : Mapped s (map_page s vaddr paddr flags).1 vaddr paddr flags
    m = map_page-Mapped s vaddr paddr flags v k h
