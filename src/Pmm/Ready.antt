-- ===== src/Pmm/Ready.antt =====
-- pmm_init of mem/pmm.c ends, and establishes the invariant.
use native.Mathlib.Nat.{le_refl}
use coffee_os_aurora_refresh.Base.{
  ℕ, zero, suc, ◌+◌, ◌-◌, ◌*◌, ◌≤◌, ◌<◌, ◌≡◌, ◌==◌, refl, arith, ltb, u32, if◌then◌else◌, if_intro,
  ◌&&◌, some, Bool-cases, ltb→lt, le→ltb, subst, inl, inr,
}
use coffee_os_aurora_refresh.Base.Bits.{test_bit}
use coffee_os_aurora_refresh.Pmm.Bitmap.{max_pages, bitmap_test_ones}
use coffee_os_aurora_refresh.Pmm.State.{Pmm, four_gib, pages_from_end_u64, mark_region_free}
use coffee_os_aurora_refresh.Pmm.Count.{recount_used_pages_lem}
use coffee_os_aurora_refresh.Pmm.Invariant.{Inv}
use coffee_os_aurora_refresh.Pmm.Init.{
  MultibootInfo, MmapEntry, MapScan, all_used, scan_entry, scan_map, fall_back, settle,
}
use coffee_os_aurora_refresh.Pmm.Boot.{
  Scanning, free-Scanning, Scanning-mono, cut_end, region_within, Scanned, pages_from_end_u64-le,
  scan_entry-Scanned,
}

-- What the code relies on in a memory map that ends at `last`: no region runs over 2^64, and no
-- entry's size takes the cursor over 2^32.
pub record SaneMap (entry_at : ℕ → MmapEntry) (last : ℕ) : Type 0 where
  pub no_wrap : (a : ℕ) → (entry_at a).addr + (entry_at a).len < 18446744073709551616
  pub advances : (a : ℕ) → a < last → a + (entry_at a).size + 4 < 4294967296

-- The start of the loop: everything is in use.
pub all_used-Scanning :
    (a l : ℕ) → Scanning 0 (record all_used { memmap_addr_saved = a; memmap_length_saved = l })
unfolding all_used
all_used-Scanning a l = record {
  total = refl;
  hint = refl;
  unread = λ q h k. bitmap_test_ones q;
  no_refs = λ q. refl;
}

available-scan_entry :
    (st : MapScan) (e : MmapEntry) → (scan_entry st e).available ≤ st.available + 1
unfolding scan_entry
available-scan_entry st e = ground arith

pub scan_map-Scanned :
    (entry_at : ℕ → MmapEntry) (last : ℕ)
    → SaneMap entry_at last
    → (fuel current : ℕ) (st r : MapScan) → st.available + fuel < 4294967296
    → Scanned st
    → scan_map entry_at fuel current last st ≡ some r
    → Scanned r
unfolding scan_map
scan_map-Scanned entry_at last sane zero current st r h v e = cc
scan_map-Scanned entry_at last sane (suc fuel) current st r h v e =
    elim (Bool-cases (ltb current last)) [
      | inl more ↦
          scan_map-Scanned entry_at last sane fuel _ (scan_entry st (entry_at current)) r
            (omega (arith, available-scan_entry st (entry_at current)))
            (scan_entry-Scanned st (entry_at current) v (omega arith) (sane.no_wrap current))
            (rw more at e)
      | inr done ↦
          let stopped : some st ≡ some r = rw done at e in
          let same : st ≡ r = cc in subst Scanned same v
    ]

-- Enough fuel: every round takes the cursor at least four bytes further.
pub scan_map_total :
    (entry_at : ℕ → MmapEntry) (last : ℕ)
    → SaneMap entry_at last
    → (fuel current : ℕ) (st : MapScan) → last ≤ current + 4 * fuel
    → last < 4294967296
    → (r : MapScan) × (scan_map entry_at (suc fuel) current last st ≡ some r)
unfolding scan_map
scan_map_total entry_at last sane zero current st h k =
    (st, rw (le→ltb current last (omega arith)) refl)
scan_map_total entry_at last sane (suc fuel) current st h k = elim (Bool-cases (ltb current last)) [
  | inl more ↦ rw more (
      scan_map_total entry_at last sane fuel _ _
        (omega (arith, sane.advances current, ltb→lt current last more)) k)
  | inr done ↦ (st, rw done refl)
]

pages_from_end_u64_mono : (a b : ℕ) → a ≤ b → pages_from_end_u64 a ≤ pages_from_end_u64 b
unfolding pages_from_end_u64
pages_from_end_u64_mono a b h = ground arith

pages_from_end_u64-cut :
    (a : ℕ) → pages_from_end_u64 (if ltb four_gib a then four_gib else a) ≡ pages_from_end_u64 a
unfolding pages_from_end_u64
pages_from_end_u64-cut a = ground arith

-- One region freed, below the page count of any end at or above its own.
free_below :
    (s : Pmm) (d addr len region_len : ℕ)
    → addr < four_gib
    → 0 < len
    → region_len ≡ u32 (cut_end addr len - addr)
    → pages_from_end_u64 (addr + len) ≤ d
    → Scanning d s
    → Scanning d (mark_region_free s addr region_len)
free_below s d addr len region_len h k e l v =
    free-Scanning d s addr region_len
      (λ n. omega (arith, region_within addr len region_len h k (ground arith) n)) v

pub fall_back-Scanning :
    (st : MapScan) (mbi : MultibootInfo)
    → Scanned st
    → Scanning (fall_back st mbi).detected (fall_back st mbi).pmm
      × ((fall_back st mbi).detected ≤ max_pages)
unfolding fall_back
fall_back-Scanning st mbi v =
    if_intro Kept (st.available == 0 && test_bit mbi.flags 0 == 1) _ _
      (λ t.
        let u : Scanning 0 st.pmm = v.untouched (ground arith) in
        if_intro Kept (high == 0) _ _ (λ _. (low_freed u _ (le_refl _), pages_from_end_u64-le _))
          λ h. (
            free_below _ _ 0x100000 high _ (omega arith) (ground arith) refl above
                (low_freed u _ (pages_from_end_u64_mono _ _ (ground arith))),
            pages_from_end_u64-le _,
          ))
      λ _. (v.scanning, v.bounded)
  where
    Kept : MapScan → Type 0
    Kept r = Scanning r.detected r.pmm × (r.detected ≤ max_pages)

    low : ℕ
    low = mbi.mem_lower * 1024

    high : ℕ
    high = mbi.mem_upper * 1024

    low_freed :
        Scanning 0 st.pmm
        → (d : ℕ) → pages_from_end_u64 low ≤ d
        → Scanning d (
            if low == 0
            then st.pmm
            else mark_region_free st.pmm 0 (u32 (if ltb four_gib low then four_gib else low)))
    low_freed u d h =
        if_intro (Scanning d) (low == 0) _ _ (λ _. Scanning-mono 0 d st.pmm (omega arith) u)
          λ n.
            free_below st.pmm d 0 low _ (omega arith) (ground arith) (ground arith) (ground arith)
              (Scanning-mono 0 d st.pmm (omega arith) u)

    above :
        pages_from_end_u64 (0x100000 + high)
        ≤ pages_from_end_u64
            (if ltb low (cut_end 0x100000 high) then cut_end 0x100000 high else low)
    above = ground (
      arith,
      pages_from_end_u64-cut (0x100000 + high),
      pages_from_end_u64_mono (cut_end 0x100000 high)
          (if ltb low (cut_end 0x100000 high) then cut_end 0x100000 high else low),
    )

pub settle-Inv :
    (st : MapScan) → Scanning st.detected st.pmm → st.detected ≤ max_pages → Inv (settle st)
unfolding settle
settle-Inv st v h = record {
  total_max = ground arith;
  outside = λ q k l. v.unread q (ground arith) l;
  hint_total = omega (arith, v.hint);
  below_hint = λ q k. absurd (omega (arith, v.hint));
  counted = recount_used_pages_lem (st.pmm).bitmap _ (ground arith);
  unreferenced = λ q k. v.no_refs q;
  ref_max = λ q. omega (arith, v.no_refs q);
}
