-- ===== src/Pmm/Boot.antt =====
-- The loop of pmm_init (mem/pmm.c) over the memory map frees only pages below detected_pages.
use coffee_os_aurora_refresh.Base.{
  ℕ, ◌+◌, ◌-◌, ◌/◌, ◌≤◌, ◌<◌, ◌≡◌, ◌==◌, ◌≢◌, refl, ◌∙◌, arith, true, ltb, u32, if◌then◌else◌,
  if_intro, not, ◌&&◌, ltb→lt,
}
use coffee_os_aurora_refresh.Pmm.Bitmap.{page_size, max_pages, bitmap_test, bitmap_test-clear}
use coffee_os_aurora_refresh.Pmm.State.{
  Pmm, four_gib, u64, pages_from_end_u64, mark_page_free, mark_region_free,
}
use coffee_os_aurora_refresh.Pmm.Regions.{last_page, mark_region_keeps}
use coffee_os_aurora_refresh.Pmm.Init.{MmapEntry, MapScan, scan_entry}

-- While the map is scanned every page is managed, and those from `d` on are in use.
pub record Scanning (d : ℕ) (s : Pmm) : Type 0 where
  pub total : s.total_pages ≡ max_pages
  pub hint : s.first_free_hint ≡ 0
  pub unread : (q : ℕ) → d ≤ q → q < max_pages → bitmap_test s.bitmap q ≡ 1
  pub no_refs : (q : ℕ) → s.refcount q ≡ 0

mark_page_free-Scanning :
    (d : ℕ) (s : Pmm) (p : ℕ) → p < d → Scanning d s → Scanning d (mark_page_free s p)
unfolding mark_page_free
mark_page_free-Scanning d s p h v =
    if_intro (Scanning d) (bitmap_test s.bitmap p == 0) _ _ (λ _. v)
      λ _. record {
        total = v.total;
        hint = v.hint;
        unread = λ q k l. ground (arith, bitmap_test-clear s.bitmap p q, v.unread q);
        no_refs = v.no_refs;
      }

-- A region that ends below page d.
pub free-Scanning :
    (d : ℕ) (s : Pmm) (base len : ℕ)
    → (len ≢ 0 → last_page base len < d)
    → Scanning d s
    → Scanning d (mark_region_free s base len)
unfolding mark_region_free
free-Scanning d s base len h v =
    mark_region_keeps mark_page_free (Scanning d) s base len
      (λ t p n k l m w. mark_page_free-Scanning d t p (omega (arith, h n)) w) v

pub Scanning-mono : (c d : ℕ) (s : Pmm) → c ≤ d → Scanning c s → Scanning d s
Scanning-mono c d s h v = record {
  total = v.total;
  hint = v.hint;
  unread = λ q k l. v.unread q (omega arith) l;
  no_refs = v.no_refs;
}

-- The end of a region, cut off at 4 GiB, and its length from there.
abbrev pub cut_end : ℕ → ℕ → ℕ
cut_end addr len = if ltb four_gib (addr + len) then four_gib else addr + len

cut_end_bounds :
    (addr len : ℕ)
    → addr < four_gib
    → 0 < len
    → (addr < cut_end addr len) × (cut_end addr len ≤ four_gib)
cut_end_bounds addr len h k = ground arith

region_len_lem :
    (addr cut : ℕ)
    → addr < cut
    → cut ≤ four_gib
    → u32 (cut + 18446744073709551616 - addr) ≢ 0
    → u32 (cut + 18446744073709551616 - addr) ≡ cut - addr
region_len_lem addr cut h k n = omega arith

last_page_lem :
    (addr cut : ℕ)
    → addr < cut
    → cut ≤ four_gib
    → last_page addr (cut - addr) ≡ (cut - 1) / page_size
last_page_lem addr cut h k = omega arith

pages_from_end-cut :
    (addr len : ℕ)
    → 0 < len
    → pages_from_end_u64 (addr + len) ≡ (cut_end addr len + page_size - 1) / page_size
unfolding pages_from_end_u64
pages_from_end-cut addr len k = ground arith

-- The last page of an available region lies below the page count taken from its end.
pub region_within :
    (addr len region_len : ℕ)
    → addr < four_gib
    → 0 < len
    → region_len ≡ u32 (cut_end addr len + 18446744073709551616 - addr)
    → region_len ≢ 0
    → last_page addr region_len < pages_from_end_u64 (addr + len)
region_within addr len region_len h k e n =
    let b = cut_end_bounds addr len h k in
    let r = e ∙ region_len_lem addr (cut_end addr len) b.0 b.1 (λ z. n (e ∙ z)) in
    rw (r, last_page_lem addr (cut_end addr len) b.0 b.1, pages_from_end-cut addr len k)
      (omega (arith, b))

-- What the loop over the map keeps. Without an available entry nothing was freed.
pub record Scanned (st : MapScan) : Type 0 where
  pub scanning : Scanning st.detected st.pmm
  pub bounded : st.detected ≤ max_pages
  pub untouched : st.available ≡ 0 → Scanning 0 st.pmm

pub pages_from_end_u64-le : (end64 : ℕ) → pages_from_end_u64 end64 ≤ max_pages
unfolding pages_from_end_u64
pages_from_end_u64-le end64 = ground arith

free_entry-Scanned :
    (st : MapScan) (addr len d : ℕ)
    → Scanned st
    → st.available + 1 < 4294967296
    → st.detected ≤ d
    → d ≤ max_pages
    → (len ≢ 0 → last_page addr len < d)
    → Scanned (record {
      pmm = mark_region_free st.pmm addr len;
      detected = d;
      available = u32 (st.available + 1);
    })
free_entry-Scanned st addr len d v h k l m = record {
  scanning = free-Scanning d st.pmm addr len m (Scanning-mono st.detected d st.pmm k v.scanning);
  bounded = l;
  untouched = λ e. absurd (omega arith);
}

raise-Scanned :
    (st : MapScan) (d : ℕ)
    → Scanned st
    → st.detected ≤ d
    → d ≤ max_pages
    → Scanned (record st { detected = d })
raise-Scanned st d v h k = record {
  scanning = Scanning-mono st.detected d st.pmm h v.scanning;
  bounded = k;
  untouched = v.untouched;
}

pub scan_entry-Scanned :
    (st : MapScan) (e : MmapEntry)
    → Scanned st
    → st.available + 1 < 4294967296
    → e.addr + e.len < 18446744073709551616
    → Scanned (scan_entry st e)
unfolding scan_entry
scan_entry-Scanned st e v h k =
    if_intro Scanned (e.kind == 1 && not (e.len == 0)) _ _
      (λ usable.
        if_intro Scanned (ltb e.addr four_gib) _ _
          (λ below.
            free_entry-Scanned st _ _ _ v h (ground arith)
              (ground (arith, v.bounded, pages_from_end_u64-le (u64 (e.addr + e.len))))
              (within usable (ltb→lt e.addr four_gib below)))
          (λ above.
            raise-Scanned st _ v (ground arith)
              (ground (arith, v.bounded, pages_from_end_u64-le (u64 (e.addr + e.len))))))
      (λ _. v)
  where
    no_wrap : u64 (e.addr + e.len) ≡ e.addr + e.len
    no_wrap = omega arith

    within :
        (e.kind == 1 && not (e.len == 0)) ≡ true
        → e.addr < four_gib
        → let cut =
            (if ltb four_gib (u64 (e.addr + e.len)) then four_gib else u64 (e.addr + e.len)) in
          let found = pages_from_end_u64 (u64 (e.addr + e.len)) in
          let region_len = u32 (cut + 18446744073709551616 - e.addr) in
          region_len ≢ 0
          → last_page (u32 e.addr) region_len
            < (if ltb st.detected found then found else st.detected)
    within usable below =
        let small : u32 e.addr ≡ e.addr = omega arith in
        rw (no_wrap, small)
          λ n. ground (arith, region_within e.addr e.len _ below (ground arith) refl n)
