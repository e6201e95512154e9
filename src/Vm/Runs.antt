-- ===== src/Vm/Runs.antt =====
-- allocate_virtual_pages of mm/vm.c finds the first run of free pages, and free_virtual_pages
-- gives one back.
use coffee_os_aurora_refresh.Base.{
  ℕ, zero, suc, ◌+◌, ◌-◌, ◌*◌, ◌≤◌, ◌<◌, ◌≡◌, ◌≢◌, ◌⊎◌, inl, inr, refl, sym, true, false, ◌&&◌,
  Option, none, some, Array, update, ltb, leb, ◌==◌, if◌then◌else◌, if_intro, Bool-cases,
  Option-cases, lt_cases, eq_cases, ==_iff, ==_ne, le→ltb, lt→ltb, le→leb, lt→leb, u32, ap, ◌∙◌,
  arith,
}
use coffee_os_aurora_refresh.Vm.{
  Vm, VmPage, heap_base, heap_pages, is_free, find_run, mark_lazy, allocate_virtual_pages,
  drop_mapping, free_loop, free_virtual_pages,
}

is_free-eq : (v : VmPage) → is_free v ≡ true → v ≡ VmPage.free
unfolding is_free
is_free-eq VmPage.free h = refl
is_free-eq VmPage.reserved h = absurd cc
is_free-eq VmPage.lazy h = absurd cc

lazy_not_free : is_free VmPage.lazy ≡ false
unfolding is_free
lazy_not_free = refl

-- A page of [a, a + count) is in use.
abbrev pub Blocked : Array VmPage → ℕ → ℕ → Type 0
Blocked state count a = (j : ℕ) × (a ≤ j) × (j < a + count) × (is_free (state j) ≡ false)

-- The search before page i, with the last `run` pages free: no run of `count` pages was passed.
record Search (state : Array VmPage) (count i run start : ℕ) : Type 0 where
  short : run < count
  bound : run ≤ i
  starts : 0 < run → start + run ≡ i
  free : (j : ℕ) → i ≤ j + run → j < i → is_free (state j) ≡ true
  maximal : (j : ℕ) → j + run + 1 ≡ i → is_free (state j) ≡ false
  missed : (a : ℕ) → a + count ≤ i → Blocked state count a

-- The first run of `count` free pages below page hi.
abbrev pub FirstRun : Array VmPage → ℕ → ℕ → Option ℕ → Type 0
FirstRun state count hi none = (a : ℕ) → a + count ≤ hi → Blocked state count a
FirstRun state count hi (some p) =
    (p + count ≤ hi)
    × ((j : ℕ) → p ≤ j → j < p + count → is_free (state j) ≡ true)
    × ((a : ℕ) → a < p → Blocked state count a)

Search-taken :
    (state : Array VmPage) (count i run start : ℕ)
    → Search state count i run start
    → is_free (state i) ≡ false
    → Search state count (i + 1) 0 start
Search-taken state count i run start v h = record {
  short = omega (arith, v.short);
  bound = omega arith;
  starts = λ l. absurd (omega arith);
  free = λ j l u. absurd (omega arith);
  maximal = λ j e. let f : j ≡ i = omega arith in rw f h;
  missed = λ a l. elim (lt_cases i (a + count)) [
    | inl e ↦ (i, omega (arith, v.short), e, h)
    | inr e ↦ v.missed a e
  ];
}

Search-free :
    (state : Array VmPage) (count i run start start' : ℕ)
    → Search state count i run start
    → is_free (state i) ≡ true
    → run + 1 ≢ count
    → start' + (run + 1) ≡ i + 1
    → Search state count (i + 1) (run + 1) start'
Search-free state count i run start start' v h n e = record {
  short = omega (arith, v.short);
  bound = omega (arith, v.bound);
  starts = λ l. e;
  free = λ j l u. elim (eq_cases j i) [
    | inl f ↦ rw f h
    | inr f ↦ v.free j (omega arith) (omega arith)
  ];
  maximal = λ j f. v.maximal j (omega arith);
  missed = λ a l. elim (lt_cases i (a + count)) [
    | inl f ↦ (
      i - run - 1,
      omega (arith, v.short),
      omega (arith, v.short, v.bound),
      v.maximal (i - run - 1) (omega (arith, v.short)),
    )
    | inr f ↦ v.missed a f
  ];
}

find_run-FirstRun :
    (state : Array VmPage) (count n i run start hi : ℕ)
    → i + n ≡ hi
    → Search state count i run start
    → FirstRun state count hi (find_run state count n i run start)
unfolding find_run
find_run-FirstRun state count zero i run start hi e v = λ a l. v.missed a (omega arith)
find_run-FirstRun state count (suc n) i run start hi e v = elim (Bool-cases (is_free (state i))) [
  | inl f ↦ rw f (
      if_intro (FirstRun state count hi) (run + 1 == count) _ _
        (λ g.
          let p : run + 1 ≡ count = (==_iff (run + 1) count).0 g in
          (
            omega (arith, starts),
            (λ j l u. elim (eq_cases j i) [
              | inl k ↦ rw k f
              | inr k ↦ v.free j (omega (arith, starts)) (omega (arith, starts))
            ]),
            λ a l. v.missed a (omega (arith, starts)),
          ))
        (λ g.
          find_run-FirstRun state count n (i + 1) (run + 1) start' hi (omega arith)
            (Search-free state count i run start start' v f (ground arith) starts)))
  | inr f ↦ rw f (
      find_run-FirstRun state count n (i + 1) 0 start hi (omega arith)
        (Search-taken state count i run start v f))
]
  where
    start' : ℕ
    start' = if run == 0 then i else start

    starts : start' + (run + 1) ≡ i + 1
    starts = ground (arith, v.starts)

mark_lazy_lem :
    (n : ℕ) (state : Array VmPage) (j q : ℕ)
    → mark_lazy state n j q ≡ (if leb j q && ltb q (j + n) then VmPage.lazy else state q)
unfolding mark_lazy
mark_lazy_lem zero state j q = ground arith
mark_lazy_lem (suc n) state j q = mark_lazy_lem n _ (j + 1) q ∙ ground arith

-- What allocate_virtual_pages may return: the address of the first run of `count` free pages, with
-- those pages lazy, or 0 if there is no such run.
abbrev pub Allocated : Vm → ℕ → ℕ × Vm → Type 0
Allocated s count r =
    ((r ≡ (0, s)) × ((a : ℕ) → a + count ≤ heap_pages → Blocked s.vm_page_state count a))
    ⊎ ((p : ℕ) × (r.0 ≡ heap_base + p * 4096)
        × FirstRun s.vm_page_state count heap_pages (some p)
        × ((q : ℕ) → p ≤ q → q < p + count → r.1.vm_page_state q ≡ VmPage.lazy)
        × ((q : ℕ) → (q < p) ⊎ (p + count ≤ q) → r.1.vm_page_state q ≡ s.vm_page_state q)
        × (r.1.paging ≡ s.paging))

-- For a count from 1 to the size of the heap, allocate_virtual_pages returns the first run of that
-- many free pages and makes exactly these pages lazy, or returns 0 and changes nothing, and then
-- every run of that many pages of the heap has a page in use.
pub allocate_virtual_pages-Allocated :
    (s : Vm) (count : ℕ)
    → 0 < count
    → count ≤ heap_pages
    → Allocated s count (allocate_virtual_pages s count)
unfolding allocate_virtual_pages
allocate_virtual_pages-Allocated s count h k =
    rw (==_ne count 0 (omega arith), le→ltb heap_pages count k)
      (elim (Option-cases (find_run s.vm_page_state count heap_pages 0 0 0)) [
        | inl e ↦ rw e (inl (refl, rw e at found))
        | inr (p, e) ↦ rw e (
            inr (
              p,
              refl,
              rw e at found,
              (λ q l u. mark_lazy_lem count s.vm_page_state p q ∙ ground arith),
              (λ q o. mark_lazy_lem count s.vm_page_state p q ∙ ground arith),
              refl,
            ))
      ])
  where
    found :
        FirstRun s.vm_page_state count heap_pages (find_run s.vm_page_state count heap_pages 0 0 0)
    found = find_run-FirstRun s.vm_page_state count heap_pages 0 0 0 heap_pages refl (record {
      short = h;
      bound = omega arith;
      starts = λ l. absurd (omega arith);
      free = λ j l u. absurd (omega arith);
      maximal = λ j e. absurd (omega arith);
      missed = λ a l. absurd (omega arith);
    })

-- Freeing n pages in use, from page i on.
free_loop_lem :
    (n : ℕ) (s : Vm) (i : ℕ)
    → ((j : ℕ) → i ≤ j → j < i + n → is_free (s.vm_page_state j) ≡ false)
    → ((free_loop s n i).0 ≡ true)
      × ((q : ℕ)
          → (free_loop s n i).1.vm_page_state q
            ≡ (if leb i q && ltb q (i + n) then VmPage.free else s.vm_page_state q))
unfolding free_loop
free_loop_lem zero s i h = (refl, λ q. ground arith)
free_loop_lem (suc n) s i h =
    let freed : Vm = record {
      vm_page_state = update s.vm_page_state i VmPage.free;
      paging = drop_mapping s.paging (u32 (heap_base + i * 4096));
    } in
    let rest = free_loop_lem n freed (i + 1) (λ j l u. ground (arith, h j)) in
    rw (h i (omega arith) (omega arith)) (rest.0, λ q. rest.1 q ∙ ground arith)

-- The states of the pages after a run of pages in use is freed.
pub free_virtual_pages_states :
    (s : Vm) (p count : ℕ)
    → p + count ≤ heap_pages
    → ((j : ℕ) → p ≤ j → j < p + count → is_free (s.vm_page_state j) ≡ false)
    → ((free_virtual_pages s (heap_base + p * 4096) count).0 ≡ true)
      × ((q : ℕ)
          → (free_virtual_pages s (heap_base + p * 4096) count).1.vm_page_state q
            ≡ (if leb p q && ltb q (p + count) then VmPage.free else s.vm_page_state q))
unfolding free_virtual_pages
free_virtual_pages_states s p count h f = ground (arith, free_loop_lem count s p f)

-- Giving back a run that allocate_virtual_pages just returned, if it returned a nonzero address,
-- succeeds and leaves every page in the state that it had before.
pub free-allocate :
    (s : Vm) (count : ℕ)
    → 0 < count
    → count ≤ heap_pages
    → (allocate_virtual_pages s count).0 ≢ 0
    → (free_virtual_pages
          (allocate_virtual_pages s count).1
          (allocate_virtual_pages s count).0
          count).0
        ≡ true
      × ((q : ℕ)
          → (free_virtual_pages
                (allocate_virtual_pages s count).1
                (allocate_virtual_pages s count).0
                count).1.vm_page_state
              q
            ≡ s.vm_page_state q)
free-allocate s count h k n = elim (allocate_virtual_pages-Allocated s count h k) [
  | inl (e, _) ↦ absurd (n (ap (λ (r : ℕ × Vm). r.0) e))
  | inr (p, e, found, taken, others, _) ↦
      let freed =
        free_virtual_pages_states (allocate_virtual_pages s count).1 p count found.0
          (λ j l u. rw (taken j l u) lazy_not_free) in
      rw e (freed.0, λ q. freed.1 q ∙ same p found taken others q)
]
  where
    same :
        (p : ℕ)
        → FirstRun s.vm_page_state count heap_pages (some p)
        → ((q : ℕ)
            → p ≤ q
            → q < p + count
            → (allocate_virtual_pages s count).1.vm_page_state q ≡ VmPage.lazy)
        → ((q : ℕ)
            → (q < p) ⊎ (p + count ≤ q)
            → (allocate_virtual_pages s count).1.vm_page_state q ≡ s.vm_page_state q)
        → (q : ℕ)
        → (if leb p q && ltb q (p + count)
            then VmPage.free
            else (allocate_virtual_pages s count).1.vm_page_state q)
          ≡ s.vm_page_state q
    same p found taken others q = elim (lt_cases q p) [
      | inl l ↦ rw (lt→leb p q l) (others q (inl l))
      | inr l ↦ elim (lt_cases q (p + count)) [
        | inl u ↦ rw (le→leb p q l, lt→ltb q (p + count) u) (sym (is_free-eq _ (found.1 q l u)))
        | inr u ↦ rw (le→leb p q l, le→ltb q (p + count) u) (others q (inr u))
      ]
    ]
