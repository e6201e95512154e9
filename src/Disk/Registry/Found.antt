-- ===== src/Disk/Registry/Found.antt =====
-- A device that blkdev_register of fs/blkdev.c took is found by its name.
use coffee_os_aurora_refresh.Base.{
  ℕ, zero, suc, ◌+◌, ◌≤◌, ◌<◌, ◌≡◌, ◌≢◌, ◌⊎◌, inl, inr, refl, sym, ◌∙◌, ap, Bool, true, false, not,
  ◌&&◌, ◌||◌, Option, none, some, Array, update, eq_cases, Option-cases, Bool-cases, update_self,
  update_ne, ==_ne, arith, subst, lt→ltb,
}
use coffee_os_aurora_refresh.Base.Search.{first, First, first-First, First-unique}
use coffee_os_aurora_refresh.Disk.Registry.{
  BlockDevice, max_blkdevs, copy_name, blkdev_copy_name, name_eq, blkdev_name_eq, null, registered,
  blkdev_register, blkdev_get, blkdev_find,
}

-- A name with its end at index e.
abbrev pub EndsAt : Array ℕ → ℕ → Type 0
EndsAt name e = (name e ≡ 0) × ((j : ℕ) → j < e → name j ≢ 0)

copy_name-below : (n i : ℕ) (dst src : Array ℕ) (j : ℕ) → j < i → copy_name n i dst src j ≡ dst j
unfolding copy_name
copy_name-below zero i dst src j h = refl
copy_name-below (suc n) i dst src j h =
    let rest = copy_name-below n (i + 1) (update dst i (src i)) src j (omega arith) in
    let same = update_ne dst i j (src i) (λ e. absurd (omega arith)) in ground (arith, rest, same)

copy_name-step :
    (n i : ℕ) (dst src : Array ℕ)
    → i + 1 < 16
    → src i ≢ 0
    → copy_name (suc n) i dst src ≡ copy_name n (i + 1) (update dst i (src i)) src
unfolding copy_name
copy_name-step n i dst src h z = rw (lt→ltb (i + 1) 16 h, ==_ne (src i) 0 z) refl

pub copy_name-end :
    (n i e : ℕ) (dst src : Array ℕ)
    → EndsAt src e
    → e < 16
    → i ≤ e
    → e < i + n
    → (j : ℕ) → i ≤ j
    → j ≤ e
    → copy_name n i dst src j ≡ src j
unfolding copy_name
copy_name-end zero i e dst src z h l m j a b = absurd (omega arith)
copy_name-end (suc n) i e dst src z h l m j a b = elim (eq_cases i e) [
  | inl same ↦
      let zi : src i ≡ 0 = ap src same ∙ z.0 in
      let je : j ≡ e = omega arith in let zj : src j ≡ 0 = ap src je ∙ z.0 in ground (arith, zi, zj)
  | inr ne ↦
      let zi : src i ≢ 0 = z.1 i (omega arith) in
      elim (eq_cases j i) [
        | inl at_i ↦
            ap (λ (f : Array ℕ). f j) (copy_name-step n i dst src (omega arith) zi)
            ∙ copy_name-below n (i + 1) (update dst i (src i)) src j (omega arith)
            ∙ rw at_i (update_self dst i (src i))
        | inr past ↦
            ap (λ (f : Array ℕ). f j) (copy_name-step n i dst src (omega arith) zi)
            ∙ copy_name-end n (i + 1) e (update dst i (src i)) src z h (omega arith) (omega arith) j
                (omega arith) b
      ]
]

-- Equal names up to their end are found equal.
name_eq-same :
    (n i e : ℕ) (a b : Array ℕ)
    → EndsAt b e
    → i ≤ e
    → e < i + n
    → ((j : ℕ) → i ≤ j → j ≤ e → a j ≡ b j)
    → name_eq n i a b ≡ true
unfolding name_eq
name_eq-same zero i e a b z l m same = absurd (omega arith)
name_eq-same (suc n) i e a b z l m same = elim (eq_cases i e) [
  | inl here ↦
      let zb : b i ≡ 0 = ap b here ∙ z.0 in
      let za : a i ≡ 0 = same i (omega arith) l ∙ zb in ground (arith, za, zb)
  | inr ne ↦
      let zb : b i ≢ 0 = z.1 i (omega arith) in
      let eq : a i ≡ b i = same i (omega arith) l in
      let rest =
        name_eq-same n (i + 1) e a b z (omega arith) (omega arith)
          (λ j p q. same j (omega arith) q) in
      rw eq (ground (arith, zb, rest))
]

-- The copy in the registry has the device's name.
name_eq-copy_name :
    (name : Array ℕ) (e : ℕ)
    → EndsAt name e
    → e < 16
    → blkdev_name_eq (blkdev_copy_name name name) name ≡ true
unfolding blkdev_name_eq blkdev_copy_name
name_eq-copy_name name e z h =
    name_eq-same 16 0 e (copy_name 16 0 name name) name z (omega arith) (omega arith)
      (λ j p q. copy_name-end 16 0 e name name z h (omega arith) (omega arith) j p q)

abbrev or_zero : Option ℕ → ℕ
or_zero none = 0
or_zero (some k) = k

abbrev taken : Option ℕ → Bool
taken none = false
taken (some k) = true

module _ {Op : Type 0} where
  register_some :
      (table : Array (BlockDevice Op)) (dev : BlockDevice Op) (i : ℕ)
      → (null dev.read || null dev.write) ≡ false
      → first (λ i. not (table i).present) max_blkdevs 0 ≡ some i
      → blkdev_register table dev ≡ (some i, update table i (registered dev))
  unfolding blkdev_register
  register_some table dev i n e = rw (n, e) refl

  register_null :
      (table : Array (BlockDevice Op)) (dev : BlockDevice Op)
      → (null dev.read || null dev.write) ≡ true
      → blkdev_register table dev ≡ (none, table)
  unfolding blkdev_register
  register_null table dev n = rw n refl

  register_full :
      (table : Array (BlockDevice Op)) (dev : BlockDevice Op)
      → (null dev.read || null dev.write) ≡ false
      → first (λ i. not (table i).present) max_blkdevs 0 ≡ none
      → blkdev_register table dev ≡ (none, table)
  unfolding blkdev_register
  register_full table dev n e = rw (n, e) refl

  register_slot :
      (table t : Array (BlockDevice Op)) (dev : BlockDevice Op) (k : ℕ)
      → blkdev_register table dev ≡ (some k, t)
      → (first (λ i. not (table i).present) max_blkdevs 0 ≡ some k)
        × (t ≡ update table k (registered dev))
  register_slot table t dev k e = elim (Bool-cases (null dev.read || null dev.write)) [
    | inl n ↦ refused (register_null table dev n)
    | inr n ↦ elim (Option-cases (first (λ i. not (table i).present) max_blkdevs 0)) [
      | inl full ↦ refused (register_full table dev n full)
      | inr (i, at_i) ↦
          let both : (some i, update table i (registered dev)) ≡ (some k, t) =
            sym (register_some table dev i n at_i) ∙ e in
          let same : i ≡ k = ap (λ (p : Option ℕ × Array (BlockDevice Op)). or_zero p.0) both in
          (
            at_i ∙ ap some same,
            ap (λ (p : Option ℕ × Array (BlockDevice Op)). p.1) (sym both)
                ∙ ap (λ v. update table v (registered dev)) same,
          )
    ]
  ]
    where
      refused :
          blkdev_register table dev ≡ (none, table)
          → (first (λ i. not (table i).present) max_blkdevs 0 ≡ some k)
            × (t ≡ update table k (registered dev))
      refused r =
          let no : false ≡ true =
            ap (λ (p : Option ℕ × Array (BlockDevice Op)). taken p.0) (sym r ∙ e) in
          absurd cc

  -- A slot after blkdev_register: as it was, or free before and filled.
  pub register_step :
      (table : Array (BlockDevice Op)) (dev : BlockDevice Op) (k : ℕ)
      → ((blkdev_register table dev).1 k ≡ table k)
        ⊎ (((table k).present ≡ false) × ((blkdev_register table dev).1 k ≡ registered dev))
  register_step table dev k = elim (Bool-cases (null dev.read || null dev.write)) [
    | inl n ↦ inl (slot (register_null table dev n))
    | inr n ↦ elim (Option-cases (first (λ i. not (table i).present) max_blkdevs 0)) [
      | inl full ↦ inl (slot (register_full table dev n full))
      | inr (i, at_i) ↦
          let (lo, hi, open', before) =
            subst (First (λ i. not (table i).present) 0 max_blkdevs) at_i
              (first-First (λ i. not (table i).present) max_blkdevs 0 max_blkdevs refl) in
          elim (eq_cases i k) [
            | inl e ↦ inr (
              ap (λ v. (table v).present) (sym e) ∙ ground arith,
              slot (register_some table dev i n at_i) ∙ rw e (update_self table k (registered dev)),
            )
            | inr ne ↦
                inl (
                  slot (register_some table dev i n at_i) ∙ update_ne table i k (registered dev) ne)
          ]
    ]
  ]
    where
      slot :
          {r : Option ℕ × Array (BlockDevice Op)}
          → blkdev_register table dev ≡ r
          → (blkdev_register table dev).1 k ≡ r.1 k
      slot e = ap (λ (p : Option ℕ × Array (BlockDevice Op)). p.1 k) e

  -- A device with callbacks goes to a free slot, unless there is none.
  pub register_placed :
      (table : Array (BlockDevice Op)) (dev : BlockDevice Op)
      → (null dev.read || null dev.write) ≡ false
      → ((k : ℕ) × (k < max_blkdevs)
          × ((table k).present ≡ false)
          × ((blkdev_register table dev).1 k ≡ registered dev))
        ⊎ ((k : ℕ) → k < max_blkdevs → (table k).present ≡ true)
  register_placed table dev n =
      elim (Option-cases (first (λ i. not (table i).present) max_blkdevs 0)) [
        | inl full ↦
            let all : First (λ i. not (table i).present) 0 max_blkdevs none =
              subst (First (λ i. not (table i).present) 0 max_blkdevs) full
                (first-First (λ i. not (table i).present) max_blkdevs 0 max_blkdevs refl) in
            inr (λ k l. let at_k = all k (omega arith) l in ground arith)
        | inr (i, at_i) ↦
            let (lo, hi, open', before) =
              subst (First (λ i. not (table i).present) 0 max_blkdevs) at_i
                (first-First (λ i. not (table i).present) max_blkdevs 0 max_blkdevs refl) in
            inl (
              i,
              hi,
              ground arith,
              ap (λ (p : Option ℕ × Array (BlockDevice Op)). p.1 i)
                    (register_some table dev i n at_i)
                  ∙ update_self table i (registered dev),
            )
      ]

  -- blkdev_register and then blkdev_find and blkdev_get.
  pub find-register :
      (table t : Array (BlockDevice Op)) (dev : BlockDevice Op) (e k : ℕ)
      → EndsAt dev.name e
      → e < 16
      → blkdev_find table dev.name ≡ none
      → blkdev_register table dev ≡ (some k, t)
      → (k < max_blkdevs)
        × ((table k).present ≡ false)
        × (blkdev_find t dev.name ≡ some k)
        × (blkdev_get t k ≡ some (registered dev))
        × ((j : ℕ) → j ≢ k → t j ≡ table j)
  unfolding blkdev_find blkdev_get
  find-register table t dev e k z h absent r =
      let (free, same) = register_slot table t dev k r in
      let (lo, hi, open', before) =
        subst (First (λ i. not (table i).present) 0 max_blkdevs) free
          (first-First (λ i. not (table i).present) max_blkdevs 0 max_blkdevs refl) in
      let none_before =
        subst
          (First (λ i. (table i).present && blkdev_name_eq (table i).name dev.name) 0 max_blkdevs)
          absent
          (first-First (λ i. (table i).present && blkdev_name_eq (table i).name dev.name)
            max_blkdevs 0 max_blkdevs refl) in
      let at_k : t k ≡ registered dev =
        ap (λ (f : Array (BlockDevice Op)). f k) same ∙ update_self table k (registered dev) in
      let others : (j : ℕ) → j ≢ k → t j ≡ table j = λ j n.
        ap (λ (f : Array (BlockDevice Op)). f j) same
        ∙ update_ne table k j (registered dev) (λ q. n (sym q)) in
      (
        hi,
        ground arith,
        First-unique (λ i. (t i).present && blkdev_name_eq (t i).name dev.name) 0 max_blkdevs
            (first (λ i. (t i).present && blkdev_name_eq (t i).name dev.name) max_blkdevs 0)
            (some k)
            (first-First (λ i. (t i).present && blkdev_name_eq (t i).name dev.name) max_blkdevs 0
              max_blkdevs refl)
            (
              lo,
              hi,
              rw at_k (name_eq-copy_name dev.name e z h),
              λ j a b. rw (others j (λ q. absurd (omega arith))) (none_before j a (omega arith)),
            ),
        rw (lt→ltb k max_blkdevs hi, at_k) refl,
        others,
      )
