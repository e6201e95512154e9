-- ===== src/Fat/Table/FsInfo.antt =====
-- The contents of the FSInfo sectors that fat32_update_fsinfo of fs/fat32.c writes.
use coffee_os_aurora_refresh.Base.{
  ℕ, ◌≡◌, inl, refl, sym, ◌∙◌, subst, ◌&&◌, ◌==◌, if_intro, ==_self, u32, arith,
}
use coffee_os_aurora_refresh.Base.Bytes.{get32, put32, get32-put32, get32-put32_away}
use coffee_os_aurora_refresh.Disk.{Sector}
use coffee_os_aurora_refresh.Fat.Table.{fsinfo_sector}
use coffee_os_aurora_refresh.Fat.Table.View.{set_block}

-- A sector with the signatures "RRaA" and "rrAa" and two counters.
pub record FsInfo (x : Sector) (free next : ℕ) : Type 0 where
  pub lead : get32 x 0 ≡ 0x41615252
  pub signature : get32 x 484 ≡ 0x61417272
  pub free_clusters : get32 x 488 ≡ u32 free
  pub next_free : get32 x 492 ≡ u32 next

Signed : Sector → Type 0
Signed x = (get32 x 0 ≡ 0x41615252) × (get32 x 484 ≡ 0x61417272)

counted-FsInfo :
    (x : Sector) (free next : ℕ) → Signed x → FsInfo (put32 (put32 x 488 free) 492 next) free next
unfolding Signed
counted-FsInfo x free next (h, k) = record {
  lead =
      get32-put32_away (put32 x 488 free) 492 next 0 (inl (omega arith))
      ∙ get32-put32_away x 488 free 0 (inl (omega arith))
      ∙ h;
  signature =
      get32-put32_away (put32 x 488 free) 492 next 484 (inl (omega arith))
      ∙ get32-put32_away x 488 free 484 (inl (omega arith))
      ∙ k;
  free_clusters =
      get32-put32_away (put32 x 488 free) 492 next 488 (inl (omega arith)) ∙ get32-put32 x 488 free;
  next_free = get32-put32 (put32 x 488 free) 492 next;
}

new_info : Sector
new_info = put32 (put32 (put32 (λ i. 0) 0 1096897106) 484 1631679090) 508 2857697280

new_info-Signed : Signed new_info
unfolding Signed new_info
new_info-Signed = (
  get32-put32_away (put32 (put32 (λ i. 0) 0 1096897106) 484 1631679090) 508 2857697280 0
        (inl (omega arith))
      ∙ get32-put32_away (put32 (λ i. 0) 0 1096897106) 484 1631679090 0 (inl (omega arith))
      ∙ get32-put32 (λ i. 0) 0 1096897106,
  get32-put32_away (put32 (put32 (λ i. 0) 0 1096897106) 484 1631679090) 508 2857697280 484
        (inl (omega arith))
      ∙ get32-put32 (put32 (λ i. 0) 0 1096897106) 484 1631679090,
)

pub fsinfo_sector-FsInfo :
    (x : Sector) (free next : ℕ) → FsInfo (fsinfo_sector x free next) free next
unfolding fsinfo_sector new_info Signed
fsinfo_sector-FsInfo x free next = counted-FsInfo _ free next (
    if_intro Signed (get32 x 0 == 1096897106 && get32 x 484 == 1631679090) x new_info
      (λ e. (ground arith, ground arith)) (λ e. new_info-Signed))

-- After both blocks are written, whichever of them was written last, each holds the sector.
pub written-FsInfo :
    (before between after : ℕ → Sector) (l1 l2 : ℕ) (x : Sector) (free next : ℕ)
    → FsInfo x free next
    → ((l : ℕ) → between l ≡ set_block before l1 x l)
    → ((l : ℕ) → after l ≡ set_block between l2 x l)
    → FsInfo (after l1) free next × FsInfo (after l2) free next
written-FsInfo before between after l1 l2 x free next h r t = (
  subst Holds (sym (t l1)) (
      if_intro Holds (l1 == l2) x (between l1) (λ e. h)
        (λ e. subst Holds (sym (r l1 ∙ rw (==_self l1) refl)) h)),
  subst Holds (sym (t l2 ∙ rw (==_self l2) refl)) h,
)
  where
    Holds : Sector → Type 0
    Holds y = FsInfo y free next
