-- ===== src/Fat/Table/Search.antt =====
-- The search for a free cluster as a function of the table: the first one in the cyclic order.
use coffee_os_aurora_refresh.Base.{
  ℕ, zero, suc, ◌+◌, ◌-◌, ◌<◌, ◌≡◌, ◌≢◌, inl, inr, refl, sym, ◌∙◌, ap, subst, true, Option, none,
  some, leb, ◌==◌, if◌then◌else◌, if_intro, eq_cases, arith,
}
use coffee_os_aurora_refresh.Fat.Cache.{Fat32Volume}
use coffee_os_aurora_refresh.Fat.Table.{fat32_bad, in_volume, next_cluster}

-- The first free cluster of a table `f` in the cyclic order from a cluster on.
unfoldable pub free_from : Fat32Volume → (ℕ → ℕ) → ℕ → ℕ → Option ℕ
free_from vol f zero c = none
free_from vol f (suc n) c =
    let rest = free_from vol f n (next_cluster vol c) in if f c == 0 then some c else rest

-- How far the search is from a cluster.
abbrev distance : ℕ → ℕ → ℕ → ℕ
distance total c e = if leb c e then e - c else e + total - c

pub next_range :
    (vol : Fat32Volume) (c : ℕ)
    → vol.total_clusters + 1 < fat32_bad
    → in_volume vol c ≡ true
    → in_volume vol (next_cluster vol c) ≡ true
next_range vol c h e = ground arith

next_distance :
    (vol : Fat32Volume) (c e n : ℕ)
    → vol.total_clusters + 1 < fat32_bad
    → in_volume vol c ≡ true
    → in_volume vol e ≡ true
    → e ≢ c
    → distance vol.total_clusters c e < suc n
    → distance vol.total_clusters (next_cluster vol c) e < n
next_distance vol c e n h ic ie ne d = ground arith

start_distance :
    (vol : Fat32Volume) (c e : ℕ)
    → vol.total_clusters + 1 < fat32_bad
    → in_volume vol c ≡ true
    → in_volume vol e ≡ true
    → distance vol.total_clusters c e < vol.total_clusters
start_distance vol c e h ic ie = ground arith

-- What the reference search gives: no free cluster within reach, or a free one.
abbrev FreeFrom : Fat32Volume → (ℕ → ℕ) → ℕ → ℕ → Option ℕ → Type 0
FreeFrom vol f n c none =
    (e : ℕ) → in_volume vol e ≡ true → distance vol.total_clusters c e < n → f e ≢ 0
FreeFrom vol f n c (some k) = (in_volume vol k ≡ true) × (f k ≡ 0)

FreeFrom-step :
    (vol : Fat32Volume) (f : ℕ → ℕ) (n c : ℕ) (r : Option ℕ)
    → vol.total_clusters + 1 < fat32_bad
    → in_volume vol c ≡ true
    → f c ≢ 0
    → FreeFrom vol f n (next_cluster vol c) r
    → FreeFrom vol f (suc n) c r
FreeFrom-step vol f n c none h i z v = λ e ie d. elim (eq_cases e c) [
  | inl same ↦ λ k. z (ap f (sym same) ∙ k)
  | inr ne ↦ v e ie (next_distance vol c e n h i ie ne d)
]
FreeFrom-step vol f n c (some k) h i z v = v

free_from_lem :
    (vol : Fat32Volume) (f : ℕ → ℕ) (n c : ℕ)
    → vol.total_clusters + 1 < fat32_bad
    → in_volume vol c ≡ true
    → FreeFrom vol f n c (free_from vol f n c)
unfolding free_from
free_from_lem vol f zero c h i = λ e ie d. absurd (omega arith)
free_from_lem vol f (suc n) c h i =
    let rest : FreeFrom vol f n (next_cluster vol c) (free_from vol f n (next_cluster vol c)) =
      free_from_lem vol f n (next_cluster vol c) h (next_range vol c h i) in
    if_intro (FreeFrom vol f (suc n) c) (f c == 0) (some c) (free_from vol f n (next_cluster vol c))
      (λ e. (i, ground arith))
      (λ e.
        FreeFrom-step vol f n c (free_from vol f n (next_cluster vol c)) h i
          (λ z. absurd (ground arith)) rest)

-- A search of the whole volume fails only when no cluster is free.
pub free_from-all :
    (vol : Fat32Volume) (f : ℕ → ℕ) (c : ℕ)
    → vol.total_clusters + 1 < fat32_bad
    → in_volume vol c ≡ true
    → free_from vol f vol.total_clusters c ≡ none
    → (e : ℕ) → in_volume vol e ≡ true
    → f e ≢ 0
free_from-all vol f c h i none' e ie =
    subst (FreeFrom vol f vol.total_clusters c) none' (free_from_lem vol f vol.total_clusters c h i)
      e ie (start_distance vol c e h i ie)

pub free_from-some :
    (vol : Fat32Volume) (f : ℕ → ℕ) (n c k : ℕ)
    → vol.total_clusters + 1 < fat32_bad
    → in_volume vol c ≡ true
    → free_from vol f n c ≡ some k
    → (in_volume vol k ≡ true) × (f k ≡ 0)
free_from-some vol f n c k h i e = subst (FreeFrom vol f n c) e (free_from_lem vol f n c h i)

-- A reading of the table leaves the reference search as it is.
pub free_from-agree :
    (vol : Fat32Volume) (f g : ℕ → ℕ) (n c : ℕ)
    → vol.total_clusters + 1 < fat32_bad
    → in_volume vol c ≡ true
    → ((e : ℕ) → in_volume vol e ≡ true → f e ≡ g e)
    → free_from vol f n c ≡ free_from vol g n c
unfolding free_from
free_from-agree vol f g zero c h i a = refl
free_from-agree vol f g (suc n) c h i a =
    rw (a c i, free_from-agree vol f g n (next_cluster vol c) h (next_range vol c h i) a) refl
