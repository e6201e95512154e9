-- ===== src/Fat/Table/Alloc.antt =====
-- fat32_alloc_cluster of fs/fat32.c: the cyclic search for a free cluster, which is taken.
use coffee_os_aurora_refresh.Base.{
  ℕ, zero, suc, ◌+◌, ◌-◌, ◌<◌, ◌≡◌, ◌≢◌, ◌⊎◌, inl, inr, refl, subst, true, false, Option, none,
  some, ◌==◌, if◌then◌else◌, if_intro, ==_ne, arith,
}
use coffee_os_aurora_refresh.Base.Fallible.{M}
use coffee_os_aurora_refresh.Disk.{Disks, IsDisks}
use coffee_os_aurora_refresh.Fat.Cache.{Fat32Volume, Fat}
use coffee_os_aurora_refresh.Fat.Cache.View.{Coherent}
use coffee_os_aurora_refresh.Fat.Table.{
  fat32_bad, fat32_eoc, in_volume, masked, next_cluster, fat32_read_fat, fat32_write_fat,
  set_counters, fat32_write_barrier, take_cluster, search_free, fat32_alloc_cluster,
}
use coffee_os_aurora_refresh.Fat.Table.View.{VolumeOk}
use coffee_os_aurora_refresh.Fat.Table.Entries.{Store, at}
use coffee_os_aurora_refresh.Fat.Table.Copies.{
  entry, Becomes, Becomes-trans, fat32_read_fat-entry, fat32_write_fat-entry,
}
use coffee_os_aurora_refresh.Fat.Table.Barrier.{Durable, fat32_write_barrier-Becomes}
use coffee_os_aurora_refresh.Fat.Table.Search.{
  free_from, next_range, free_from-all, free_from-some, free_from-agree,
}

-- The state with other counters.
abbrev pub counted : {D : Type 0} → Fat D → ℕ → ℕ → Fat D
counted s free next = record s { vol = record (s.vol) { free_clusters = free; next_free = next } }

module _ {D : Type 0} (disks : Disks D) (is : IsDisks disks) where
  open is use {accepts, holds}

  pub Becomes-counted :
      (s : Fat D) (y : Store D) (free next : ℕ) (g : ℕ → ℕ → ℕ)
      → Becomes disks is (counted s free next) y g
      → Becomes disks is s y g
  Becomes-counted s y free next g p = record {
    coherent = p.coherent;
    entries = p.entries;
    rest = p.rest;
  }

  pub VolumeOk-counted :
      (s : Fat D) (free next : ℕ)
      → VolumeOk accepts s.vol
      → VolumeOk accepts (counted s free next).vol
  VolumeOk-counted s free next ok = record {
    clusters = ok.clusters;
    fits = ok.fits;
    info = ok.info;
    backup = ok.backup;
    second = ok.second;
    behind = ok.behind;
    size = ok.size;
    takes = ok.takes;
  }

  take_cluster_lem :
      (s : Fat D) (c : ℕ)
      → VolumeOk accepts s.vol
      → Coherent disks is s
      → in_volume s.vol c ≡ true
      → (y : Store D) × (take_cluster disks c s
          ≡ (some c, at (counted s (s.vol.free_clusters - 1) (next_cluster s.vol c)) y))
        × Becomes disks is s y (λ e v. if e == c then fat32_eoc else v)
        × Durable disks is s y
  unfolding take_cluster set_counters
  take_cluster_lem s c ok k h =
      let (y, e, p) = fat32_write_fat-entry disks is s c fat32_eoc ok k h in
      let u = counted (at s y) (s.vol.free_clusters - 1) (next_cluster s.vol c) in
      then' y e p (
        fat32_write_barrier-Becomes disks is u
          (VolumeOk-counted (at s y) (s.vol.free_clusters - 1) (next_cluster s.vol c) ok)
          p.coherent)
    where
      then' :
          (y : Store D)
          → fat32_write_fat disks c fat32_eoc s ≡ (some tt, at s y)
          → Becomes disks is s y (λ e v. if e == c then masked fat32_eoc else v)
          → (z : Store D) × (fat32_write_barrier disks
                (counted (at s y) (s.vol.free_clusters - 1) (next_cluster s.vol c))
              ≡ (some tt, at (counted (at s y) (s.vol.free_clusters - 1) (next_cluster s.vol c)) z))
            × Becomes disks is
                (counted (at s y) (s.vol.free_clusters - 1) (next_cluster s.vol c))
                z
                (λ e v. v)
            × Durable disks is (counted (at s y) (s.vol.free_clusters - 1) (next_cluster s.vol c)) z
          → (y : Store D) × (take_cluster disks c s
              ≡ (some c, at (counted s (s.vol.free_clusters - 1) (next_cluster s.vol c)) y))
            × Becomes disks is s y (λ e v. if e == c then fat32_eoc else v)
            × Durable disks is s y
      then' y e p (z, f, q, d) = (
        z,
        rw (e, f) refl,
        Becomes-trans disks is s y z (λ e v. if e == c then masked fat32_eoc else v) (λ e v. v) p
            (Becomes-counted (at s y) z (s.vol.free_clusters - 1) (next_cluster s.vol c) (λ e v. v)
              q),
        d,
      )

  -- What the search of the driver does, by what the reference search gives.
  abbrev pub Searched : M (Fat D) ℕ → Fat D → Option ℕ → Type 0
  Searched m s none = (y : Store D) × (m s ≡ (none, at s y)) × Becomes disks is s y (λ e v. v)
  Searched m s (some k) =
      (y : Store D) × (m s
        ≡ (some k, at (counted s (s.vol.free_clusters - 1) (next_cluster s.vol k)) y))
      × Becomes disks is s y (λ e v. if e == k then fat32_eoc else v)
      × Durable disks is s y

  search_hit :
      (n c : ℕ) (s : Fat D) (y : Store D)
      → fat32_read_fat disks c s ≡ (some (entry disks is s true c), at s y)
      → Becomes disks is s y (λ e v. v)
      → entry disks is s true c ≡ 0
      → Searched (take_cluster disks c) (at s y) (some c)
      → Searched (search_free disks (suc n) c) s (some c)
  unfolding search_free
  search_hit n c s y e p free (z, f, q, d) = (
    z,
    rw (e, free, f) refl,
    Becomes-trans disks is s y z (λ e v. v) (λ e v. if e == c then fat32_eoc else v) p q,
    d,
  )

  search_miss :
      (n c : ℕ) (s : Fat D) (y : Store D) (r : Option ℕ)
      → fat32_read_fat disks c s ≡ (some (entry disks is s true c), at s y)
      → Becomes disks is s y (λ e v. v)
      → (entry disks is s true c == 0) ≡ false
      → Searched (search_free disks n (next_cluster s.vol c)) (at s y) r
      → Searched (search_free disks (suc n) c) s r
  unfolding search_free
  search_miss n c s y none e p taken (z, f, q) =
      (z, rw (e, taken, f) refl, Becomes-trans disks is s y z (λ e v. v) (λ e v. v) p q)
  search_miss n c s y (some k) e p taken (z, f, q, d) = (
    z,
    rw (e, taken, f) refl,
    Becomes-trans disks is s y z (λ e v. v) (λ e v. if e == k then fat32_eoc else v) p q,
    d,
  )

  search_free_lem :
      (n c : ℕ) (s : Fat D)
      → VolumeOk accepts s.vol
      → Coherent disks is s
      → in_volume s.vol c ≡ true
      → Searched (search_free disks n c) s (free_from s.vol (entry disks is s true) n c)
  unfolding free_from search_free
  search_free_lem zero c s ok k h = (
    record { cache = s.sector_cache; disk = s.disk },
    refl,
    record { coherent = k; entries = λ first e i. refl; rest = λ l i. refl },
  )
  search_free_lem (suc n) c s ok k h =
      let (y, e, p) = fat32_read_fat-entry disks is s c ok k h in
      let hit : Searched (take_cluster disks c) (at s y) (some c) =
        take_cluster_lem (at s y) c ok p.coherent h in
      let miss : Searched (search_free disks n (next_cluster s.vol c)) (at s y)
          (free_from s.vol (entry disks is (at s y) true) n (next_cluster s.vol c)) =
        search_free_lem n (next_cluster s.vol c) (at s y) ok p.coherent
          (next_range s.vol c ok.clusters h) in
      if_intro (Searched (search_free disks (suc n) c) s) (entry disks is s true c == 0) (some c)
        (free_from s.vol (entry disks is s true) n (next_cluster s.vol c))
        (λ z. search_hit n c s y e p (ground arith) hit)
        (λ z.
          search_miss n c s y (free_from s.vol (entry disks is s true) n (next_cluster s.vol c)) e p
            z
            (subst (Searched (search_free disks n (next_cluster s.vol c)) (at s y))
              (free_from-agree s.vol (entry disks is (at s y) true) (entry disks is s true) n
                (next_cluster s.vol c) ok.clusters (next_range s.vol c ok.clusters h)
                (λ e i. p.entries true e i))
              miss))

  -- Where the search starts.
  abbrev pub search_start : Fat32Volume → ℕ
  search_start vol = if in_volume vol vol.next_free then vol.next_free else 2

  search_start_range :
      (vol : Fat32Volume)
      → vol.total_clusters + 1 < fat32_bad
      → vol.total_clusters ≢ 0
      → in_volume vol (search_start vol) ≡ true
  search_start_range vol h n = ground arith

  alloc_search :
      (s : Fat D) (r : Option ℕ)
      → s.vol.total_clusters ≢ 0
      → Searched
          (search_free disks s.vol.total_clusters (search_start s.vol))
          (counted s s.vol.free_clusters (search_start s.vol))
          r
      → ((y : Store D) × (fat32_alloc_cluster disks s
            ≡ (none, at (counted s s.vol.free_clusters (search_start s.vol)) y))
          × Becomes disks is s y (λ e v. v)
          × (r ≡ none))
        ⊎ ((k : ℕ) × (y : Store D) × (fat32_alloc_cluster disks s
              ≡ (some k, at (counted s (s.vol.free_clusters - 1) (next_cluster s.vol k)) y))
            × Becomes disks is s y (λ e v. if e == k then fat32_eoc else v)
            × Durable disks is s y
            × (r ≡ some k))
  unfolding fat32_alloc_cluster set_counters
  alloc_search s none n (y, e, p) = inl (
    y,
    rw (==_ne s.vol.total_clusters 0 n, e) refl,
    Becomes-counted s y s.vol.free_clusters (search_start s.vol) (λ e v. v) p,
    refl,
  )
  alloc_search s (some k) n (y, e, p, d) = inr (
    k,
    y,
    rw (==_ne s.vol.total_clusters 0 n, e) refl,
    Becomes-counted s y s.vol.free_clusters (search_start s.vol)
        (λ e v. if e == k then fat32_eoc else v) p,
    d,
    refl,
  )

  -- fat32_alloc_cluster.
  pub fat32_alloc_cluster-free :
      (s : Fat D)
      → VolumeOk accepts s.vol
      → Coherent disks is s
      → s.vol.total_clusters ≢ 0
      → ((y : Store D) × (fat32_alloc_cluster disks s
            ≡ (none, at (counted s s.vol.free_clusters (search_start s.vol)) y))
          × Becomes disks is s y (λ e v. v)
          × ((e : ℕ) → in_volume s.vol e ≡ true → entry disks is s true e ≢ 0))
        ⊎ ((k : ℕ) × (y : Store D) × (fat32_alloc_cluster disks s
              ≡ (some k, at (counted s (s.vol.free_clusters - 1) (next_cluster s.vol k)) y))
            × Becomes disks is s y (λ e v. if e == k then fat32_eoc else v)
            × Durable disks is s y
            × (in_volume s.vol k ≡ true)
            × (entry disks is s true k ≡ 0)
            × (free_from s.vol (entry disks is s true) s.vol.total_clusters (search_start s.vol)
                ≡ some k))
  unfolding free_from
  fat32_alloc_cluster-free s ok c n =
      let i = search_start_range s.vol ok.clusters n in
      elim (alloc_search s
        (free_from s.vol (entry disks is s true) s.vol.total_clusters (search_start s.vol)) n
        (search_free_lem s.vol.total_clusters (search_start s.vol)
          (counted s s.vol.free_clusters (search_start s.vol))
          (VolumeOk-counted s s.vol.free_clusters (search_start s.vol) ok) c i)) [
            | inl (y, e, p, r) ↦ inl (
              y,
              e,
              p,
              free_from-all s.vol (entry disks is s true) (search_start s.vol) ok.clusters i r,
            )
            | inr (k, y, e, p, d, r) ↦
                let (a, b) =
                  free_from-some s.vol (entry disks is s true) s.vol.total_clusters
                    (search_start s.vol) k ok.clusters i r in
                inr (k, y, e, p, d, a, b, r)
          ]
