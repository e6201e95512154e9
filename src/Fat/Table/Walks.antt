-- ===== src/Fat/Table/Walks.antt =====
-- The walks over cluster chains of fs/fat32.c: fat32_chain_length and fat32_get_nth_cluster.
use coffee_os_aurora_refresh.Base.{
  ℕ, zero, suc, ◌+◌, ◌≤◌, ◌<◌, ◌≡◌, refl, ap, subst, true, some, List, [], ◌∷◌, length, get_or,
  le→ltb, arith,
}
use coffee_os_aurora_refresh.Base.Fallible.{M}
use coffee_os_aurora_refresh.Disk.{Disks, IsDisks}
use coffee_os_aurora_refresh.Fat.Cache.{Fat}
use coffee_os_aurora_refresh.Fat.Cache.View.{Coherent}
use coffee_os_aurora_refresh.Fat.Table.{
  fat32_bad, length_loop, fat32_chain_length, nth_loop, fat32_get_nth_cluster,
}
use coffee_os_aurora_refresh.Fat.Table.View.{VolumeOk}
use coffee_os_aurora_refresh.Fat.Table.Entries.{Store, at, cluster_bounds}
use coffee_os_aurora_refresh.Fat.Table.Copies.{entry, Becomes, Becomes-trans, fat32_read_fat-entry}
use coffee_os_aurora_refresh.Fat.Table.Chains.{Chain, Chain-low, Chain-agree}

module _ {D : Type 0} (disks : Disks D) (is : IsDisks disks) where
  open is use {accepts}

  -- A call that gives a value and changes no entry.
  abbrev pub Reads : M (Fat D) ℕ → Fat D → ℕ → Type 0
  Reads m s v = (y : Store D) × (m s ≡ (some v, at s y)) × Becomes disks is s y (λ e w. w)

  -- The state as it is.
  abbrev pub stay : Fat D → Store D
  stay s = record { cache = s.sector_cache; disk = s.disk }

  pub stay-Becomes : (s : Fat D) → Coherent disks is s → Becomes disks is s (stay s) (λ e w. w)
  stay-Becomes s k = record { coherent = k; entries = λ first e i. refl; rest = λ l i. refl }

  pub Chain-read :
      (s : Fat D) (y : Store D) (c : ℕ) (r : List ℕ)
      → Becomes disks is s y (λ e w. w)
      → Chain s.vol (entry disks is s true) c r
      → Chain s.vol (entry disks is (at s y) true) c r
  Chain-read s y c r p =
      Chain-agree s.vol (entry disks is s true) (entry disks is (at s y) true) c r
        (λ e m i. p.entries true e i)

  length_loop_lem :
      (n c k : ℕ) (r : List ℕ) (s : Fat D)
      → VolumeOk accepts s.vol
      → Coherent disks is s
      → length r < n
      → Chain s.vol (entry disks is s true) c r
      → Reads (length_loop disks n c k) s (suc (length r) + k)
  unfolding length_loop
  length_loop_lem zero c k r s ok q h p = absurd (omega arith)
  length_loop_lem (suc n) c k [] s ok q h (i, l) =
      let (y, e, p) = fat32_read_fat-entry disks is s c ok q i in
      (y, rw (i, e, l) (ap (λ v. (some v, at s y)) (omega arith)), p)
  length_loop_lem (suc n) c k (d ∷ r) s ok q h (i, a, l, rest) =
      let (y, e, p) = fat32_read_fat-entry disks is s c ok q i in
      let (z, f, t) =
        length_loop_lem n d (k + 1) r (at s y) ok p.coherent (omega arith)
          (Chain-read s y d r p rest) in
      (
        z,
        rw (i, e, a, l, f) (ap (λ v. (some v, at s z)) (omega arith)),
        Becomes-trans disks is s y z (λ e w. w) (λ e w. w) p t,
      )

  -- fat32_chain_length of a chain.
  pub fat32_chain_length-length :
      (s : Fat D) (c : ℕ) (r : List ℕ)
      → VolumeOk accepts s.vol
      → Coherent disks is s
      → length r < s.vol.total_clusters
      → Chain s.vol (entry disks is s true) c r
      → Reads (fat32_chain_length disks c) s (length (c ∷ r))
  unfolding fat32_chain_length
  fat32_chain_length-length s c r ok q h p =
      subst (Reads (fat32_chain_length disks c) s) (omega arith)
        (length_loop_lem s.vol.total_clusters c 0 r s ok q h p)

  nth_loop_lem :
      (n safety c : ℕ) (r : List ℕ) (s : Fat D)
      → VolumeOk accepts s.vol
      → Coherent disks is s
      → length r < safety
      → Chain s.vol (entry disks is s true) c r
      → Reads (nth_loop disks n safety c) s (get_or (c ∷ r) n fat32_bad)
  unfolding nth_loop
  nth_loop_lem zero safety c r s ok q h p = (stay s, refl, stay-Becomes s q)
  nth_loop_lem (suc n) zero c r s ok q h p = absurd (omega arith)
  nth_loop_lem (suc n) (suc safety) c [] s ok q h (i, l) =
      let (y, e, p) = fat32_read_fat-entry disks is s c ok q i in (y, rw (e, l) refl, p)
  nth_loop_lem (suc n) (suc safety) c (d ∷ r) s ok q h (i, a, l, rest) =
      let (y, e, p) = fat32_read_fat-entry disks is s c ok q i in
      let (z, f, t) =
        nth_loop_lem n safety d r (at s y) ok p.coherent (omega arith)
          (Chain-read s y d r p rest) in
      (z, rw (e, a, l, f) refl, Becomes-trans disks is s y z (λ e w. w) (λ e w. w) p t)

  -- On a volume that is laid out as VolumeOk says, with a coherent cache, and for a chain with a
  -- tail shorter than the volume's cluster count: fat32_get_nth_cluster returns the chain's n-th
  -- cluster, or FAT32_BAD when the chain has no more than n, and changes no entry and no data
  -- block.
  pub fat32_get_nth_cluster-get_or :
      (s : Fat D) (c n : ℕ) (r : List ℕ)
      → VolumeOk accepts s.vol
      → Coherent disks is s
      → length r < s.vol.total_clusters
      → Chain s.vol (entry disks is s true) c r
      → Reads (fat32_get_nth_cluster disks c n) s (get_or (c ∷ r) n fat32_bad)
  unfolding fat32_get_nth_cluster
  fat32_get_nth_cluster-get_or s c n r ok q h p =
      let low : 2 ≤ c =
        (cluster_bounds s.vol c ok.clusters (Chain-low s.vol (entry disks is s true) c r p)).0 in
      let (y, e, b) = nth_loop_lem n s.vol.total_clusters c r s ok q h p in
      (y, rw (le→ltb c 2 low, e) refl, b)
