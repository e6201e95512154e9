-- ===== src/Fat/Table/Freeing.antt =====
-- fat32_free_chain of fs/fat32.c.
use coffee_os_aurora_refresh.Base.{
  ℕ, zero, suc, ◌+◌, ◌≤◌, ◌<◌, ◌≡◌, refl, ◌∙◌, subst, true, false, ◌||◌, some, List, [], ◌∷◌,
  length, ltb, ◌==◌, if◌then◌else◌, ==_ne, le→ltb, u32, arith,
}
use coffee_os_aurora_refresh.Disk.{Disks, IsDisks}
use coffee_os_aurora_refresh.Fat.Cache.{Fat}
use coffee_os_aurora_refresh.Fat.Cache.View.{Coherent}
use coffee_os_aurora_refresh.Fat.Table.{
  in_volume, fat32_read_fat, fat32_write_fat, fat32_write_barrier, set_counters, free_loop,
  fat32_free_chain,
}
use coffee_os_aurora_refresh.Fat.Table.View.{VolumeOk}
use coffee_os_aurora_refresh.Fat.Table.Entries.{Store, at, cluster_bounds}
use coffee_os_aurora_refresh.Fat.Table.Copies.{
  entry, Becomes, Becomes-trans, Becomes-eq, fat32_read_fat-entry, fat32_write_fat-entry,
}
use coffee_os_aurora_refresh.Fat.Table.Barrier.{Durable, fat32_write_barrier-Becomes}
use coffee_os_aurora_refresh.Fat.Table.Chains.{Chain, Chain-low, among, Chain-agree, Chain-once}
use coffee_os_aurora_refresh.Fat.Table.Alloc.{counted, Becomes-counted, VolumeOk-counted}

module _ {D : Type 0} (disks : Disks D) (is : IsDisks disks) where
  open is use {accepts}

  -- One round of the loop: the entry read, and then freed.
  free_entry :
      (s : Fat D) (c : ℕ)
      → VolumeOk accepts s.vol
      → Coherent disks is s
      → in_volume s.vol c ≡ true
      → (x y : Store D) × (fat32_read_fat disks c s ≡ (some (entry disks is s true c), at s x))
        × (fat32_write_fat disks c 0 (at s x) ≡ (some tt, at s y))
        × Becomes disks is s y (λ e v. if e == c then 0 else v)
  free_entry s c ok k i =
      let (x, e, p) = fat32_read_fat-entry disks is s c ok k i in
      let (y, f, q) = fat32_write_fat-entry disks is (at s x) c 0 ok p.coherent i in
      (x, y, e, f, Becomes-trans disks is s x y (λ e v. v) (λ e v. if e == c then 0 else v) p q)

  away :
      (g c d : ℕ) (r : List ℕ) → among (d ∷ r) g ≡ true → among (d ∷ r) c ≡ false → (g == c) ≡ false
  away g c d r m once =
      ==_ne g c (λ z.
        let m' : among (d ∷ r) c ≡ true = subst (λ v. among (d ∷ r) v ≡ true) z m in absurd cc)

  free_loop_lem :
      (n c : ℕ) (r : List ℕ) (s : Fat D)
      → VolumeOk accepts s.vol
      → Coherent disks is s
      → length r < n
      → Chain s.vol (entry disks is s true) c r
      → (y : Store D) × (free_loop disks n c s ≡ (some (length (c ∷ r)), at s y))
        × Becomes disks is s y (λ e v. if among (c ∷ r) e then 0 else v)
  unfolding free_loop
  free_loop_lem zero c r s ok k h p = absurd (omega arith)
  free_loop_lem (suc n) c [] s ok k h (i, l) =
      let (x, y, e, f, q) = free_entry s c ok k i in
      (
        y,
        rw (i, e, f, l) refl,
        Becomes-eq disks is s y (λ e v. if e == c then 0 else v)
            (λ e v. if among (c ∷ []) e then 0 else v) (λ e v. ground arith) q,
      )
  free_loop_lem (suc n) c (d ∷ r) s ok k h (i, a, l, rest) =
      let (x, y, e, f, q) = free_entry s c ok k i in
      let once : among (d ∷ r) c ≡ false =
        Chain-once s.vol (entry disks is s true) c d r (i, a, l, rest) in
      let rest' : Chain s.vol (entry disks is (at s y) true) d r =
        Chain-agree s.vol (entry disks is s true) (entry disks is (at s y) true) d r
          (λ g m j. q.entries true g j ∙ rw (away g c d r m once) refl) rest in
      let (z, g, t) = free_loop_lem n d r (at s y) ok q.coherent (omega arith) rest' in
      (
        z,
        rw (i, e, f, a, l, g) refl,
        Becomes-eq disks is s z (λ e v. if among (d ∷ r) e then 0 else if e == c then 0 else v)
            (λ e v. if among (c ∷ d ∷ r) e then 0 else v) (λ e v. ground arith)
            (Becomes-trans disks is s y z (λ e v. if e == c then 0 else v)
              (λ e v. if among (d ∷ r) e then 0 else v) q t),
      )

  -- The counter behind a chain that was freed.
  abbrev pub next_after : ℕ → ℕ → ℕ
  next_after c next = if ltb c next || ltb next 2 then c else next

  -- On a volume whose FSInfo sectors, two tables and data lie behind each other, with room for
  -- every cluster, on a device that takes their blocks (VolumeOk), and with a coherent cache:
  -- fat32_free_chain of a chain that ends and has no more clusters than the volume sets every
  -- entry of the chain to 0 in both copies and no other, changes no data block, adds the chain's
  -- length to free_clusters (modulo 2^32), moves next_free down to the chain when it lies behind
  -- it or is below 2, and afterwards the device holds all that the cache shows.
  pub fat32_free_chain-free :
      (s : Fat D) (c : ℕ) (r : List ℕ)
      → VolumeOk accepts s.vol
      → Coherent disks is s
      → length r < s.vol.total_clusters
      → Chain s.vol (entry disks is s true) c r
      → (y : Store D) × (fat32_free_chain disks c s ≡ (
        some tt,
        at
            (counted s (u32 (s.vol.free_clusters + length (c ∷ r))) (next_after c s.vol.next_free))
            y,
      ))
        × Becomes disks is s y (λ e v. if among (c ∷ r) e then 0 else v)
        × Durable disks is s y
  unfolding fat32_free_chain set_counters
  fat32_free_chain-free s c r ok k h p =
      let (y, e, b) = free_loop_lem s.vol.total_clusters c r s ok k h p in
      let free = u32 (s.vol.free_clusters + length (c ∷ r)) in
      let next = next_after c s.vol.next_free in
      then' y e b (
        fat32_write_barrier-Becomes disks is (counted (at s y) free next)
          (VolumeOk-counted disks is (at s y) free next ok) b.coherent)
    where
      free : ℕ
      free = u32 (s.vol.free_clusters + length (c ∷ r))

      next : ℕ
      next = next_after c s.vol.next_free

      low : 2 ≤ c
      low = (cluster_bounds s.vol c ok.clusters (Chain-low s.vol (entry disks is s true) c r p)).0

      then' :
          (y : Store D)
          → free_loop disks s.vol.total_clusters c s ≡ (some (length (c ∷ r)), at s y)
          → Becomes disks is s y (λ e v. if among (c ∷ r) e then 0 else v)
          → (z : Store D) × (fat32_write_barrier disks (counted (at s y) free next)
              ≡ (some tt, at (counted (at s y) free next) z))
            × Becomes disks is (counted (at s y) free next) z (λ e v. v)
            × Durable disks is (counted (at s y) free next) z
          → (y : Store D) × (fat32_free_chain disks c s ≡ (some tt, at (counted s free next) y))
            × Becomes disks is s y (λ e v. if among (c ∷ r) e then 0 else v)
            × Durable disks is s y
      then' y e b (z, f, q, d) = (
        z,
        rw (le→ltb c 2 low, e) f,
        Becomes-trans disks is s y z (λ e v. if among (c ∷ r) e then 0 else v) (λ e v. v) b
            (Becomes-counted disks is (at s y) z free next (λ e v. v) q),
        d,
      )
