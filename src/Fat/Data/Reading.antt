-- ===== src/Fat/Data/Reading.antt =====
-- fat32_read_chain of fs/fat32.c reads the bytes of a file.
use coffee_os_aurora_refresh.Base.Integers.{ℤ, to_int}
use coffee_os_aurora_refresh.Base.{
  ℕ, zero, suc, ◌+◌, ◌-◌, ◌*◌, ◌/◌, ◌%◌, ◌≤◌, ◌<◌, ◌≡◌, ◌⊎◌, inl, inr, refl, ◌∙◌, ap, fun_ext, true,
  false, some, List, ◌∷◌, length, get_or, Array, ltb, ◌==◌, if◌then◌else◌, eq_cases, ==_ne, lt→ltb,
  le→ltb, u32, arith,
}
use coffee_os_aurora_refresh.Disk.{Disks, IsDisks}
use coffee_os_aurora_refresh.Fat.Cache.{Fat32Volume, Fat}
use coffee_os_aurora_refresh.Fat.Cache.View.{through, Coherent}
use coffee_os_aurora_refresh.Fat.Table.{block_size, in_volume, fat32_bad, fat32_get_nth_cluster}
use coffee_os_aurora_refresh.Fat.Table.View.{VolumeOk}
use coffee_os_aurora_refresh.Fat.Table.Entries.{Store, at, cluster_bounds, Keeps}
use coffee_os_aurora_refresh.Fat.Table.Copies.{entry, Becomes, Keeps-Becomes, Becomes-trans}
use coffee_os_aurora_refresh.Fat.Table.Chains.{Chain, Chain-low}
use coffee_os_aurora_refresh.Fat.Table.Walks.{
  stay, stay-Becomes, Chain-read, fat32_get_nth_cluster-get_or,
}
use coffee_os_aurora_refresh.Fat.Data.{
  copied, fat32_cluster_to_lba, read_loop, fat32_read_chain, fat32_read_cluster,
}
use coffee_os_aurora_refresh.Fat.Data.Clusters.{
  ClustersOk, cluster_bytes, cluster_lba, fat32_read_cluster-cluster_bytes,
}
use coffee_os_aurora_refresh.Fat.Data.Pieces.{
  cluster_end, within, get_or-low, file_byte, delivered, chunk_of, chunk_bounds, delivered_step,
}

module _ {D : Type 0} (disks : Disks D) (is : IsDisks disks) where
  open is use {accepts}

  -- The clusters of the volume hold the given bytes.
  abbrev pub Holds : Fat D → (ℕ → Array ℕ) → Type 0
  Holds s content =
      (c j : ℕ)
      → in_volume s.vol c ≡ true
      → j < s.vol.bytes_per_cluster
      → cluster_bytes disks is s c j ≡ content c j

  -- A call that changes no entry and no data changes no cluster.
  Holds-same :
      (s : Fat D) (y : Store D) (content : ℕ → Array ℕ)
      → VolumeOk accepts s.vol
      → Becomes disks is s y (λ e v. v)
      → Holds s content
      → Holds (at s y) content
  Holds-same s y content ok p h c j i l =
      let (e, room) = cluster_lba disks is s.vol c ok i in
      ap (λ (x : Array ℕ). x (j % block_size))
        (p.rest (fat32_cluster_to_lba s.vol c + j / block_size) (omega arith))
      ∙ h c j i l

  -- What the loop reads from a chain.
  abbrev Delivers : ℕ → Fat D → ℕ → List ℕ → ℕ → ℕ → ℕ → (ℕ → Array ℕ) → Array ℕ → Array ℕ → Type 0
  Delivers n s c r byte_offset len done content out scratch =
      (y : Store D) × (read_loop disks n c byte_offset out len done scratch s ≡ (
        some (
          len,
          delivered (file_byte content s.vol.bytes_per_cluster (c ∷ r)) byte_offset done len out,
        ),
        at s y,
      ))
      × Becomes disks is s y (λ e v. v)

  read_done :
      (n : ℕ) (s : Fat D) (c : ℕ) (r : List ℕ) (byte_offset len : ℕ) (content : ℕ → Array ℕ)
      (out scratch : Array ℕ)
      → Coherent disks is s
      → Delivers n s c r byte_offset len len content out scratch
  unfolding read_loop
  read_done zero s c r byte_offset len content out scratch k = (
    stay disks is s,
    rw (le→ltb len len (omega arith))
        (ap (λ (x : Array ℕ). (some (len, x), s)) (fun_ext λ j. ground arith)),
    stay-Becomes disks is s k,
  )
  read_done (suc n) s c r byte_offset len content out scratch k = (
    stay disks is s,
    rw (le→ltb len len (omega arith))
        (ap (λ (x : Array ℕ). (some (len, x), s)) (fun_ext λ j. ground arith)),
    stay-Becomes disks is s k,
  )

  -- One round of the loop, and the rounds behind it.
  read_round :
      (n : ℕ) (s : Fat D) (c cluster : ℕ) (r : List ℕ) (byte_offset len done : ℕ)
      (content : ℕ → Array ℕ) (out scratch full : Array ℕ) (x y : Store D)
      → done < len
      → u32 (byte_offset + done) ≡ byte_offset + done
      → fat32_get_nth_cluster disks c ((byte_offset + done) / s.vol.bytes_per_cluster) s
        ≡ (some cluster, at s x)
      → (cluster == fat32_bad) ≡ false
      → fat32_read_cluster disks cluster scratch (at s x) ≡ (some full, at s y)
      → Becomes disks is s y (λ e v. v)
      → delivered
          (file_byte content s.vol.bytes_per_cluster (c ∷ r))
          byte_offset
          (done + chunk_of s.vol.bytes_per_cluster byte_offset len done)
          len
          (copied out done full
            ((byte_offset + done) % s.vol.bytes_per_cluster)
            (chunk_of s.vol.bytes_per_cluster byte_offset len done))
        ≡ delivered (file_byte content s.vol.bytes_per_cluster (c ∷ r)) byte_offset done len out
      → Delivers n
          (at s y)
          c
          r
          byte_offset
          len
          (done + chunk_of s.vol.bytes_per_cluster byte_offset len done)
          content
          (copied out done full
            ((byte_offset + done) % s.vol.bytes_per_cluster)
            (chunk_of s.vol.bytes_per_cluster byte_offset len done))
          full
      → Delivers (suc n) s c r byte_offset len done content out scratch
  unfolding read_loop
  read_round n s c cluster r byte_offset len done content out scratch full x y h w e good f p step
        (z, g, q) =
      (
        z,
        rw (lt→ltb done len h, w, e, good, f)
            (g ∙ ap (λ (b : Array ℕ). (some (len, b), at s z)) step),
        Becomes-trans disks is s y z (λ e v. v) (λ e v. v) p q,
      )

  -- The bytes from `byte_offset` to `byte_offset + len` of a chain can be read.
  record Readable (s : Fat D) (c : ℕ) (r : List ℕ) (byte_offset len : ℕ) (content : ℕ → Array ℕ)
      : Type 0 where
    ok : VolumeOk accepts s.vol
    clusters : ClustersOk s.vol
    coherent : Coherent disks is s
    short : length r < s.vol.total_clusters
    chain : Chain s.vol (entry disks is s true) c r
    bytes : Holds s content
    fits : byte_offset + len ≤ length (c ∷ r) * s.vol.bytes_per_cluster
    word : byte_offset + len < 4294967296

  Readable-same :
      (s : Fat D) (y : Store D) (c : ℕ) (r : List ℕ) (byte_offset len : ℕ) (content : ℕ → Array ℕ)
      → Becomes disks is s y (λ e v. v)
      → Readable s c r byte_offset len content
      → Readable (at s y) c r byte_offset len content
  Readable-same s y c r byte_offset len content p h = record {
    ok = h.ok;
    clusters = h.clusters;
    coherent = p.coherent;
    short = h.short;
    chain = Chain-read disks is s y c r p h.chain;
    bytes = Holds-same s y content h.ok p h.bytes;
    fits = h.fits;
    word = h.word;
  }

  positive : (vol : Fat32Volume) → ClustersOk vol → 0 < vol.bytes_per_cluster
  positive vol size = omega (arith, size.some_sectors, size.bytes)

  -- The place that a round reads from.
  place_within :
      (s : Fat D) (c : ℕ) (r : List ℕ) (byte_offset len done : ℕ) (content : ℕ → Array ℕ)
      → Readable s c r byte_offset len content
      → done < len
      → (byte_offset + done) / s.vol.bytes_per_cluster < length (c ∷ r)
  place_within s c r byte_offset len done content h l =
      within s.vol.bytes_per_cluster (byte_offset + done) (length (c ∷ r))
        (positive s.vol h.clusters) (omega (arith, h.fits))

  -- The rounds left are enough for the clusters that are left.
  abbrev Enough : ℕ → Fat D → ℕ → List ℕ → ℕ → ℕ → ℕ → Type 0
  Enough n s c r byte_offset len done =
      (done ≡ len) ⊎ (length (c ∷ r) ≤ n + (byte_offset + done) / s.vol.bytes_per_cluster)

  Enough-next :
      (n : ℕ) (s : Fat D) (c : ℕ) (r : List ℕ) (byte_offset len done : ℕ)
      → 0 < s.vol.bytes_per_cluster
      → done < len
      → Enough (suc n) s c r byte_offset len done
      → Enough n s c r byte_offset len
          (done + chunk_of s.vol.bytes_per_cluster byte_offset len done)
  Enough-next n s c r byte_offset len done pos l (inl e) = absurd (omega arith)
  Enough-next n s c r byte_offset len done pos l (inr h) =
      elim (chunk_bounds s.vol.bytes_per_cluster byte_offset len done pos l).3 [
        | inl e ↦ inl e
        | inr e ↦
            let next = cluster_end s.vol.bytes_per_cluster (byte_offset + done) pos in
            let place : byte_offset
                  + (done
                      + (s.vol.bytes_per_cluster - (byte_offset + done) % s.vol.bytes_per_cluster))
                ≡ byte_offset
                  + done
                  + (s.vol.bytes_per_cluster - (byte_offset + done) % s.vol.bytes_per_cluster) =
              omega arith in
            inr (rw (e, place, next) (omega arith))
      ]

  read_next :
      (n : ℕ) (s : Fat D) (c : ℕ) (r : List ℕ) (byte_offset len done : ℕ) (content : ℕ → Array ℕ)
      (out scratch : Array ℕ) (cluster : ℕ) (x y : Store D)
      → Readable s c r byte_offset len content
      → done < len
      → Enough (suc n) s c r byte_offset len done
      → fat32_get_nth_cluster disks c ((byte_offset + done) / s.vol.bytes_per_cluster) s
        ≡ (some cluster, at s x)
      → in_volume s.vol cluster ≡ true
      → Becomes disks is s x (λ e v. v)
      → fat32_read_cluster disks cluster scratch (at s x) ≡ (
        some (λ j.
            if ltb j s.vol.bytes_per_cluster
            then cluster_bytes disks is (at s x) cluster j
            else scratch j),
        at s y,
      )
      → Keeps disks is (at s x) y (through disks is (at s x) s.vol.dev)
      → cluster ≡ get_or (c ∷ r) ((byte_offset + done) / s.vol.bytes_per_cluster) fat32_bad
      → ((o z : Array ℕ)
          → Readable (at s y) c r byte_offset len content
          → done + chunk_of s.vol.bytes_per_cluster byte_offset len done ≤ len
          → Enough n
              (at s y)
              c
              r
              byte_offset
              len
              (done + chunk_of s.vol.bytes_per_cluster byte_offset len done)
          → Delivers n
              (at s y)
              c
              r
              byte_offset
              len
              (done + chunk_of s.vol.bytes_per_cluster byte_offset len done)
              content
              o
              z)
      → Delivers (suc n) s c r byte_offset len done content out scratch
  read_next n s c r byte_offset len done content out scratch cluster x y h l m e low p f q here
        rest =
      let full : Array ℕ = λ j.
        if ltb j s.vol.bytes_per_cluster
        then cluster_bytes disks is (at s x) cluster j
        else scratch j in
      let pos = positive s.vol h.clusters in
      let (b0, b1, b2, b3) = chunk_bounds s.vol.bytes_per_cluster byte_offset len done pos l in
      let both =
        Becomes-trans disks is s x y (λ e v. v) (λ e v. v) p
          (Keeps-Becomes disks is (at s x) y q) in
      let good : (cluster == fat32_bad) ≡ false = ==_ne cluster fat32_bad (λ z.
        absurd
          (omega (arith, (cluster_bounds s.vol cluster h.ok.clusters low).1, h.ok.clusters))) in
      read_round n s c cluster r byte_offset len done content out scratch full x y l
        (omega (arith, h.word)) e good f both
        (delivered_step content s.vol.bytes_per_cluster (c ∷ r) byte_offset done len
          (chunk_of s.vol.bytes_per_cluster byte_offset len done) out full pos b1 b2
          (λ t u.
            rw (lt→ltb t s.vol.bytes_per_cluster u)
              (Holds-same s x content h.ok p h.bytes cluster t low u ∙ ap (λ d. content d t) here)))
        (rest
          (copied out done full ((byte_offset + done) % s.vol.bytes_per_cluster)
            (chunk_of s.vol.bytes_per_cluster byte_offset len done))
          full (Readable-same s y c r byte_offset len content both h) b1
          (Enough-next n s c r byte_offset len done pos l m))

  read_loop_lem :
      (n : ℕ) (s : Fat D) (c : ℕ) (r : List ℕ) (byte_offset len done : ℕ) (content : ℕ → Array ℕ)
      (out scratch : Array ℕ)
      → Readable s c r byte_offset len content
      → done ≤ len
      → Enough n s c r byte_offset len done
      → Delivers n s c r byte_offset len done content out scratch
  read_loop_lem zero s c r byte_offset len done content out scratch h l (inl e) =
      rw e (read_done zero s c r byte_offset len content out scratch h.coherent)
  read_loop_lem zero s c r byte_offset len done content out scratch h l (inr m) =
      elim (eq_cases done len) [
        | inl e ↦ rw e (read_done zero s c r byte_offset len content out scratch h.coherent)
        | inr n ↦
            absurd (omega (arith, place_within s c r byte_offset len done content h (omega arith)))
      ]
  read_loop_lem (suc n) s c r byte_offset len done content out scratch h l m =
      elim (eq_cases done len) [
        | inl e ↦ rw e (read_done (suc n) s c r byte_offset len content out scratch h.coherent)
        | inr ne ↦
            let cluster =
              get_or (c ∷ r) ((byte_offset + done) / s.vol.bytes_per_cluster) fat32_bad in
            let low =
              get_or-low s.vol (entry disks is s true) c
                ((byte_offset + done) / s.vol.bytes_per_cluster) r h.chain
                (place_within s c r byte_offset len done content h (omega arith)) in
            let (x, e, p) =
              fat32_get_nth_cluster-get_or disks is s c
                ((byte_offset + done) / s.vol.bytes_per_cluster) r h.ok h.coherent h.short
                h.chain in
            let (y, f, q) =
              fat32_read_cluster-cluster_bytes disks is (at s x) cluster scratch h.ok h.clusters
                p.coherent low in
            read_next n s c r byte_offset len done content out scratch cluster x y h (omega arith) m
              e low p f q refl
              (λ o z.
                read_loop_lem n (at s y) c r byte_offset len
                  (done + chunk_of s.vol.bytes_per_cluster byte_offset len done) content o z)
      ]

  -- On a volume that is laid out as VolumeOk says, with clusters of a whole number of sectors
  -- and at most 4096 bytes (ClustersOk), with a coherent cache, and for a chain with a tail
  -- shorter than the volume's cluster count: a read of len bytes from an offset, where the chain
  -- holds them all and offset + len is below 2^32, returns len converted to int, delivers
  -- exactly the bytes of the chain's clusters in order, leaves the rest of the buffer, and
  -- changes no entry and no data: the safety counter never stops it.
  pub fat32_read_chain-file_byte :
      (s : Fat D) (c : ℕ) (r : List ℕ) (byte_offset len : ℕ) (buf scratch : Array ℕ)
      → VolumeOk accepts s.vol
      → ClustersOk s.vol
      → Coherent disks is s
      → length r < s.vol.total_clusters
      → Chain s.vol (entry disks is s true) c r
      → byte_offset + len ≤ length (c ∷ r) * s.vol.bytes_per_cluster
      → byte_offset + len < 4294967296
      → (y : Store D) × (fat32_read_chain disks c byte_offset buf len scratch s ≡ (
        some (
          to_int len,
          delivered
              (file_byte (cluster_bytes disks is s) s.vol.bytes_per_cluster (c ∷ r))
              byte_offset
              0
              len
              buf,
        ),
        at s y,
      ))
        × Becomes disks is s y (λ e v. v)
  unfolding fat32_read_chain to_int
  fat32_read_chain-file_byte s c r byte_offset len buf scratch ok size k h p fits w =
      let low : 2 ≤ c =
        (cluster_bounds s.vol c ok.clusters (Chain-low s.vol (entry disks is s true) c r p)).0 in
      let (y, e, b) =
        read_loop_lem s.vol.total_clusters s c r byte_offset len 0 (cluster_bytes disks is s) buf
          scratch
          (record {
            ok = ok;
            clusters = size;
            coherent = k;
            short = h;
            chain = p;
            bytes = λ d j i l. refl;
            fits = fits;
            word = w;
          })
          (omega arith) (inr (omega arith)) in
      elim (eq_cases len 0) [
        | inl z ↦ (
          stay disks is s,
          rw z (ap (λ (x : Array ℕ). (some (ℤ.pos 0, x), s)) (fun_ext λ j. ground arith)),
          stay-Becomes disks is s k,
        )
        | inr z ↦ (y, rw (==_ne len 0 z, le→ltb c 2 low, e) refl, b)
      ]
