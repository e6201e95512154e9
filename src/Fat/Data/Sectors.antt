-- ===== src/Fat/Data/Sectors.antt =====
-- Runs of sectors of fs/fat32.c read and written through the cache.
use coffee_os_aurora_refresh.Base.{
  ℕ, zero, suc, ◌+◌, ◌-◌, ◌*◌, ◌/◌, ◌%◌, ◌≤◌, ◌<◌, ◌≡◌, refl, ◌∙◌, ap, fun_ext, inl, inr, eq_cases,
  ==_self, ==_ne, le→leb, lt→ltb, ◌⊎◌, true, ◌&&◌, some, Array, ltb, leb, if◌then◌else◌, u32, arith,
}
use coffee_os_aurora_refresh.Disk.{Sector, Disks, IsDisks}
use coffee_os_aurora_refresh.Fat.Cache.{Fat, cache_read, cache_write}
use coffee_os_aurora_refresh.Fat.Cache.View.{through, Coherent}
use coffee_os_aurora_refresh.Fat.Table.{block_size}
use coffee_os_aurora_refresh.Fat.Table.View.{set_block}
use coffee_os_aurora_refresh.Fat.Table.Entries.{Store, at, Keeps, read_stored, write_stored}
use coffee_os_aurora_refresh.Fat.Table.Walks.{stay}
use coffee_os_aurora_refresh.Fat.Data.{copied, read_sectors, write_sectors}

-- The blocks from `lba + i` on in a buffer, each at its place.
abbrev pub filled : (ℕ → Sector) → ℕ → ℕ → ℕ → Array ℕ → Array ℕ
filled blocks lba i n buf j =
    if leb (i * block_size) j && ltb j ((i + n) * block_size)
    then blocks (lba + j / block_size) (j % block_size)
    else buf j

filled_inside : (i j : ℕ) → i * block_size ≤ j → 0 + (j - i * block_size) ≡ j - i * block_size
filled_inside i j h = omega arith

filled_step :
    (blocks : ℕ → Sector) (lba i n : ℕ) (buf : Array ℕ)
    → filled blocks lba (i + 1) n (copied buf (i * block_size) (blocks (lba + i)) 0 block_size)
      ≡ filled blocks lba i (suc n) buf
filled_step blocks lba i n buf = fun_ext λ j. elim (eq_cases (j / block_size) i) [
  | inl e ↦ rw e (ground (arith, filled_inside i j (omega arith)))
  | inr n' ↦ ground arith
]

-- The blocks with those from `lba + i` on taken from a buffer.
abbrev pub part : Array ℕ → ℕ → Sector
part buf i j = buf (i * block_size + j)

abbrev pub stored_blocks : (ℕ → Sector) → ℕ → ℕ → ℕ → Array ℕ → ℕ → Sector
stored_blocks blocks lba i n buf l =
    if leb (lba + i) l && ltb l (lba + i + n) then part buf (l - lba) else blocks l

pub stored_out :
    (blocks : ℕ → Sector) (lba n : ℕ) (buf : Array ℕ) (l : ℕ)
    → (l < lba) ⊎ (lba + n ≤ l)
    → stored_blocks blocks lba 0 n buf l ≡ blocks l
stored_out blocks lba n buf l (inl h) = ground arith
stored_out blocks lba n buf l (inr h) = ground arith

pub stored_in :
    (blocks : ℕ → Sector) (lba n : ℕ) (buf : Array ℕ) (j : ℕ)
    → j < n * block_size
    → stored_blocks blocks lba 0 n buf (lba + j / block_size) (j % block_size) ≡ buf j
stored_in blocks lba n buf j h =
    rw
      (
        le→leb (lba + 0) (lba + j / block_size) (omega arith),
        lt→ltb (lba + j / block_size) (lba + 0 + n) (omega arith),
      )
      (ap buf (omega arith))

part_at : (buf : Array ℕ) (lba i : ℕ) → part buf (lba + i - lba) ≡ part buf i
part_at buf lba i = ap (part buf) (omega arith)

stored_step :
    (blocks : ℕ → Sector) (lba i n : ℕ) (buf : Array ℕ) (l : ℕ)
    → stored_blocks (set_block blocks (lba + i) (part buf i)) lba (i + 1) n buf l
      ≡ stored_blocks blocks lba i (suc n) buf l
stored_step blocks lba i n buf l = elim (eq_cases l (lba + i)) [
  | inl e ↦ rw (e, ==_self (lba + i)) (ground (arith, part_at buf lba i))
  | inr m ↦ rw (==_ne l (lba + i) m) (ground arith)
]

module _ {D : Type 0} (disks : Disks D) (is : IsDisks disks) where
  open is use {accepts}

  -- A run of blocks that the volume's device takes.
  abbrev pub Takes : Fat D → ℕ → ℕ → Type 0
  Takes s from n =
      (l : ℕ) → from ≤ l → l < from + n → (accepts s.vol.dev l ≡ true) × (l < 4294967296)

  word : (x : ℕ) → x < 4294967296 → u32 x ≡ x
  word x h = omega arith

  read_step :
      (n i lba : ℕ) (buf : Array ℕ) (s : Fat D) (y : Store D)
      → lba + i < 4294967296
      → cache_read disks (lba + i) s ≡ (some (through disks is s s.vol.dev (lba + i)), at s y)
      → Keeps disks is s y (through disks is s s.vol.dev)
      → (z : Store D) × (read_sectors disks n
            (i + 1)
            lba
            (copied buf (i * block_size) (through disks is s s.vol.dev (lba + i)) 0 block_size)
            (at s y)
          ≡ (
            some (
                filled (through disks is (at s y) s.vol.dev) lba (i + 1) n (
                  copied buf
                    (i * block_size)
                    (through disks is s s.vol.dev (lba + i))
                    0
                    block_size)),
            at s z,
          ))
        × Keeps disks is (at s y) z (through disks is (at s y) s.vol.dev)
      → (z : Store D) × (read_sectors disks (suc n) i lba buf s
          ≡ (some (filled (through disks is s s.vol.dev) lba i (suc n) buf), at s z))
        × Keeps disks is s z (through disks is s s.vol.dev)
  unfolding read_sectors
  read_step n i lba buf s y b e p (z, f, q) = (
    z,
    rw (word (lba + i) b, e)
        (f
          ∙ ap (λ (x : Array ℕ). (some x, at s z))
              (ap
                  (λ (r : ℕ → Sector). filled r lba (i + 1) n (
                    copied buf (i * block_size) (through disks is s s.vol.dev (lba + i)) 0
                      block_size))
                  (fun_ext p.shown)
                ∙ filled_step (through disks is s s.vol.dev) lba i n buf)),
    record { coherent = q.coherent; shown = λ l. q.shown l ∙ p.shown l },
  )

  pub read_sectors_lem :
      (n i lba : ℕ) (buf : Array ℕ) (s : Fat D)
      → Coherent disks is s
      → Takes s (lba + i) n
      → (y : Store D) × (read_sectors disks n i lba buf s
          ≡ (some (filled (through disks is s s.vol.dev) lba i n buf), at s y))
        × Keeps disks is s y (through disks is s s.vol.dev)
  unfolding read_sectors
  read_sectors_lem zero i lba buf s k t = (
    stay disks is s,
    ap (λ b. (some b, s)) (fun_ext λ j. ground arith),
    record { coherent = k; shown = λ l. refl },
  )
  read_sectors_lem (suc n) i lba buf s k t =
      let (a, b) = t (lba + i) (omega arith) (omega arith) in
      let (y, e, p) = read_stored disks is s (lba + i) k a in
      read_step n i lba buf s y b e p (
        read_sectors_lem n (i + 1) lba
          (copied buf (i * block_size) (through disks is s s.vol.dev (lba + i)) 0 block_size)
          (at s y) p.coherent (λ l from to. t l (omega arith) (omega arith)))

  write_step :
      (n i lba : ℕ) (buf : Array ℕ) (s : Fat D) (y : Store D)
      → lba + i < 4294967296
      → cache_write disks (lba + i) (part buf i) s ≡ (some tt, at s y)
      → Keeps disks is s y (set_block (through disks is s s.vol.dev) (lba + i) (part buf i))
      → (z : Store D) × (write_sectors disks n (i + 1) lba buf (at s y) ≡ (some tt, at s z))
        × Keeps disks is
            (at s y)
            z
            (stored_blocks (through disks is (at s y) s.vol.dev) lba (i + 1) n buf)
      → (z : Store D) × (write_sectors disks (suc n) i lba buf s ≡ (some tt, at s z))
        × Keeps disks is s z (stored_blocks (through disks is s s.vol.dev) lba i (suc n) buf)
  unfolding write_sectors
  write_step n i lba buf s y b e p (z, f, q) = (
    z,
    rw (word (lba + i) b, e) f,
    record {
      coherent = q.coherent;
      shown = λ l.
          q.shown l
          ∙ ap (λ (r : ℕ → Sector). stored_blocks r lba (i + 1) n buf l) (fun_ext p.shown)
          ∙ stored_step (through disks is s s.vol.dev) lba i n buf l;
    },
  )

  pub write_sectors_lem :
      (n i lba : ℕ) (buf : Array ℕ) (s : Fat D)
      → Coherent disks is s
      → Takes s (lba + i) n
      → (y : Store D) × (write_sectors disks n i lba buf s ≡ (some tt, at s y))
        × Keeps disks is s y (stored_blocks (through disks is s s.vol.dev) lba i n buf)
  unfolding write_sectors
  write_sectors_lem zero i lba buf s k t =
      (stay disks is s, refl, record { coherent = k; shown = λ l. ground arith })
  write_sectors_lem (suc n) i lba buf s k t =
      let (a, b) = t (lba + i) (omega arith) (omega arith) in
      let (y, e, p) = write_stored disks is s (lba + i) (part buf i) k a in
      write_step n i lba buf s y b e p (
        write_sectors_lem n (i + 1) lba buf (at s y) p.coherent
          (λ l from to. t l (omega arith) (omega arith)))
