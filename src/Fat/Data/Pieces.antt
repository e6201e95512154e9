-- ===== src/Fat/Data/Pieces.antt =====
-- The bytes of a file in its clusters, and the pieces in which fat32_read_chain of fs/fat32.c copies them.
use coffee_os_aurora_refresh.Base.{
  ℕ, zero, suc, ◌+◌, ◌-◌, ◌*◌, ◌/◌, ◌%◌, ◌≤◌, ◌<◌, ◌≡◌, ◌⊎◌, inl, inr, refl, sym, ◌∙◌, ap, ap₂,
  fun_ext, true, ◌&&◌, List, [], ◌∷◌, length, get_or, Array, ltb, leb, if◌then◌else◌, lt_cases,
  lt→ltb, le→ltb, arith,
}
use coffee_os_aurora_refresh.Fat.Cache.{Fat32Volume}
use coffee_os_aurora_refresh.Fat.Table.{in_volume, fat32_bad}
use coffee_os_aurora_refresh.Fat.Table.Chains.{Chain, Chain-low}
use coffee_os_aurora_refresh.Fat.Data.{copied}
use native.Mathlib.Nat.{
  mod-lt, div-eq_of_lt, mod-eq_of_lt, div-lt_iff_lt-mul, div_self, div-add-mod', add-mul-div_right,
  add-mul-mod_self_right,
}

-- t bytes behind a byte, in the same cluster.
ahead : (b a t : ℕ) → 0 < b → a % b + t < b → ((a + t) / b ≡ a / b) × ((a + t) % b ≡ a % b + t)
ahead b a t pos h =
    let split : a + t ≡ a % b + t + a / b * b = omega (arith, div-add-mod' a b) in
    (
      ap (λ x. x / b) split
          ∙ add-mul-div_right (a % b + t) (a / b) pos
          ∙ ap (λ x. x + a / b) (div-eq_of_lt h)
          ∙ omega arith,
      ap (λ x. x % b) split ∙ add-mul-mod_self_right (a % b + t) (a / b) b ∙ mod-eq_of_lt h,
    )

-- At the end of a cluster.
pub cluster_end : (b a : ℕ) → 0 < b → (a + (b - a % b)) / b ≡ a / b + 1
cluster_end b a pos =
    let split : a + (b - a % b) ≡ b + a / b * b = omega (arith, div-add-mod' a b, mod-lt a pos) in
    ap (λ x. x / b) split
    ∙ add-mul-div_right b (a / b) pos
    ∙ ap (λ x. x + a / b) (div_self pos)
    ∙ omega arith

-- A place before the end of a file lies in one of its clusters.
pub within : (b a n : ℕ) → 0 < b → a < n * b → a / b < n
within b a n pos h = (div-lt_iff_lt-mul pos).1 h

-- A cluster of a chain, by its place.
pub get_or-low :
    (vol : Fat32Volume) (f : ℕ → ℕ) (c k : ℕ) (r : List ℕ)
    → Chain vol f c r
    → k < length (c ∷ r)
    → in_volume vol (get_or (c ∷ r) k fat32_bad) ≡ true
get_or-low vol f c zero r p h = Chain-low vol f c r p
get_or-low vol f c (suc k) [] p h = absurd (omega arith)
get_or-low vol f c (suc k) (d ∷ r) (i, e, l, p) h = get_or-low vol f d k r p (omega arith)

-- The bytes of a file whose clusters are listed, by what its clusters hold.
abbrev pub file_byte : (ℕ → Array ℕ) → ℕ → List ℕ → Array ℕ
file_byte content size clusters i = content (get_or clusters (i / size) fat32_bad) (i % size)

-- A buffer with the places from `done` to `len` taken from a file.
abbrev pub delivered : Array ℕ → ℕ → ℕ → ℕ → Array ℕ → Array ℕ
delivered file byte_offset done len out j =
    if leb done j && ltb j len then file (byte_offset + j) else out j

abbrev pub chunk_of : ℕ → ℕ → ℕ → ℕ → ℕ
chunk_of size byte_offset len done =
    if ltb (len - done) (size - (byte_offset + done) % size)
    then len - done
    else size - (byte_offset + done) % size

pub chunk_bounds :
    (size byte_offset len done : ℕ)
    → 0 < size
    → done < len
    → (0 < chunk_of size byte_offset len done)
      × (done + chunk_of size byte_offset len done ≤ len)
      × ((byte_offset + done) % size + chunk_of size byte_offset len done ≤ size)
      × ((done + chunk_of size byte_offset len done ≡ len)
          ⊎ (chunk_of size byte_offset len done ≡ size - (byte_offset + done) % size))
chunk_bounds size byte_offset len done pos h =
    elim (lt_cases (len - done) (size - (byte_offset + done) % size)) [
      | inl l ↦
          rw (lt→ltb (len - done) (size - (byte_offset + done) % size) l)
            (omega arith, omega arith, omega arith, inl (omega arith))
      | inr l ↦
          let m = mod-lt (byte_offset + done) pos in
          rw (le→ltb (len - done) (size - (byte_offset + done) % size) l)
            (omega (arith, m), omega arith, omega (arith, m), inr refl)
    ]

-- One chunk copied, and the rest.
pub delivered_step :
    (content : ℕ → Array ℕ) (size : ℕ) (clusters : List ℕ) (byte_offset done len chunk : ℕ)
    (out full : Array ℕ)
    → 0 < size
    → done + chunk ≤ len
    → (byte_offset + done) % size + chunk ≤ size
    → ((t : ℕ)
        → t < size
        → full t ≡ content (get_or clusters ((byte_offset + done) / size) fat32_bad) t)
    → delivered
        (file_byte content size clusters)
        byte_offset
        (done + chunk)
        len
        (copied out done full ((byte_offset + done) % size) chunk)
      ≡ delivered (file_byte content size clusters) byte_offset done len out
delivered_step content size clusters byte_offset done len chunk out full pos fits room same =
    fun_ext λ j. elim (lt_cases j done) [
      | inl l ↦ ground arith
      | inr l ↦ elim (lt_cases j (done + chunk)) [
        | inl l' ↦ let e = here j l l' in ground (arith, e)
        | inr l' ↦ ground arith
      ]
    ]
  where
    here :
        (j : ℕ)
        → done ≤ j
        → j < done + chunk
        → full ((byte_offset + done) % size + (j - done))
          ≡ file_byte content size clusters (byte_offset + j)
    here j l l' =
        let (q, m) = ahead size (byte_offset + done) (j - done) pos (omega arith) in
        let place : byte_offset + done + (j - done) ≡ byte_offset + j = omega arith in
        same ((byte_offset + done) % size + (j - done)) (omega arith)
        ∙ ap₂ (λ a b. content (get_or clusters a fat32_bad) b) (sym q ∙ ap (λ a. a / size) place)
            (sym m ∙ ap (λ a. a % size) place)
