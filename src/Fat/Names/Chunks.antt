-- ===== src/Fat/Names/Chunks.antt =====
-- What decoding one part of a long name in fs/fat32.c leaves of the name.
use coffee_os_aurora_refresh.Base.{
  ℕ, zero, suc, ◌+◌, ◌*◌, ◌%◌, ◌<◌, ◌≡◌, ◌≢◌, ◌⊎◌, inl, refl, sym, ◌∙◌, ap, List, [], ◌∷◌, length,
  get_or, Array, update, update_self, update_ne, ==_ne, lt→ltb, u32, sub32, arith,
}
use coffee_os_aurora_refresh.Fat.Names.{fat32_name_max, decode_chars, fat32_lfn_decode_chunk}

-- Characters that are neither the end of a name nor filling.
abbrev pub Regular : List ℕ → Type 0
Regular [] = Unit {0}
Regular (ch ∷ rest) = (ch ≢ 0) × (ch ≢ 65535) × Regular rest

decode_chars-cons :
    (ch : ℕ) (rest : List ℕ) (pos : ℕ) (name : Array ℕ)
    → ch ≢ 0
    → ch ≢ 65535
    → pos + 1 < fat32_name_max
    → decode_chars (ch ∷ rest) pos name
      ≡ decode_chars rest (pos + 1) (update (update name pos (ch % 256)) (pos + 1) 0)
unfolding decode_chars
decode_chars-cons ch rest pos name z f h =
    let word : u32 (pos + 1) ≡ pos + 1 = omega arith in
    rw (==_ne ch 0 z, ==_ne ch 65535 f, word, lt→ltb (pos + 1) fat32_name_max h) refl

-- The name after one character is written.
abbrev written : Array ℕ → ℕ → ℕ → Array ℕ
written name pos ch = update (update name pos (ch % 256)) (pos + 1) 0

decode_chars-others :
    (chars : List ℕ) (pos : ℕ) (name : Array ℕ)
    → Regular chars
    → pos + length chars < fat32_name_max
    → (j : ℕ) → (j < pos) ⊎ (pos + length chars < j)
    → decode_chars chars pos name j ≡ name j
unfolding decode_chars
decode_chars-others [] pos name r h j o = refl
decode_chars-others (ch ∷ rest) pos name (z, f, r) h j o =
    ap (λ (x : Array ℕ). x j) (decode_chars-cons ch rest pos name z f (omega arith))
    ∙ decode_chars-others rest (pos + 1) (update (update name pos (ch % 256)) (pos + 1) 0) r
        (omega arith) j (grind arith)
    ∙ update_ne (update name pos (ch % 256)) (pos + 1) j 0 (λ e. grind arith)
    ∙ update_ne name pos j (ch % 256) (λ e. grind arith)

decode_chars-end :
    (ch : ℕ) (rest : List ℕ) (pos : ℕ) (name : Array ℕ)
    → Regular (ch ∷ rest)
    → pos + length (ch ∷ rest) < fat32_name_max
    → decode_chars (ch ∷ rest) pos name (pos + length (ch ∷ rest)) ≡ 0
unfolding decode_chars
decode_chars-end ch [] pos name (z, f, r) h =
    ap (λ (x : Array ℕ). x (pos + 1)) (decode_chars-cons ch [] pos name z f (omega arith))
    ∙ update_self (update name pos (ch % 256)) (pos + 1) 0
decode_chars-end ch (d ∷ rest) pos name (z, f, r) h =
    ap (λ (x : Array ℕ). x (pos + suc (suc (length rest))))
      (decode_chars-cons ch (d ∷ rest) pos name z f (omega arith))
    ∙ ap (decode_chars (d ∷ rest) (pos + 1) (written name pos ch)) (omega arith)
    ∙ decode_chars-end d rest (pos + 1) (written name pos ch) r (omega arith)

decode_chars-char :
    (chars : List ℕ) (pos : ℕ) (name : Array ℕ) (j : ℕ)
    → Regular chars
    → pos + length chars < fat32_name_max
    → j < length chars
    → decode_chars chars pos name (pos + j) ≡ get_or chars j 0 % 256
decode_chars-char [] pos name j r h l = absurd (omega arith)
decode_chars-char (ch ∷ rest) pos name zero (z, f, r) h l =
    ap (λ (x : Array ℕ). x (pos + 0)) (decode_chars-cons ch rest pos name z f (omega arith))
    ∙ decode_chars-others rest (pos + 1) (written name pos ch) r (omega arith) (pos + 0)
        (inl (omega arith))
    ∙ update_ne (update name pos (ch % 256)) (pos + 1) (pos + 0) 0 (λ e. absurd (omega arith))
    ∙ ap (update name pos (ch % 256)) (omega arith)
    ∙ update_self name pos (ch % 256)
decode_chars-char (ch ∷ rest) pos name (suc j) (z, f, r) h l =
    ap (λ (x : Array ℕ). x (pos + suc j)) (decode_chars-cons ch rest pos name z f (omega arith))
    ∙ ap (decode_chars rest (pos + 1) (written name pos ch)) (omega arith)
    ∙ decode_chars-char rest (pos + 1) (written name pos ch) j r (omega arith) (omega arith)

-- fat32_lfn_decode_chunk of a full part.
pub fat32_lfn_decode_chunk-full :
    (order k : ℕ) (chars : List ℕ) (name : Array ℕ)
    → order % 32 ≡ suc k
    → k < 19
    → length chars ≡ 13
    → Regular chars
    → ((j : ℕ)
        → j < 13
        → fat32_lfn_decode_chunk order chars name (k * 13 + j) ≡ get_or chars j 0 % 256)
      × (fat32_lfn_decode_chunk order chars name (k * 13 + 13) ≡ 0)
      × ((j : ℕ)
          → (j < k * 13) ⊎ (k * 13 + 13 < j)
          → fat32_lfn_decode_chunk order chars name j ≡ name j)
unfolding fat32_lfn_decode_chunk
fat32_lfn_decode_chunk-full order k [] name o h l r = absurd (omega arith)
fat32_lfn_decode_chunk-full order k (ch ∷ rest) name o h l r =
    let base : u32 (sub32 (order % 32) 1 * 13) ≡ k * 13 = rw o (omega arith) in
    let place : k * 13 + length (ch ∷ rest) ≡ k * 13 + 13 = omega (arith, l) in
    rw base (
      λ j m. decode_chars-char (ch ∷ rest) (k * 13) name j r (omega (arith, l)) (omega (arith, l)),
      ap (decode_chars (ch ∷ rest) (k * 13) name) (sym place)
          ∙ decode_chars-end ch rest (k * 13) name r (omega (arith, l)),
      λ j m.
          decode_chars-others (ch ∷ rest) (k * 13) name r (omega (arith, l)) j
            (grind (arith, place)),
    )
