-- ===== src/Net/Checksum.antt =====
-- ip_checksum of net/ip.c. Packets are arrays of bytes. Two rounds fold a 32-bit sum into 16 bits,
-- so the loop that folds has fuel 2; running out is `none`.
use coffee_os_aurora_refresh.Base.{
  ℕ, zero, suc, ◌+◌, ◌-◌, ◌*◌, ◌/◌, ◌%◌, ◌≤◌, ◌<◌, ◌≡◌, ◌∙◌, refl, ap, Option, none, some, Array,
  update, sym, ◌==◌, if◌then◌else◌, u32, arith,
}

-- A big-endian 16-bit word.
abbrev pub word_at : Array ℕ → ℕ → ℕ
word_at bytes i = bytes i * 256 + bytes (i + 1)

-- The sum over n words, from byte i on.
unfoldable pub sum_words : Array ℕ → ℕ → ℕ → ℕ → ℕ
sum_words bytes zero i sum = sum
sum_words bytes (suc n) i sum = sum_words bytes n (i + 2) (u32 (sum + word_at bytes i))

-- `while ((sum >> 16) != 0u) sum = (sum & 0xFFFFu) + (sum >> 16);` with a bound on the rounds.
unfoldable pub fold_sum : ℕ → ℕ → Option ℕ
fold_sum zero sum = if sum / 65536 == 0 then some sum else none
fold_sum (suc n) sum =
    let rest = fold_sum n (u32 (sum % 65536 + sum / 65536)) in
    if sum / 65536 == 0 then some sum else rest

unfoldable pub ip_checksum : Array ℕ → ℕ → Option ℕ
ip_checksum bytes len =
    let words = sum_words bytes (len / 2) 0 0 in
    let sum = if len % 2 == 0 then words else u32 (words + bytes (len - 1) * 256) in
    elim (fold_sum 2 sum) [ some folded ↦ some (65535 - folded) | none ↦ none ]

-- The end-around sum: the sum modulo 65535, in 1 to 65535 but for an empty sum.
abbrev pub ones_sum : ℕ → ℕ
ones_sum s = if s == 0 then 0 else (s - 1) % 65535 + 1

fold_sum_lem : (s : ℕ) → s < 4294967296 → fold_sum 2 s ≡ some (ones_sum s)
unfolding fold_sum
fold_sum_lem s h = ground arith

-- The sum of n words from byte i on.
unfoldable pub word_sum : Array ℕ → ℕ → ℕ → ℕ
word_sum bytes zero i = 0
word_sum bytes (suc n) i = word_at bytes i + word_sum bytes n (i + 2)

abbrev pub Bytes : Array ℕ → Type 0
Bytes bytes = (i : ℕ) → bytes i < 256

word_sum-le : (bytes : Array ℕ) (n i : ℕ) → Bytes bytes → word_sum bytes n i ≤ n * 65535
unfolding word_sum
word_sum-le bytes zero i b = omega arith
word_sum-le bytes (suc n) i b = omega (arith, b i, b (i + 1), word_sum-le bytes n (i + 2) b)

sum_words_lem :
    (bytes : Array ℕ) (n i s : ℕ)
    → Bytes bytes
    → s + n * 65535 < 4294967296
    → sum_words bytes n i s ≡ s + word_sum bytes n i
unfolding sum_words word_sum
sum_words_lem bytes zero i s b h = omega arith
sum_words_lem bytes (suc n) i s b h =
    let fits : u32 (s + word_at bytes i) ≡ s + word_at bytes i = omega (arith, b i, b (i + 1)) in
    ap (sum_words bytes n (i + 2)) fits
    ∙ sum_words_lem bytes n (i + 2) (s + word_at bytes i) b (omega (arith, b i, b (i + 1)))
    ∙ omega arith

-- A 16-bit word written at byte f, in network order.
abbrev pub put_word : Array ℕ → ℕ → ℕ → Array ℕ
put_word bytes f c = update (update bytes f (c / 256)) (f + 1) (c % 256)

put_word_later :
    (bytes : Array ℕ) (f c n i : ℕ)
    → f + 1 < i
    → word_sum (put_word bytes f c) n i ≡ word_sum bytes n i
unfolding word_sum
put_word_later bytes f c zero i h = refl
put_word_later bytes f c (suc n) i h =
    ground (arith, put_word_later bytes f c n (i + 2) (omega arith))

put_word_sum :
    (bytes : Array ℕ) (f c n i k : ℕ)
    → f ≡ i + 2 * k
    → k < n
    → word_at bytes f ≡ 0
    → word_sum (put_word bytes f c) n i ≡ word_sum bytes n i + c
unfolding word_sum
put_word_sum bytes f c zero i k e l z = absurd (omega arith)
put_word_sum bytes f c (suc n) i zero e l z =
    ground (arith, put_word_later bytes f c n (i + 2) (omega arith))
put_word_sum bytes f c (suc n) i (suc k) e l z =
    ground (arith, put_word_sum bytes f c n (i + 2) k (omega arith) (omega arith) z)

-- The checksum of an even number of bytes.
ip_checksum_even :
    (bytes : Array ℕ) (n : ℕ)
    → Bytes bytes
    → n < 32768
    → ip_checksum bytes (2 * n) ≡ some (65535 - ones_sum (word_sum bytes n 0))
unfolding ip_checksum
ip_checksum_even bytes n b h =
    rw
      (
        ip_checksum,
        half,
        even,
        sum_words_lem bytes n 0 0 b (omega arith),
        start,
        fold_sum_lem (word_sum bytes n 0) (omega (arith, word_sum-le bytes n 0 b)),
      )
      refl
  where
    half : 2 * n / 2 ≡ n
    half = omega arith

    even : 2 * n % 2 ≡ 0
    even = omega arith

    start : 0 + word_sum bytes n 0 ≡ word_sum bytes n 0
    start = omega arith

put_word-Bytes : (bytes : Array ℕ) (f c : ℕ) → c < 65536 → Bytes bytes → Bytes (put_word bytes f c)
put_word-Bytes bytes f c h b i = ground (arith, b i)

ones_sum_filled : (s : ℕ) → 65535 - ones_sum (s + (65535 - ones_sum s)) ≡ 0
ones_sum_filled s = ground arith

-- Filling the empty checksum word of a packet with its checksum makes the receiver's checksum 0:
-- for an even number of bytes below 65536 and a word inside them, at an even offset.
pub ip_checksum-put_word :
    (bytes : Array ℕ) (n k c : ℕ)
    → Bytes bytes
    → n < 32768
    → k < n
    → word_at bytes (2 * k) ≡ 0
    → ip_checksum bytes (2 * n) ≡ some c
    → ip_checksum (put_word bytes (2 * k) c) (2 * n) ≡ some 0
ip_checksum-put_word bytes n k c b h l z e =
    ip_checksum_even (put_word bytes (2 * k) c) n
      (put_word-Bytes bytes (2 * k) c (omega (arith, filled)) b) h
    ∙ rw (put_word_sum bytes (2 * k) c n 0 k (omega arith) l z, filled)
        (ap some (ones_sum_filled (word_sum bytes n 0)))
  where
    filled : c ≡ 65535 - ones_sum (word_sum bytes n 0)
    filled =
        let p : Option.some c ≡ some (65535 - ones_sum (word_sum bytes n 0)) =
          sym e ∙ ip_checksum_even bytes n b h in
        cc
