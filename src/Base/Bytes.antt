-- ===== src/Base/Bytes.antt =====
-- Little-endian words in byte arrays. The shifted bytes of `a | b << 8 | ...` do not overlap, so
-- the sum is the value.
use Prim.Native.Nat.{ℕ, ◌+◌, ◌*◌, ◌/◌, ◌%◌, ◌<◌}
use mathlib.Core.Path.{◌≡◌, refl}
use mathlib.Core.Logic.{◌⊎◌, inl, inr}
use native.Mathlib.Omega.{arith}
use coffee_os_aurora_refresh.Base.Arrays.{Array, update}

unfoldable pub get16 : Array ℕ → ℕ → ℕ
get16 x o = x o + x (o + 1) * 256

unfoldable pub put16 : Array ℕ → ℕ → ℕ → Array ℕ
put16 x o v = update (update x o (v % 256)) (o + 1) (v / 256 % 256)

unfoldable pub get32 : Array ℕ → ℕ → ℕ
get32 x o = x o + x (o + 1) * 256 + x (o + 2) * 65536 + x (o + 3) * 16777216

unfoldable pub put32 : Array ℕ → ℕ → ℕ → Array ℕ
put32 x o v =
    update
      (update (update (update x o (v % 256)) (o + 1) (v / 256 % 256)) (o + 2) (v / 65536 % 256))
      (o + 3) (v / 16777216 % 256)

pub put32_at_0 : (x : Array ℕ) (o v : ℕ) → put32 x o v o ≡ v % 256
unfolding put32
put32_at_0 x o v = ground arith

pub put32_at_1 : (x : Array ℕ) (o v : ℕ) → put32 x o v (o + 1) ≡ v / 256 % 256
unfolding put32
put32_at_1 x o v = ground arith

pub put32_at_2 : (x : Array ℕ) (o v : ℕ) → put32 x o v (o + 2) ≡ v / 65536 % 256
unfolding put32
put32_at_2 x o v = ground arith

pub put32_at_3 : (x : Array ℕ) (o v : ℕ) → put32 x o v (o + 3) ≡ v / 16777216 % 256
unfolding put32
put32_at_3 x o v = ground arith

pub put32_away : (x : Array ℕ) (o v i : ℕ) → (i < o) ⊎ (o + 3 < i) → put32 x o v i ≡ x i
unfolding put32
put32_away x o v i (inl h) = ground arith
put32_away x o v i (inr h) = ground arith

pub get32-put32 : (x : Array ℕ) (o v : ℕ) → get32 (put32 x o v) o ≡ v % 4294967296
unfolding get32
get32-put32 x o v =
    rw (put32_at_0 x o v, put32_at_1 x o v, put32_at_2 x o v, put32_at_3 x o v) (omega arith)

pub get32-put32_away :
    (x : Array ℕ) (o v p : ℕ) → (p + 3 < o) ⊎ (o + 3 < p) → get32 (put32 x o v) p ≡ get32 x p
unfolding get32
get32-put32_away x o v p (inl h) =
    rw
      (
        put32_away x o v p (inl (omega arith)),
        put32_away x o v (p + 1) (inl (omega arith)),
        put32_away x o v (p + 2) (inl (omega arith)),
        put32_away x o v (p + 3) (inl (omega arith)),
      )
      refl
get32-put32_away x o v p (inr h) =
    rw
      (
        put32_away x o v p (inr (omega arith)),
        put32_away x o v (p + 1) (inr (omega arith)),
        put32_away x o v (p + 2) (inr (omega arith)),
        put32_away x o v (p + 3) (inr (omega arith)),
      )
      refl
