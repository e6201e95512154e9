-- ===== src/Base/Integers.antt =====
-- Signed integers over the native numbers, and the conversion of a 32-bit word to int.
use Prim.Native.Nat.{ℕ, ◌-◌}
use coffee_os_aurora_refresh.Base.Tests.{ltb, if◌then◌else◌}

pub data ℤ : Type 0 where
  pos : ℕ → ℤ
  negsuc : ℕ → ℤ

-- (int)x for a 32-bit x, with negsuc n for -1 - n.
unfoldable pub to_int : ℕ → ℤ
to_int x = if ltb x 2147483648 then ℤ.pos x else ℤ.negsuc (4294967295 - x)
