-- ===== src/Base/Int.antt =====
-- Signed integers, as far as the library tests them.
use Prim.Native.Nat.{ℕ}
use mathlib.Core.Bool.{Bool, false}
use bullbitcoin_rnd.Base.Compare.{ltb}

-- `negsuc n` is -(n + 1).
pub data ℤ : Type 0 where
  pos : ℕ → ℤ
  negsuc : ℕ → ℤ

-- `z > 0`
abbrev pub is_positive : ℤ → Bool
is_positive (pos n) = ltb 0 n
is_positive (negsuc n) = false
