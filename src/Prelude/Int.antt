-- ===== src/Prelude/Int.antt =====
-- Go's `int`, where it can be negative. `negsuc n` is -(n + 1).
use Prim.Native.Nat.{ℕ}
use mathlib.Core.Bool.{Bool, false}
use custom_cloudstack_ccm.Prelude.Tests.{ltb}

pub data ℤ : Type 0 where
  pos : ℕ → ℤ
  negsuc : ℕ → ℤ

-- `i >= 0 && i < n`
abbrev pub in_range : ℤ → ℕ → Bool
in_range (pos i) n = ltb i n
in_range (negsuc i) n = false

-- The index that is in range.
abbrev pub index : ℤ → ℕ
index (pos i) = i
index (negsuc i) = 0
