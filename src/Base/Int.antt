-- ===== src/Base/Int.antt =====
-- The integers that Go's `int`, `int64` and `time.Duration` take, where the source lets them be
-- negative. `negsuc n` is -(n + 1).
use Prim.Native.Nat.{ℕ, zero, suc}

pub data ℤ : Type 0 where
  pos : ℕ → ℤ
  negsuc : ℕ → ℤ

-- `if value <= 0 { value = fallback }`, whose result is never negative.
abbrev pub or_default : ℤ → ℕ → ℕ
or_default (pos zero) d = d
or_default (pos (suc n)) d = suc n
or_default (negsuc n) d = d
