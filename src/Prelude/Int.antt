-- ===== src/Prelude/Int.antt =====
-- Python's `int`, as far as the services read it: a setting or a stored value that is clamped at 0.
use Prim.Native.Nat.{ℕ, zero, suc}

-- `negsuc n` is -(n + 1).
pub data ℤ : Type 0 where
  pos : ℕ → ℤ
  negsuc : ℕ → ℤ

-- `max(0, n)`
abbrev pub clamp : ℤ → ℕ
clamp (pos n) = n
clamp (negsuc n) = 0

-- `n or default`
abbrev pub nonzero_or : ℤ → ℤ → ℤ
nonzero_or (pos zero) default = default
nonzero_or (pos (suc n)) default = pos (suc n)
nonzero_or (negsuc n) default = negsuc n
