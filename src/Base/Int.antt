-- ===== src/Base/Int.antt =====
-- Signed results: Go's `time.Duration` and `int` where they may fall below zero.
use Prim.Native.Nat.{ℕ, suc, ◌-◌, ◌/◌}
use try_it_now.Base.Tests.{leb, if◌then◌else◌}

-- `negsuc n` is -(n + 1).
pub data ℤ : Type 0 where
  pos : ℕ → ℤ
  negsuc : ℕ → ℤ

-- a - b, as an integer.
abbrev pub sub_ℕ : ℕ → ℕ → ℤ
sub_ℕ a b = if leb b a then pos (a - b) else negsuc (b - a - 1)

-- The integer -n.
abbrev pub negate : ℕ → ℤ
negate n = sub_ℕ 0 n

-- Division that truncates towards zero, as Go's conversion of seconds to `int` does.
abbrev pub truncate_div : ℤ → ℕ → ℤ
truncate_div (pos n) d = pos (n / d)
truncate_div (negsuc n) d = negate (suc n / d)
