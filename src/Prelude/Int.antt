-- ===== src/Prelude/Int.antt =====
-- Signed integers over the native numbers, and the values of an int64.
use Prim.Native.Nat.{ℕ, ◌+◌, ◌-◌, ◌%◌, ◌^◌, min}
use mathlib.Core.Bool.{Bool, true, false}
use imap_mcp.Prelude.Tests.{ltb, leb, if◌then◌else◌}

-- `negsuc n` is -(n + 1).
pub data ℤ : Type 0 where
  pos : ℕ → ℤ
  negsuc : ℕ → ℤ

-- b < a
abbrev pub gtb_ℤ : ℤ → ℤ → Bool
gtb_ℤ (pos a) (pos b) = ltb b a
gtb_ℤ (pos a) (negsuc b) = true
gtb_ℤ (negsuc a) (pos b) = false
gtb_ℤ (negsuc a) (negsuc b) = ltb a b

abbrev pub max_int64 : ℕ
max_int64 = 2 ^ 63 - 1

-- The int64 of a product that wraps around.
unfoldable pub wrap_int64 : ℕ → ℤ
wrap_int64 n = let m = n % 2 ^ 64 in if leb m max_int64 then pos m else negsuc (2 ^ 64 - 1 - m)

-- -x on int64; the negation of the least value is that value.
unfoldable pub neg_int64 : ℤ → ℤ
neg_int64 (pos n) = if leb n 0 then pos 0 else negsuc (n - 1)
neg_int64 (negsuc n) = if ltb n max_int64 then pos (n + 1) else negsuc n

-- t.Sub(u) of package time, in nanoseconds: the difference, held to the range of an int64.
unfoldable pub sub_time : ℕ → ℕ → ℤ
sub_time t u = if leb u t then pos (min (t - u) max_int64) else negsuc (min (u - t - 1) max_int64)
