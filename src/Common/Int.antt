-- ===== src/Common/Int.antt =====
-- Signed integers over the native numbers.
use Prim.Native.Nat.{ℕ, ◌-◌, ◌^◌, ◌≤◌, ◌<◌}
use mathlib.Core.Path.{◌≡◌}
use native.Mathlib.Omega.{arith}
use go_codec_dagpb.Common.Tests.{ltb, if◌then◌else◌}

-- `negsuc n` is -(n + 1).
pub data ℤ : Type 0 where
  pos : ℕ → ℤ
  negsuc : ℕ → ℤ

-- Go's conversion `int64(v)` of a uint64: the same 64 bits.
unfoldable pub to_int64 : ℕ → ℤ
to_int64 v = if ltb v (2 ^ 63) then pos v else negsuc (2 ^ 64 - v - 1)

pub to_int64-pos : (v : ℕ) → v < 2 ^ 63 → to_int64 v ≡ pos v
unfolding to_int64
to_int64-pos v h = ground arith

pub to_int64-neg : (v : ℕ) → 2 ^ 63 ≤ v → to_int64 v ≡ negsuc (2 ^ 64 - v - 1)
unfolding to_int64
to_int64-neg v h = ground arith
