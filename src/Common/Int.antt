-- ===== src/Common/Int.antt =====
-- Signed integers over the native numbers, and the casts between int64_t and uint64_t.
use Prim.Native.Nat.{ℕ, ◌-◌, ◌^◌}
use hft_demo.Common.Tests.{ltb, if◌then◌else◌}

-- `negsuc n` is -(n + 1).
pub data ℤ : Type 0 where
  pos : ℕ → ℤ
  negsuc : ℕ → ℤ

-- static_cast<uint64_t> of an int64_t.
abbrev pub to_u64 : ℤ → ℕ
to_u64 (pos n) = n
to_u64 (negsuc n) = 2 ^ 64 - 1 - n

-- static_cast<int64_t> of a uint64_t.
abbrev pub to_i64 : ℕ → ℤ
to_i64 u = if ltb u (2 ^ 63) then pos u else negsuc (2 ^ 64 - 1 - u)
