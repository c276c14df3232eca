-- ===== src/Prelude/Words.antt =====
-- Go's fixed-width unsigned arithmetic.
use Prim.Native.Nat.{ℕ, ◌%◌, ◌^◌}

-- uint64: arithmetic wraps
abbrev pub u64 : ℕ → ℕ
u64 n = n % 2 ^ 64
