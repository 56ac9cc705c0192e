-- ===== src/Prelude/Word.antt =====
-- uint32 arithmetic: what `>>> 0` leaves of a sum or a difference of two uint32 values.
use Prim.Native.Nat.{ℕ, ◌+◌, ◌-◌, ◌%◌, ◌<◌}

abbrev pub u32_mod : ℕ
u32_mod = 4294967296

abbrev pub IsU32 : ℕ → Type 0
IsU32 v = v < u32_mod

-- `(a + b) >>> 0`
abbrev pub add_u32 : ℕ → ℕ → ℕ
add_u32 a b = (a + b) % u32_mod

-- `(a - b) >>> 0`, for `b` a uint32.
abbrev pub sub_u32 : ℕ → ℕ → ℕ
sub_u32 a b = (a + u32_mod - b) % u32_mod
