-- ===== src/Wire/Writer.antt =====
-- `Writer` of ts/src/wire.ts, as functions that return the bytes written. `n & 0x7f` is `n % 128`,
-- `n >>> 7` is `n / 128`, and `0x80` is set in a byte below 128 by adding 128.
use grpc_dgram.Prelude.{
  ℕ, zero, suc, ◌+◌, ◌*◌, ◌/◌, ◌%◌, List, [], ◌∷◌, ◌++◌, length, ltb, if◌then◌else◌, u32_mod,
}

-- The loop of `varint` and `varint64`; a value below 2 ^ 32 takes at most 5 rounds, one below
-- 2 ^ 64 at most 10. `rounds` counts the rounds after the current one.
unfoldable pub varint_loop : ℕ → ℕ → List ℕ
varint_loop zero n = n ∷ []
varint_loop (suc rounds) n =
    let more = (n % 128 + 128) ∷ varint_loop rounds (n / 128) in if ltb 0x7f n then more else n ∷ []

abbrev pub u64_mod : ℕ
u64_mod = 18446744073709551616

unfoldable pub varint : ℕ → List ℕ
varint v = varint_loop 4 (v % u32_mod)

unfoldable pub varint64 : ℕ → List ℕ
varint64 v = varint_loop 9 (v % u64_mod)

-- `(field << 3) | wire`, for a wire type below 8.
unfoldable pub tag : ℕ → ℕ → List ℕ
tag field wire = varint (field * 8 + wire)

unfoldable pub fixed32 : ℕ → ℕ → List ℕ
fixed32 field v =
    let n = v % u32_mod in
    tag field 5 ++ ((n % 256) ∷ (n / 256 % 256) ∷ (n / 65536 % 256) ∷ (n / 16777216 % 256) ∷ [])

unfoldable pub bytes : ℕ → List ℕ → List ℕ
bytes field v = tag field 2 ++ (varint (length v) ++ v)
