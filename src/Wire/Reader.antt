-- ===== src/Wire/Reader.antt =====
-- `Reader` of ts/src/wire.ts. The reader is the input that is left; a failed read ends the decoding.
use grpc_dgram.Prelude.{
  ℕ, zero, suc, ◌+◌, ◌*◌, ◌%◌, ◌^◌, List, [], ◌∷◌, Option, none, some, ltb, ◌==◌, if◌then◌else◌,
  u32_mod,
}
use grpc_dgram.Wire.Text.{Utf8, Text}
use grpc_dgram.Wire.Writer.{u64_mod}

-- `stuck` is no outcome of the program: a loop of this model ran out of fuel.
pub data Error : Type 0 where
  truncated varint_too_long not_utf8 stuck : Error
  wire_type : ℕ → Error

pub data Result {ℓ} (A : Type ℓ) : Type ℓ where
  ok : A → Result A
  err : Error → Result A

infixl 5 ◌>>=◌
abbrev pub ◌>>=◌ {ℓ κ} : {A : Type ℓ} {B : Type κ} → Result A → (A → Result B) → Result B
ok a >>= f = f a
err e >>= f = err e

-- `rounds` more bytes may follow; `out` holds the bits read so far, all below 2 ^ shift, so that
-- joining the next group to them is a sum.
unfoldable pub varint_loop : ℕ → ℕ → ℕ → List ℕ → Result (ℕ × List ℕ)
varint_loop zero out shift bs = err varint_too_long
varint_loop (suc rounds) out shift [] = err truncated
varint_loop (suc rounds) out shift (b ∷ bs) =
    let out' = out + b % 128 * 2 ^ shift in
    let more = varint_loop rounds out' (shift + 7) bs in
    if ltb b 0x80 then ok (out' % u64_mod, bs) else more

-- `for (shift = 0n; shift < 70n; shift += 7n)`: ten rounds.
unfoldable pub varint : List ℕ → Result (ℕ × List ℕ)
varint bs = varint_loop 10 0 0 bs

unfoldable pub varint32 : List ℕ → Result (ℕ × List ℕ)
varint32 bs = do (v, rest) ← varint bs; ok (v % u32_mod, rest)

unfoldable pub fixed32 : List ℕ → Result (ℕ × List ℕ)
fixed32 (a ∷ b ∷ c ∷ d ∷ rest) = ok (a + b * 256 + c * 65536 + d * 16777216, rest)
fixed32 bs = err truncated

-- The first `n` bytes and the others, if there are so many.
unfoldable pub split : ℕ → List ℕ → Result (List ℕ × List ℕ)
split zero bs = ok ([], bs)
split (suc n) [] = err truncated
split (suc n) (b ∷ bs) = do (front, rest) ← split n bs; ok (b ∷ front, rest)

unfoldable pub bytes : List ℕ → Result (List ℕ × List ℕ)
bytes bs = do (n, rest) ← varint32 bs; split n rest

abbrev pub or_fail {ℓ} : {A : Type ℓ} → Option A → Error → Result A
or_fail none e = err e
or_fail (some a) e = ok a

unfoldable pub string : Utf8 → List ℕ → Result (Text × List ℕ)
string u bs = do (raw, rest) ← bytes bs; text ← or_fail (u.decode raw) not_utf8; ok (text, rest)

unfoldable pub skip : ℕ → List ℕ → Result (List ℕ)
skip wire bs =
    if wire == 0
    then (do (v, rest) ← varint bs; ok rest)
    else if wire == 1
    then (do (v, rest) ← split 8 bs; ok rest)
    else if wire == 2
    then (do (v, rest) ← bytes bs; ok rest)
    else if wire == 5
    then (do (v, rest) ← fixed32 bs; ok rest)
    else err (wire_type wire)
