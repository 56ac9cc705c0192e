-- ===== src/Wire/Varint.antt =====
-- Reading back what the writer's primitives wrote.
use grpc_dgram.Prelude.{
  ℕ, zero, suc, ◌+◌, ◌*◌, ◌/◌, ◌%◌, ◌^◌, ◌≤◌, ◌<◌, ◌≡◌, refl, ap, List, [], ◌∷◌, ◌++◌, arith,
  length, append_assoc, IsU32,
}
use native.Mathlib.Nat.{div-add-mod}
use native.Mathlib.Numerals.{towards_suc}
use grpc_dgram.Wire.Writer
use grpc_dgram.Wire.Writer.{u64_mod}
use grpc_dgram.Wire.Reader
use grpc_dgram.Wire.Reader.{Result, ok, err, Error}

-- A value at bit `n` is its lowest seven bits there and its other bits seven places further.
low_and_high : (value n : ℕ) → value % 128 * 2 ^ n + value / 128 * 2 ^ (n + 7) ≡ value * 2 ^ n
low_and_high value n =
    let seven : 2 ^ (n + 7) ≡ 2 ^ n * 128 = simp towards_suc (omega arith) in
    let high : 2 ^ (n + 7) * (value / 128) ≡ 2 ^ n * 128 * (value / 128) =
      ap (λ (unit : ℕ). unit * (value / 128)) seven in
    let whole = ap (λ (x : ℕ). 2 ^ n * x) (div-add-mod value 128) in omega (arith, high, whole)

last_group :
    (rounds w out shift : ℕ) (rest : List ℕ)
    → w < 128
    → out + w * 2 ^ shift < u64_mod
    → Reader.varint_loop (suc rounds) out shift (w ∷ rest) ≡ ok (out + w * 2 ^ shift, rest)
unfolding Reader.varint_loop
last_group rounds w out shift rest h fits = ground arith

inner_group :
    (rounds g out shift : ℕ) (rest : List ℕ)
    → g < 128
    → Reader.varint_loop (suc rounds) out shift ((g + 128) ∷ rest)
      ≡ Reader.varint_loop rounds (out + g * 2 ^ shift) (shift + 7) rest
unfolding Reader.varint_loop
inner_group rounds g out shift rest h = ground arith

varint_loop_back :
    (k rounds w out shift : ℕ) (rest : List ℕ)
    → w < 128 ^ suc k
    → out + w * 2 ^ shift < u64_mod
    → k < rounds
    → Reader.varint_loop rounds out shift (Writer.varint_loop k w ++ rest)
      ≡ ok (out + w * 2 ^ shift, rest)
unfolding Writer.varint_loop
varint_loop_back zero (suc rounds) w out shift rest hw fits hk =
    last_group rounds w out shift rest (omega arith) fits
varint_loop_back k zero w out shift rest hw fits hk = absurd (omega arith)
varint_loop_back (suc k) (suc rounds) w out shift rest hw fits hk = ground (
  arith,
  low_and_high w shift,
  last_group rounds w out shift rest,
  inner_group rounds (w % 128) out shift (Writer.varint_loop k (w / 128) ++ rest),
  varint_loop_back k rounds (w / 128) (out + w % 128 * 2 ^ shift) (shift + 7) rest (omega arith),
)

-- A uint32 is read back from its varint, whatever follows.
pub varint-varint :
    (v : ℕ) (rest : List ℕ) → IsU32 v → Reader.varint (Writer.varint v ++ rest) ≡ ok (v, rest)
unfolding Reader.varint Writer.varint
varint-varint v rest h = ground (arith, varint_loop_back 4 10 v 0 0 rest)

pub varint32-varint :
    (v : ℕ) (rest : List ℕ) → IsU32 v → Reader.varint32 (Writer.varint v ++ rest) ≡ ok (v, rest)
unfolding Reader.varint32
varint32-varint v rest h = ground (arith, varint-varint v rest)

-- A 64-bit value is read back from its varint, whatever follows.
pub varint-varint64 :
    (v : ℕ) (rest : List ℕ) → v < u64_mod → Reader.varint (Writer.varint64 v ++ rest) ≡ ok (v, rest)
unfolding Reader.varint Writer.varint64
varint-varint64 v rest h = ground (arith, varint_loop_back 9 10 v 0 0 rest)

pub varint32-tag :
    (field wire : ℕ) (rest : List ℕ)
    → IsU32 (field * 8 + wire)
    → Reader.varint32 (Writer.tag field wire ++ rest) ≡ ok (field * 8 + wire, rest)
unfolding Writer.tag
varint32-tag field wire rest h = varint32-varint (field * 8 + wire) rest h

varint_loop_nonempty : (k n : ℕ) → 1 ≤ length (Writer.varint_loop k n)
unfolding Writer.varint_loop
varint_loop_nonempty zero n = omega arith
varint_loop_nonempty (suc k) n = ground arith

pub tag_nonempty : (field wire : ℕ) → 1 ≤ length (Writer.tag field wire)
unfolding Writer.tag Writer.varint
tag_nonempty field wire = varint_loop_nonempty 4 _

pub split-append : (v rest : List ℕ) → Reader.split (length v) (v ++ rest) ≡ ok (v, rest)
unfolding Reader.split
split-append [] rest = refl
split-append (b ∷ v) rest = rw (split-append v rest)

-- A length-delimited field's body is read back, whatever follows.
pub bytes-bytes :
    (v rest : List ℕ)
    → IsU32 (length v)
    → Reader.bytes ((Writer.varint (length v) ++ v) ++ rest) ≡ ok (v, rest)
unfolding Reader.bytes
bytes-bytes v rest h =
    rw append_assoc (rw (varint32-varint (length v) (v ++ rest) h) (split-append v rest))

-- The four bytes of a fixed32 field's body.
abbrev pub le32 : ℕ → List ℕ
le32 n = (n % 256) ∷ (n / 256 % 256) ∷ (n / 65536 % 256) ∷ (n / 16777216 % 256) ∷ []

pub fixed32-le32 :
    (v : ℕ) (rest : List ℕ) → IsU32 v → Reader.fixed32 (le32 v ++ rest) ≡ ok (v, rest)
unfolding Reader.fixed32
fixed32-le32 v rest h = ground arith

pub length-varint_loop : (k n : ℕ) → length (Writer.varint_loop k n) ≤ suc k
unfolding Writer.varint_loop
length-varint_loop zero n = omega arith
length-varint_loop (suc k) n = ground (arith, length-varint_loop k (n / 128))
