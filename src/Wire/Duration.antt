-- ===== src/Wire/Duration.antt =====
-- `encodeDuration` and `decodeDuration` of ts/src/wire.ts, from the BigInt `totalNs` on and up to the
-- BigInts `seconds` and `nanos`. The conversions of a double at either end, `Math.round(ms * 1e6)` and
-- `Number(seconds) * 1000 + Number(nanos) / 1e6`, are not modelled: where they round, the program's
-- milliseconds differ from the exact ones here. They do not round a whole number of milliseconds of at
-- most 2^53 nanoseconds, since every intermediate value is then a whole number that a double holds.
use grpc_dgram.Prelude.{
  ℕ, ◌+◌, ◌-◌, ◌*◌, ◌/◌, ◌%◌, ◌≤◌, ◌<◌, ◌≡◌, refl, Bool, true, false, ◌&&◌, List, [], ◌++◌, arith,
  length, length-append, u32_mod, append-nil, Bool-cases, inl, inr, subst, ltb, ◌==◌, if◌then◌else◌,
  ℤ, pos, negsuc, pos_part, neg_part, sub_ℕ,
}
use grpc_dgram.Wire.Writer
use grpc_dgram.Wire.Writer.{u64_mod}
use grpc_dgram.Wire.Reader.{Result, ok, varint, ◌>>=◌}
use grpc_dgram.Wire.Varint.{varint-varint64, length-varint_loop}
use grpc_dgram.Wire.Message.{
  Handler, ignore, decode, Decodes, Decodes-nil, Decodes-field, decode_of_Decodes,
}

abbrev pub billion : ℕ
billion = 1000000000

abbrev pub is_zero : ℤ → Bool
is_zero (pos n) = n == 0
is_zero (negsuc n) = false

-- `/` and `%` of BigInt: the quotient is truncated, and the remainder has the dividend's sign.
abbrev of_magnitude : Bool → ℕ → ℤ
of_magnitude true n = sub_ℕ 0 n
of_magnitude false n = pos n

abbrev is_negative : ℤ → Bool
is_negative (pos n) = false
is_negative (negsuc n) = true

abbrev magnitude : ℤ → ℕ
magnitude z = pos_part z + neg_part z

unfoldable pub quotient : ℤ → ℕ → ℤ
quotient z d = of_magnitude (is_negative z) (magnitude z / d)

unfoldable pub remainder : ℤ → ℕ → ℤ
remainder z d = of_magnitude (is_negative z) (magnitude z % d)

-- `BigInt.asUintN(64, v)`
unfoldable pub as_uint64 : ℤ → ℕ
as_uint64 (pos n) = n % u64_mod
as_uint64 (negsuc n) = u64_mod - 1 - n % u64_mod

-- `BigInt.asIntN(64, v)` and `BigInt.asIntN(32, v)`, for `v` not negative.
unfoldable pub as_int64 : ℕ → ℤ
as_int64 v = let w = v % u64_mod in if ltb w 0x8000000000000000 then pos w else sub_ℕ w u64_mod

unfoldable pub as_int32 : ℕ → ℤ
as_int32 v = let w = v % 4294967296 in if ltb w 0x80000000 then pos w else sub_ℕ w 4294967296

varint_field : ℕ → ℤ → List ℕ
varint_field field z = if is_zero z then [] else Writer.tag field 0 ++ Writer.varint64 (as_uint64 z)

-- The argument is `totalNs`.
unfoldable pub encode_duration : ℤ → List ℕ
unfolding varint_field
encode_duration ns = varint_field 1 (quotient ns billion) ++ varint_field 2 (remainder ns billion)

pub record Duration : Type 0 where
  pub seconds : ℤ
  pub nanos : ℤ

unfoldable pub duration_field : Handler Duration
duration_field field wire bs d =
    if field == 1 && (wire == 0)
    then (do (v, rest) ← varint bs; ok (record d { seconds = as_int64 v }, rest))
    else if field == 2 && (wire == 0)
    then (do (v, rest) ← varint bs; ok (record d { nanos = as_int32 v }, rest))
    else ignore wire d bs

-- The exact value of `seconds` and `nanos`, in nanoseconds.
unfoldable pub total_ns : Duration → ℤ
total_ns d =
    sub_ℕ (pos_part d.seconds * billion + pos_part d.nanos)
      (neg_part d.seconds * billion + neg_part d.nanos)

-- `decodeDuration` up to its last line.
unfoldable pub decode_parts : List ℕ → Result Duration
decode_parts bs = decode duration_field bs (record { seconds = pos 0; nanos = pos 0 })

unfoldable pub decode_duration : List ℕ → Result ℤ
decode_duration bs = do d ← decode_parts bs; ok (total_ns d)

as_int64-as_uint64 : (z : ℤ) → magnitude z < 0x8000000000000000 → as_int64 (as_uint64 z) ≡ z
unfolding as_int64 as_uint64
as_int64-as_uint64 (pos n) h = ground arith
as_int64-as_uint64 (negsuc n) h = ground arith

as_int32-as_uint64 : (z : ℤ) → magnitude z < 0x80000000 → as_int32 (as_uint64 z) ≡ z
unfolding as_int32 as_uint64
as_int32-as_uint64 (pos n) h = ground arith
as_int32-as_uint64 (negsuc n) h = ground arith

as_uint64-lt : (z : ℤ) → as_uint64 z < u64_mod
unfolding as_uint64
as_uint64-lt (pos n) = omega arith
as_uint64-lt (negsuc n) = omega arith

total_parts :
    (z : ℤ) → total_ns (record { seconds = quotient z billion; nanos = remainder z billion }) ≡ z
unfolding total_ns quotient remainder
total_parts (pos n) = ground arith
total_parts (negsuc n) = ground arith

zero_of : (z : ℤ) → is_zero z ≡ true → z ≡ pos 0
zero_of (pos n) h = ground arith
zero_of (negsuc n) h = cc

seconds_field :
    (z n : ℤ) (rest : List ℕ) (r : Duration)
    → magnitude z < 0x8000000000000000
    → Decodes duration_field rest (record { seconds = z; nanos = n }) r
    → Decodes duration_field (varint_field 1 z ++ rest) (record { seconds = pos 0; nanos = n }) r
unfolding varint_field
seconds_field z n rest r h d = elim (Bool-cases (is_zero z)) [
  | inl e ↦ rw e (
      subst (λ y. Decodes duration_field rest (record { seconds = y; nanos = n }) r) (zero_of z e)
        d)
  | inr e ↦ rw e (
      Decodes-field duration_field 1 0 (Writer.varint64 (as_uint64 z)) rest _
        (record { seconds = z; nanos = n }) r (omega arith) (omega arith) read d)
]
  where
    read :
        duration_field 1 0
          (Writer.varint64 (as_uint64 z) ++ rest)
          (record { seconds = pos 0; nanos = n })
        ≡ ok (record { seconds = z; nanos = n }, rest)
    read =
        unfold duration_field in
        rw (varint-varint64 (as_uint64 z) rest (as_uint64-lt z), as_int64-as_uint64 z h) refl

nanos_field :
    (z s : ℤ) (rest : List ℕ) (r : Duration)
    → magnitude z < 0x80000000
    → Decodes duration_field rest (record { seconds = s; nanos = z }) r
    → Decodes duration_field (varint_field 2 z ++ rest) (record { seconds = s; nanos = pos 0 }) r
unfolding varint_field
nanos_field z s rest r h d = elim (Bool-cases (is_zero z)) [
  | inl e ↦ rw e (
      subst (λ y. Decodes duration_field rest (record { seconds = s; nanos = y }) r) (zero_of z e)
        d)
  | inr e ↦ rw e (
      Decodes-field duration_field 2 0 (Writer.varint64 (as_uint64 z)) rest _
        (record { seconds = s; nanos = z }) r (omega arith) (omega arith) read d)
]
  where
    read :
        duration_field 2 0
          (Writer.varint64 (as_uint64 z) ++ rest)
          (record { seconds = s; nanos = pos 0 })
        ≡ ok (record { seconds = s; nanos = z }, rest)
    read =
        unfold duration_field in
        rw (varint-varint64 (as_uint64 z) rest (as_uint64-lt z), as_int32-as_uint64 z h) refl

-- The time spans whose seconds fit an int64.
abbrev pub Fits : ℤ → Type 0
Fits ns = pos_part ns + neg_part ns < 0x8000000000000000 * billion

parts_fit :
    (ns : ℤ)
    → Fits ns
    → (magnitude (quotient ns billion) < 0x8000000000000000)
      × (magnitude (remainder ns billion) < 0x80000000)
unfolding quotient remainder
parts_fit (pos n) h = ground arith
parts_fit (negsuc n) h = ground arith

-- The parts of a time span whose seconds fit an int64 are read back.
decode_parts-encode :
    (ns : ℤ)
    → Fits ns
    → decode_parts (encode_duration ns)
      ≡ ok (record { seconds = quotient ns billion; nanos = remainder ns billion })
unfolding decode_parts encode_duration
decode_parts-encode ns h =
    let q = quotient ns billion in
    let m = remainder ns billion in
    let (hq, hm) = parts_fit ns h in
    let last : Decodes duration_field (varint_field 2 m) (record { seconds = q; nanos = pos 0 })
        (record { seconds = q; nanos = m }) =
      rw append-nil at (nanos_field m q [] _ hm (Decodes-nil duration_field _)) in
    let all = seconds_field q (pos 0) (varint_field 2 m) _ hq last in
    decode_of_Decodes duration_field _ _ _ all

pub decode-encode_duration : (ns : ℤ) → Fits ns → decode_duration (encode_duration ns) ≡ ok ns
unfolding decode_duration
decode-encode_duration ns h = rw (decode_parts-encode ns h) (rw (total_parts ns))

-- A whole number of milliseconds as nanoseconds.
abbrev pub in_nanos : ℤ → ℤ
in_nanos (pos n) = pos (n * 1000000)
in_nanos (negsuc n) = sub_ℕ 0 ((n + 1) * 1000000)

-- Whole milliseconds from the parts.
abbrev pub total_ms : Duration → ℤ
total_ms d =
    sub_ℕ (pos_part d.seconds * 1000 + pos_part d.nanos / 1000000)
      (neg_part d.seconds * 1000 + neg_part d.nanos / 1000000)

whole_parts :
    (ms : ℤ)
    → ((pos_part (remainder (in_nanos ms) billion) + neg_part (remainder (in_nanos ms) billion))
          % 1000000
        ≡ 0)
      × (total_ms (record {
        seconds = quotient (in_nanos ms) billion;
        nanos = remainder (in_nanos ms) billion;
      })
          ≡ ms)
unfolding quotient remainder
whole_parts (pos n) = ground arith
whole_parts (negsuc n) = ground arith

in_nanos-Fits :
    (ms : ℤ) → (pos_part ms + neg_part ms) * 1000000 ≤ 9007199254740992 → Fits (in_nanos ms)
in_nanos-Fits (pos n) h = ground arith
in_nanos-Fits (negsuc n) h = ground arith

-- A whole number of milliseconds of either sign, of at most 2^53 nanoseconds, is written and read back as
-- parts that make up as many milliseconds, the nanoseconds a whole number of them.
pub decode_parts-encode_milliseconds :
    (ms : ℤ)
    → (pos_part ms + neg_part ms) * 1000000 ≤ 9007199254740992
    → (d : Duration) × (decode_parts (encode_duration (in_nanos ms)) ≡ ok d)
      × ((pos_part d.nanos + neg_part d.nanos) % 1000000 ≡ 0)
      × (total_ms d ≡ ms)
decode_parts-encode_milliseconds ms h =
    let (whole, back) = whole_parts ms in
    (_, decode_parts-encode (in_nanos ms) (in_nanos-Fits ms h), whole, back)

short_varint_field : (field : ℕ) (z : ℤ) → length (varint_field field z) ≤ 15
unfolding varint_field Writer.tag Writer.varint Writer.varint64
short_varint_field field z = elim (Bool-cases (is_zero z)) [
  | inl e ↦ rw e (omega arith)
  | inr e ↦ rw e (
      omega (
        arith,
        length-append (Writer.varint_loop 4 ((field * 8 + 0) % u32_mod))
            (Writer.varint_loop 9 (as_uint64 z % u64_mod)),
        length-varint_loop 4 ((field * 8 + 0) % u32_mod),
        length-varint_loop 9 (as_uint64 z % u64_mod),
      ))
]

pub short_duration : (ns : ℤ) → length (encode_duration ns) ≤ 30
unfolding encode_duration
short_duration ns = omega (
  arith,
  length-append (varint_field 1 (quotient ns billion)) (varint_field 2 (remainder ns billion)),
  short_varint_field 1 (quotient ns billion),
  short_varint_field 2 (remainder ns billion),
)
