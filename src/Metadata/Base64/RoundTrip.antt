-- ===== src/Metadata/Base64/RoundTrip.antt =====
-- `decodeBase64` after `encodeBase64`.
use grpc_dgram.Prelude.{
  ℕ, zero, suc, ◌+◌, ◌*◌, ◌/◌, ◌%◌, ◌≤◌, ◌<◌, ◌≡◌, ◌≢◌, refl, Bool, true, false, not, ◌&&◌, List,
  [], ◌∷◌, arith, length, All, ◌==◌, some, none, ◌∙◌,
}
use grpc_dgram.Metadata.Base64.{
  char_of, value_of, encode_base64, decode_base64, strip, six, groups, ok,
}

-- Every six-bit value has a character, which is not `=` and stands for that value alone.
holds_at : ℕ → Bool
holds_at i = elim (value_of (char_of i)) [
  | none ↦ false
  | some v ↦ (v == i) && not (char_of i == b'=')
]

holds_below : ℕ → Bool
holds_below zero = true
holds_below (suc n) = holds_at n && holds_below n

holds_below→holds_at : (n i : ℕ) → holds_below n ≡ true → i < n → holds_at i ≡ true
unfolding holds_below
holds_below→holds_at zero i e h = absurd (omega arith)
holds_below→holds_at (suc n) i e h = ground (arith, holds_below→holds_at n i)

table : holds_below 64 ≡ true
unfolding holds_below holds_at char_of value_of
table = refl

value_of-char_of : (i : ℕ) → i < 64 → (value_of (char_of i) ≡ some i) × (char_of i ≢ b'=')
unfolding holds_at
value_of-char_of i h = ground (arith, holds_below→holds_at 64 i table h)

six-char_of : (i : ℕ) → i < 64 → six (char_of i) ≡ ok i
unfolding six
six-char_of i h = rw ((value_of-char_of i h).0)

strip_char :
    (i : ℕ) (cs : List ℕ)
    → i < 64
    → strip (char_of i ∷ cs) ≡ (char_of i ∷ (strip cs).0, (strip cs).1)
unfolding strip
strip_char i cs h = ground (arith, value_of-char_of i h)

groups_four :
    (x y z w : ℕ) (rest out : List ℕ)
    → x < 64
    → y < 64
    → z < 64
    → w < 64
    → groups rest ≡ ok out
    → let n = x * 262144 + y * 4096 + z * 64 + w in
      groups (char_of x ∷ char_of y ∷ char_of z ∷ char_of w ∷ rest)
      ≡ ok (n / 65536 % 256 ∷ (n / 256 % 256 ∷ (n % 256 ∷ out)))
unfolding groups
groups_four x y z w rest out hx hy hz hw e =
    rw (six-char_of x hx, six-char_of y hy, six-char_of z hz, six-char_of w hw, e)

strip_four :
    (x y z w : ℕ) (rest : List ℕ)
    → x < 64
    → y < 64
    → z < 64
    → w < 64
    → strip (char_of x ∷ char_of y ∷ char_of z ∷ char_of w ∷ rest)
      ≡ (char_of x ∷ char_of y ∷ char_of z ∷ char_of w ∷ (strip rest).0, (strip rest).1)
strip_four x y z w rest hx hy hz hw =
    rw (strip_char x _ hx, strip_char y _ hy, strip_char z _ hz, strip_char w rest hw)

-- What `encode_base64` writes, as the decoder takes it apart.
record Reads (bs s : List ℕ) : Type 0 where
  back : groups (strip s).0 ≡ ok bs
  padding : (strip s).1 ≤ 2
  whole : length s % 4 ≡ 0
  grouped : length (strip s).0 % 4 ≢ 1

ends_two :
    (x y a : ℕ)
    → x < 64
    → y < 64
    → (x * 4 + y / 16) % 256 ≡ a
    → Reads (a ∷ []) (char_of x ∷ char_of y ∷ b'=' ∷ b'=' ∷ [])
ends_two x y a hx hy e = record {
  back = rw shape (unfold groups in rw (six-char_of x hx, six-char_of y hy, e));
  padding = rw shape (omega arith);
  whole = omega arith;
  grouped = rw shape (omega arith);
}
  where
    shape : strip (char_of x ∷ char_of y ∷ b'=' ∷ b'=' ∷ []) ≡ (char_of x ∷ char_of y ∷ [], 2)
    shape = rw (strip_char x _ hx, strip_char y _ hy) (unfold strip in refl)

ends_three :
    (x y z a b : ℕ)
    → x < 64
    → y < 64
    → z < 64
    → (x * 4096 + y * 64 + z) / 1024 % 256 ≡ a
    → (x * 4096 + y * 64 + z) / 4 % 256 ≡ b
    → Reads (a ∷ b ∷ []) (char_of x ∷ char_of y ∷ char_of z ∷ b'=' ∷ [])
ends_three x y z a b hx hy hz e f = record {
  back =
      rw shape (unfold groups in rw (six-char_of x hx, six-char_of y hy, six-char_of z hz, e, f));
  padding = rw shape (omega arith);
  whole = omega arith;
  grouped = rw shape (omega arith);
}
  where
    shape :
        strip (char_of x ∷ char_of y ∷ char_of z ∷ b'=' ∷ [])
        ≡ (char_of x ∷ char_of y ∷ char_of z ∷ [], 1)
    shape = rw (strip_char x _ hx, strip_char y _ hy, strip_char z _ hz) (unfold strip in refl)

starts_four :
    (x y z w a b c : ℕ) (rest s : List ℕ)
    → x < 64
    → y < 64
    → z < 64
    → w < 64
    → (x * 262144 + y * 4096 + z * 64 + w) / 65536 % 256 ≡ a
    → (x * 262144 + y * 4096 + z * 64 + w) / 256 % 256 ≡ b
    → (x * 262144 + y * 4096 + z * 64 + w) % 256 ≡ c
    → Reads rest s
    → Reads (a ∷ b ∷ c ∷ rest) (char_of x ∷ char_of y ∷ char_of z ∷ char_of w ∷ s)
starts_four x y z w a b c rest s hx hy hz hw e f g r =
    let shape = strip_four x y z w s hx hy hz hw in
    record {
      back = rw shape (groups_four x y z w (strip s).0 rest hx hy hz hw r.back ∙ rw (e, f, g));
      padding = rw shape r.padding;
      whole = omega (arith, r.whole);
      grouped = rw shape (omega (arith, r.grouped));
    }

encode-Reads : (bs : List ℕ) → All (λ b. b < 256) bs → Reads bs (encode_base64 bs)
unfolding encode_base64
encode-Reads [] h =
    unfold strip groups in
    record { back = refl; padding = omega arith; whole = omega arith; grouped = omega arith }
encode-Reads (a ∷ []) h =
    let n = a * 65536 in
    ends_two (n / 262144 % 64) (n / 4096 % 64) a (omega arith) (omega arith) (omega arith)
encode-Reads (a ∷ b ∷ []) h =
    let n = a * 65536 + b * 256 in
    ends_three (n / 262144 % 64) (n / 4096 % 64) (n / 64 % 64) a b (omega arith) (omega arith)
      (omega arith) (omega arith) (omega arith)
encode-Reads (a ∷ b ∷ c ∷ rest) h =
    let n = a * 65536 + b * 256 + c in
    starts_four (n / 262144 % 64) (n / 4096 % 64) (n / 64 % 64) (n % 64) a b c rest
      (encode_base64 rest) (omega arith) (omega arith) (omega arith) (omega arith) (omega arith)
      (omega arith) (omega arith) (encode-Reads rest h.1.1.1)

-- Bytes are decoded from their base64 text as they were.
pub decode-encode_base64 :
    (bs : List ℕ) → All (λ b. b < 256) bs → decode_base64 (encode_base64 bs) ≡ ok bs
unfolding decode_base64
decode-encode_base64 bs h = let r = encode-Reads bs h in ground (arith, r)
