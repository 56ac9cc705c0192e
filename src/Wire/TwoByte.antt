-- ===== src/Wire/TwoByte.antt =====
-- A text encoding with two bytes for a code unit, at which the theorems about every platform's
-- encoder and decoder are tried out.
use grpc_dgram.Prelude.{
  ℕ, ◌+◌, ◌*◌, ◌/◌, ◌%◌, ◌<◌, ◌≡◌, refl, List, [], ◌∷◌, Option, none, some, All, arith,
}
use grpc_dgram.Wire.Text.{IsByte, Text, Utf8}
use grpc_dgram.Metadata.Values.{Codec}

unfoldable pub encode : Text → List ℕ
encode [] = []
encode (c ∷ cs) = c / 256 % 256 ∷ c % 256 ∷ encode cs

cons : ℕ → Option Text → Option Text
cons c none = none
cons c (some cs) = some (c ∷ cs)

unfoldable pub decode : List ℕ → Option Text
unfolding cons
decode [] = some []
decode (a ∷ []) = none
decode (a ∷ b ∷ bs) = cons (a * 256 + b) (decode bs)

lossy : Option Text → Text
lossy none = []
lossy (some s) = s

pub encode-IsByte : (s : Text) → All IsByte (encode s)
unfolding encode
encode-IsByte [] = tt
encode-IsByte (c ∷ cs) = (omega arith, (omega arith, encode-IsByte cs))

pub decode-encode : (s : Text) → All (λ c. c < 65536) s → decode (encode s) ≡ some s
unfolding encode decode cons
decode-encode [] h = refl
decode-encode (c ∷ cs) h =
    let e : c / 256 % 256 * 256 + c % 256 ≡ c = omega (arith, h.0) in
    rw (decode-encode cs h.1, e) refl

unfoldable pub utf8 : Utf8
unfolding encode decode
utf8 = record {
  IsWellFormed = All (λ c. c < 65536);
  encode = encode;
  decode = decode;
  encode-IsByte = encode-IsByte;
  decode-encode = decode-encode;
}

unfoldable pub codec : Codec
unfolding utf8 lossy
codec = record {
  utf8 = utf8;
  decode_lossy = λ bs. lossy (decode bs);
  decode_lossy-encode = λ s h. rw (decode-encode s h) refl;
}
