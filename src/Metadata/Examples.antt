-- ===== src/Metadata/Examples.antt =====
-- Metadata values at concrete inputs.
use grpc_dgram.Prelude.{◌≡◌, ◌≢◌, refl, ◌↔◌, [], ◌∷◌, some, All, arith}
use grpc_dgram.Metadata.Base64.{codes, char_of, encode_base64, decode_base64, ok}
use grpc_dgram.Metadata.Join.{
  metadata_join, metadata_join_values, JoinedAt, get_key, inherited, type_error, clone_metadata,
  assign, join_onto, is_plain,
}
use grpc_dgram.Metadata.Base64.RoundTrip.{decode-encode_base64}
use grpc_dgram.Metadata.Values.{
  encode_metadata_value, decode_metadata_value, is_binary_key, ends_with,
  decode-encode_metadata_value,
}
use grpc_dgram.Metadata.Validation.{
  validate_metadata_pair, valid, IsKeyChar, Sends, validate_metadata_pair-valid,
}
use grpc_dgram.Wire.TwoByte.{codec, utf8, encode}

foob : encode_base64 (0x66 ∷ 0x6f ∷ 0x6f ∷ 0x62 ∷ []) ≡ codes "Zm9vYg=="
unfolding encode_base64 char_of
foob = refl

decode-encode_base64_example :
    decode_base64 (encode_base64 (255 ∷ 0 ∷ 7 ∷ 9 ∷ [])) ≡ ok (255 ∷ 0 ∷ 7 ∷ 9 ∷ [])
decode-encode_base64_example =
    decode-encode_base64 (255 ∷ 0 ∷ 7 ∷ 9 ∷ [])
      (omega arith, (omega arith, (omega arith, (omega arith, tt))))

decode-encode_metadata_value_example :
    (encode_metadata_value codec (codes "a") (66 ∷ []) ≡ ok (0 ∷ 66 ∷ []))
    × (decode_metadata_value codec (codes "a") (0 ∷ 66 ∷ []) ≡ 66 ∷ [])
unfolding codec utf8 encode is_binary_key ends_with
decode-encode_metadata_value_example =
    decode-encode_metadata_value codec (codes "a") (66 ∷ []) refl (omega arith, tt)

validate_metadata_pair-valid_example :
    (validate_metadata_pair (codes "a") ((66 ∷ []) ∷ []) ≡ valid) ↔ (
      (codes "a" ≢ []) × All IsKeyChar (codes "a") × All (Sends codec (codes "a")) ((66 ∷ []) ∷ []))
validate_metadata_pair-valid_example =
    validate_metadata_pair-valid codec (codes "a") ((66 ∷ []) ∷ [])

metadata_join_values_example :
    JoinedAt
      (codes "k")
      (metadata_join
        (some ((codes "k", codes "a" ∷ []) ∷ []))
        (some ((codes "j", codes "c" ∷ []) ∷ (codes "k", codes "b" ∷ []) ∷ [])))
      (some (codes "a" ∷ codes "b" ∷ []))
unfolding get_key inherited
metadata_join_values_example =
    metadata_join_values (codes "k") (some ((codes "k", codes "a" ∷ []) ∷ []))
      (some ((codes "j", codes "c" ∷ []) ∷ (codes "k", codes "b" ∷ []) ∷ [])) (refl, tt)
      (refl, (refl, tt)) (refl, tt) (refl, (refl, tt))

-- The keys of `Object.prototype`: the constructor cannot be spread, and `__proto__` gets no entry.
join_constructor :
    metadata_join (some []) (some ((codes "constructor", codes "a" ∷ []) ∷ [])) ≡ type_error
unfolding metadata_join is_plain clone_metadata join_onto get_key inherited
join_constructor = refl

clone_proto : clone_metadata ((codes "__proto__", codes "a" ∷ []) ∷ []) ≡ []
unfolding clone_metadata assign
clone_proto = refl
