-- ===== src/Metadata/Values.antt =====
-- The boundary between metadata values and the octets on the wire, ts/src/metadata.ts. A text is the
-- list of its UTF-16 code units.
use grpc_dgram.Prelude.{
  ℕ, ◌≡◌, refl, Bool, true, false, ◌&&◌, ◌||◌, List, [], ◌∷◌, arith, All, ◌==◌, if◌then◌else◌,
}
use grpc_dgram.Metadata.Base64.{codes, encode_base64, decode_base64, Result, ok}
use grpc_dgram.Metadata.Base64.RoundTrip.{decode-encode_base64}
use grpc_dgram.Wire.Text.{Text, Utf8, IsByte}

abbrev pub text_eq : Text → Text → Bool
text_eq [] [] = true
text_eq [] (d ∷ ds) = false
text_eq (c ∷ cs) [] = false
text_eq (c ∷ cs) (d ∷ ds) = (c == d) && text_eq cs ds

pub text_eq→eq : (s t : Text) → text_eq s t ≡ true → s ≡ t
text_eq→eq [] [] h = refl
text_eq→eq [] (d ∷ ds) h = cc
text_eq→eq (c ∷ cs) [] h = cc
text_eq→eq (c ∷ cs) (d ∷ ds) h = ground (arith, text_eq→eq cs ds)

pub text_eq_refl : (s : Text) → text_eq s s ≡ true
text_eq_refl [] = refl
text_eq_refl (c ∷ cs) = ground (arith, text_eq_refl cs)

-- `s.endsWith(suffix)`
unfoldable pub ends_with : Text → Text → Bool
ends_with suffix [] = text_eq suffix []
ends_with suffix (c ∷ cs) = text_eq suffix (c ∷ cs) || ends_with suffix cs

unfoldable pub is_binary_key : Text → Bool
is_binary_key key = ends_with (codes "-bin") key

-- `decode_lossy` is the platform's `TextDecoder` with replacement, which never fails.
pub record Codec : Type 1 where
  pub utf8 : Utf8
  pub decode_lossy : List ℕ → Text
  pub decode_lossy-encode : (s : Text) → utf8.IsWellFormed s → decode_lossy (utf8.encode s) ≡ s

-- A failure is the code's INTERNAL status, with the reason that base64 gave.
unfoldable pub encode_metadata_value : Codec → Text → Text → Result (List ℕ)
encode_metadata_value u key value =
    if is_binary_key key then decode_base64 value else ok (u.utf8.encode value)

unfoldable pub decode_metadata_value : Codec → Text → List ℕ → Text
decode_metadata_value u key bytes =
    if is_binary_key key then encode_base64 bytes else u.decode_lossy bytes

-- Octets that arrive under a binary key leave this endpoint again as they came.
pub encode-decode_metadata_value :
    (u : Codec) (key : Text) (bytes : List ℕ)
    → is_binary_key key ≡ true
    → All IsByte bytes
    → encode_metadata_value u key (decode_metadata_value u key bytes) ≡ ok bytes
unfolding encode_metadata_value decode_metadata_value
encode-decode_metadata_value u key bytes h b = rw h (decode-encode_base64 bytes b)

-- A text value is read back from what it was written as.
pub decode-encode_metadata_value :
    (u : Codec) (key value : Text)
    → is_binary_key key ≡ false
    → u.utf8.IsWellFormed value
    → (encode_metadata_value u key value ≡ ok (u.utf8.encode value))
      × (decode_metadata_value u key (u.utf8.encode value) ≡ value)
unfolding encode_metadata_value decode_metadata_value
decode-encode_metadata_value u key value h w = rw h (refl, u.decode_lossy-encode value w)
