-- ===== src/Wire/MetadataCodec.antt =====
-- `encodeMetadata` and `decodeMetadata` of ts/src/wire.ts. A metadata object is the list of its keys
-- with their values, each key once.
pub mod RoundTrip
pub mod Sorted
use grpc_dgram.Prelude.{
  ℕ, suc, ◌+◌, ◌≤◌, ◌<◌, ◌≡◌, refl, Bool, true, false, ◌&&◌, List, [], ◌∷◌, ◌++◌, map, Option, none,
  some, ltb, ◌==◌, if◌then◌else◌,
}
use grpc_dgram.Metadata.Base64
use grpc_dgram.Metadata.Values.{Codec, text_eq, encode_metadata_value, decode_metadata_value}
use grpc_dgram.Wire.Text.{Text}
use grpc_dgram.Wire.Writer
use grpc_dgram.Wire.Reader
use grpc_dgram.Wire.Reader.{Result, ok, err, ◌>>=◌}
use grpc_dgram.Wire.Message.{Handler, expect, ignore, decode}
use grpc_dgram.Wire.Nested.{nested}

abbrev pub Metadata : Type 0
Metadata = List (Text × List Text)

-- JavaScript's order on strings: by code units.
unfoldable pub text_lt : Text → Text → Bool
text_lt [] [] = false
text_lt [] (d ∷ ds) = true
text_lt (c ∷ cs) [] = false
text_lt (c ∷ cs) (d ∷ ds) = if c == d then text_lt cs ds else ltb c d

unfoldable pub insert_entry : Text × List Text → Metadata → Metadata
insert_entry e [] = e ∷ []
insert_entry (k, vs) ((j, ws) ∷ md) =
    if text_lt k j then (k, vs) ∷ (j, ws) ∷ md else (j, ws) ∷ insert_entry (k, vs) md

-- `Object.keys(md).sort()`, with each key's values.
unfoldable pub sort_entries : Metadata → Metadata
sort_entries [] = []
sort_entries (e ∷ md) = insert_entry e (sort_entries md)

unfoldable pub encode_values : Codec → Text → List Text → Base64.Result (List ℕ)
encode_values u key [] = Base64.ok []
encode_values u key (v ∷ vs) =
    Base64.◌>>=◌ (encode_metadata_value u key v)
      λ b. Base64.◌>>=◌ (encode_values u key vs) λ bs. Base64.ok (Writer.bytes 2 b ++ bs)

-- The key is written even when it is empty.
unfoldable pub encode_entry : Codec → Text × List Text → Base64.Result (List ℕ)
encode_entry u (key, vs) =
    Base64.◌>>=◌ (encode_values u key vs) λ bs. Base64.ok (Writer.bytes 1 (u.utf8.encode key) ++ bs)

unfoldable pub encode_entries : Codec → Metadata → Base64.Result (List ℕ)
encode_entries u [] = Base64.ok []
encode_entries u (e ∷ md) =
    Base64.◌>>=◌ (encode_entry u e)
      λ b. Base64.◌>>=◌ (encode_entries u md) λ bs. Base64.ok (Writer.bytes 1 b ++ bs)

unfoldable pub encode_metadata : Codec → Metadata → Base64.Result (List ℕ)
encode_metadata u md = encode_entries u (sort_entries md)

-- An entry as it is read: its values stay octets until the entry has closed.
pub record Entry : Type 0 where
  pub key : Text
  pub raw : List (List ℕ)

unfoldable pub entry_field : Codec → Handler Entry
entry_field u field wire bs e =
    if field == 1 && (wire == 2)
    then (do (v, rest) ← Reader.string u.utf8 bs; ok (record e { key = v }, rest))
    else if field == 2 && (wire == 2)
    then (do (v, rest) ← Reader.bytes bs; ok (record e { raw = e.raw ++ (v ∷ []) }, rest))
    else ignore wire e bs

unfoldable pub decode_entry : Codec → List ℕ → Result Entry
decode_entry u bs = decode (entry_field u) bs (record { key = []; raw = [] })

-- A key that repeats appends its values in place.
unfoldable pub merge_entry : Text → List Text → Metadata → Metadata
merge_entry key vals [] = (key, vals) ∷ []
merge_entry key vals ((j, ws) ∷ md) =
    if text_eq j key then (j, ws ++ vals) ∷ md else (j, ws) ∷ merge_entry key vals md

add_entry : Codec → Metadata → Entry → Metadata
add_entry u md e = merge_entry e.key (map (decode_metadata_value u e.key) e.raw) md

unfoldable pub metadata_field : Codec → Handler Metadata
unfolding add_entry
metadata_field u field wire bs md =
    if field == 1 && (wire == 2)
    then (do (e, rest) ← nested (decode_entry u) bs; ok (add_entry u md e, rest))
    else ignore wire md bs

unfoldable pub decode_metadata : Codec → List ℕ → Result Metadata
decode_metadata u bs = decode (metadata_field u) bs []
