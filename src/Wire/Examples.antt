-- ===== src/Wire/Examples.antt =====
-- Frames and their parts at concrete inputs.
use grpc_dgram.Prelude.{
  ℕ, ◌≡◌, refl, List, [], ◌∷◌, some, pos, negsuc, pos_part, neg_part, ◌+◌, ◌%◌, arith,
}
use grpc_dgram.Metadata.Base64
use grpc_dgram.Metadata.Values.{
  encode_metadata_value, decode_metadata_value, is_binary_key, ends_with,
}
use grpc_dgram.Wire.TwoByte.{codec, utf8, encode}
use grpc_dgram.Wire.Writer
use grpc_dgram.Wire.Reader.{ok}
use grpc_dgram.Wire.Duration.{
  Duration, encode_duration, decode_parts, in_nanos, total_ms, decode_parts-encode_milliseconds,
}
use grpc_dgram.Wire.MetadataCodec.{Metadata, sort_entries, insert_entry, text_lt}
use grpc_dgram.Wire.MetadataCodec.RoundTrip.{EntryFits, value_fields}
use grpc_dgram.Wire.Flags.{Frame, frame}
use grpc_dgram.Wire.Nested.{fixed_field, varint_field, text_field, optional_bytes, optional_varint}
use grpc_dgram.Wire.Frames.{
  frame_fields, detail_fields, encode_frame, decode_frame, encode_envelope, decode_envelope,
}
use grpc_dgram.Wire.Frames.Total.{Ends, decode_envelope-Ends}
use grpc_dgram.Wire.Frames.RoundTrip.{
  FrameFits, MetadataFits, EnvelopeFits, decode-encode_frame, decode-encode_envelope, frame_bytes,
}

-- A second and a half, before.
decode_parts-encode_milliseconds_example :
    (d : Duration) × (decode_parts (encode_duration (in_nanos (negsuc 1499))) ≡ ok d)
    × ((pos_part d.nanos + neg_part d.nanos) % 1000000 ≡ 0)
    × (total_ms d ≡ negsuc 1499)
decode_parts-encode_milliseconds_example =
    decode_parts-encode_milliseconds (negsuc 1499) (omega arith)

-- Two keys, the first of them without a value.
abbrev pairs : Metadata
pairs = (98 ∷ [], []) ∷ (97 ∷ [], (66 ∷ []) ∷ []) ∷ []

abbrev pair : Metadata
pair = (97 ∷ [], (66 ∷ []) ∷ []) ∷ []

pair-EntryFits : EntryFits codec (97 ∷ [], (66 ∷ []) ∷ [])
unfolding codec utf8 encode encode_metadata_value decode_metadata_value is_binary_key ends_with
    value_fields Writer.bytes Writer.tag Writer.varint Writer.varint_loop
pair-EntryFits = (
  ((omega arith, tt), omega arith),
  ((0 ∷ 66 ∷ []) ∷ [], (refl, refl, omega arith, tt), omega arith),
)

-- A request in one frame: a method, a time limit, an empty payload and one header entry.
abbrev request : Frame
request = record frame {
  epoch = 9;
  sid = 1;
  seq = 1;
  flags = 3;
  method = 47 ∷ 77 ∷ [];
  timeout = some (pos 2_000_000_000);
  payload = some [];
  header = some pair;
  conn_window = 1024;
}

pair-MetadataFits : MetadataFits codec pair
unfolding codec utf8 encode value_fields Writer.bytes Writer.tag Writer.varint Writer.varint_loop
    sort_entries insert_entry text_lt pair-EntryFits
pair-MetadataFits = record {
  entries = (pair-EntryFits, tt);
  distinct = (tt, tt);
  ascending = refl;
  whole = omega arith;
}

request-FrameFits : FrameFits codec request
unfolding codec utf8 encode
request-FrameFits = record {
  epoch = omega arith;
  sid = omega arith;
  seq = omega arith;
  flags = omega arith;
  method = ((omega arith, (omega arith, tt)), omega arith);
  codec = (tt, omega arith);
  timeout = omega arith;
  payload = omega arith;
  code = tt;
  desc = (tt, omega arith);
  header = pair-MetadataFits;
  trailer = tt;
  peer_epoch = omega arith;
  window = omega arith;
  compressor = (tt, omega arith);
  details = tt;
  conn_window = omega arith;
}

decode-encode_frame_example :
    (bs : List ℕ) × (encode_frame codec request ≡ Base64.ok bs)
    × (decode_frame codec bs ≡ ok request)
decode-encode_frame_example = decode-encode_frame codec request request-FrameFits

-- A PING and a WINDOW.
abbrev ping : Frame
ping = record frame { epoch = 9; flags = 8 }

abbrev grant : Frame
grant = record frame { epoch = 9; sid = 1; flags = 16; window = 32 }

ping-FrameFits : FrameFits codec ping
unfolding codec utf8 encode
ping-FrameFits = record {
  epoch = omega arith;
  sid = omega arith;
  seq = omega arith;
  flags = omega arith;
  method = (tt, omega arith);
  codec = (tt, omega arith);
  timeout = tt;
  payload = tt;
  code = tt;
  desc = (tt, omega arith);
  header = tt;
  trailer = tt;
  peer_epoch = omega arith;
  window = omega arith;
  compressor = (tt, omega arith);
  details = tt;
  conn_window = omega arith;
}

grant-FrameFits : FrameFits codec grant
unfolding codec utf8 encode
grant-FrameFits = record {
  epoch = omega arith;
  sid = omega arith;
  seq = omega arith;
  flags = omega arith;
  method = (tt, omega arith);
  codec = (tt, omega arith);
  timeout = tt;
  payload = tt;
  code = tt;
  desc = (tt, omega arith);
  header = tt;
  trailer = tt;
  peer_epoch = omega arith;
  window = omega arith;
  compressor = (tt, omega arith);
  details = tt;
  conn_window = omega arith;
}

two-EnvelopeFits : EnvelopeFits codec (ping ∷ grant ∷ [])
unfolding codec utf8 encode frame_bytes frame_fields fixed_field Writer.fixed32 Writer.tag
    Writer.varint Writer.varint_loop varint_field text_field optional_bytes optional_varint
    detail_fields
two-EnvelopeFits = ((ping-FrameFits, omega arith), ((grant-FrameFits, omega arith), tt))

decode-encode_envelope_example :
    (bs : List ℕ) × (encode_envelope codec (ping ∷ grant ∷ []) ≡ Base64.ok bs)
    × (decode_envelope codec bs ≡ ok (ping ∷ grant ∷ []))
decode-encode_envelope_example = decode-encode_envelope codec (ping ∷ grant ∷ []) two-EnvelopeFits

decode_envelope-Ends_example : Ends (decode_envelope codec (10 ∷ 200 ∷ []))
decode_envelope-Ends_example = decode_envelope-Ends codec (10 ∷ 200 ∷ [])
