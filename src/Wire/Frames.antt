-- ===== src/Wire/Frames.antt =====
-- `encodeFrame`, `decodeFrame`, `encodeAny`, `decodeAny` and the envelope of ts/src/wire.ts.
pub mod RoundTrip
pub mod Total
use grpc_dgram.Prelude.{
  ℕ, ◌+◌, ◌≡◌, Bool, true, false, ◌&&◌, List, [], ◌∷◌, ◌++◌, Option, none, some, ℤ, ◌==◌,
  if◌then◌else◌,
}
use grpc_dgram.Metadata.Base64
use grpc_dgram.Metadata.Values.{Codec}
use grpc_dgram.Wire.Text.{Text}
use grpc_dgram.Wire.Writer
use grpc_dgram.Wire.Reader
use grpc_dgram.Wire.Reader.{Result, ok, err, ◌>>=◌}
use grpc_dgram.Wire.Message.{Handler, expect, ignore, decode}
use grpc_dgram.Wire.Nested.{
  nested, is_empty, fixed_field, varint_field, text_field, optional_bytes, optional_varint,
}
use grpc_dgram.Wire.Duration.{encode_duration, decode_duration}
use grpc_dgram.Wire.MetadataCodec.{Metadata, encode_metadata, decode_metadata}
use grpc_dgram.Wire.Flags.{Any, Frame, frame}

bytes_unless_empty : ℕ → List ℕ → List ℕ
bytes_unless_empty field v = if is_empty v then [] else Writer.bytes field v

unfoldable pub encode_any : Codec → Any → List ℕ
unfolding bytes_unless_empty
encode_any u a = text_field u.utf8 1 a.type_url ++ bytes_unless_empty 2 a.value

unfoldable pub any_field : Codec → Handler Any
any_field u field wire bs a =
    if field == 1 && (wire == 2)
    then (do (v, rest) ← Reader.string u.utf8 bs; ok (record a { type_url = v }, rest))
    else if field == 2 && (wire == 2)
    then (do (v, rest) ← Reader.bytes bs; ok (record a { value = v }, rest))
    else ignore wire a bs

unfoldable pub decode_any : Codec → List ℕ → Result Any
decode_any u bs = decode (any_field u) bs (record { type_url = []; value = [] })

unfoldable pub detail_fields : Codec → List Any → List ℕ
detail_fields u [] = []
detail_fields u (a ∷ as') = Writer.bytes 17 (encode_any u a) ++ detail_fields u as'

encode_optional : Codec → Option Metadata → Base64.Result (Option (List ℕ))
encode_optional u none = Base64.ok none
encode_optional u (some md) = Base64.◌>>=◌ (encode_metadata u md) λ b. Base64.ok (some b)

optional_duration : Option ℤ → Option (List ℕ)
optional_duration none = none
optional_duration (some ns) = some (encode_duration ns)

-- The fields of a frame whose metadata is encoded already, in the order of their numbers.
last_bytes : Codec → Frame → Option (List ℕ) → Option (List ℕ) → List ℕ
last_bytes u f header trailer =
    optional_bytes 12 header
    ++ (optional_bytes 13 trailer
        ++ (fixed_field 14 f.peer_epoch
            ++ (varint_field 15 f.window
                ++ (text_field u.utf8 16 f.compressor
                    ++ (detail_fields u f.details ++ (varint_field 18 f.conn_window ++ []))))))

middle_bytes : Codec → Frame → List ℕ → List ℕ
unfolding optional_duration
middle_bytes u f rest =
    text_field u.utf8 7 f.codec
    ++ (optional_bytes 8 (optional_duration f.timeout)
        ++ (optional_bytes 9 f.payload
            ++ (optional_varint 10 f.code ++ (text_field u.utf8 11 f.desc ++ rest))))

first_bytes : Codec → Frame → List ℕ → List ℕ
first_bytes u f rest =
    fixed_field 1 f.epoch
    ++ (fixed_field 2 f.sid
        ++ (fixed_field 3 f.seq
            ++ (varint_field 4 f.flags ++ (text_field u.utf8 5 f.method ++ rest))))

unfoldable pub frame_fields : Codec → Frame → Option (List ℕ) → Option (List ℕ) → List ℕ
unfolding last_bytes middle_bytes first_bytes
frame_fields u f header trailer = first_bytes u f (middle_bytes u f (last_bytes u f header trailer))

-- Metadata that does not encode fails the frame.
unfoldable pub encode_frame : Codec → Frame → Base64.Result (List ℕ)
unfolding encode_optional
encode_frame u f =
    Base64.◌>>=◌ (encode_optional u f.header)
      λ h. Base64.◌>>=◌ (encode_optional u f.trailer) λ t. Base64.ok (frame_fields u f h t)

unfoldable pub frame_field : Codec → Handler Frame
frame_field u field wire bs f =
    if field == 1
    then expect 5 wire Reader.fixed32 (λ v. record f { epoch = v }) f bs
    else if field == 2
    then expect 5 wire Reader.fixed32 (λ v. record f { sid = v }) f bs
    else if field == 3
    then expect 5 wire Reader.fixed32 (λ v. record f { seq = v }) f bs
    else if field == 4
    then expect 0 wire Reader.varint32 (λ v. record f { flags = v }) f bs
    else if field == 5
    then expect 2 wire (Reader.string u.utf8) (λ v. record f { method = v }) f bs
    else if field == 7
    then expect 2 wire (Reader.string u.utf8) (λ v. record f { codec = v }) f bs
    else if field == 8
    then expect 2 wire (nested decode_duration) (λ v. record f { timeout = some v }) f bs
    else if field == 9
    then expect 2 wire Reader.bytes (λ v. record f { payload = some v }) f bs
    else if field == 10
    then expect 0 wire Reader.varint32 (λ v. record f { code = some v }) f bs
    else if field == 11
    then expect 2 wire (Reader.string u.utf8) (λ v. record f { desc = v }) f bs
    else if field == 12
    then expect 2 wire (nested (decode_metadata u)) (λ v. record f { header = some v }) f bs
    else if field == 13
    then expect 2 wire (nested (decode_metadata u)) (λ v. record f { trailer = some v }) f bs
    else if field == 14
    then expect 5 wire Reader.fixed32 (λ v. record f { peer_epoch = v }) f bs
    else if field == 15
    then expect 0 wire Reader.varint32 (λ v. record f { window = v }) f bs
    else if field == 16
    then expect 2 wire (Reader.string u.utf8) (λ v. record f { compressor = v }) f bs
    else if field == 17
    then expect 2 wire (nested (decode_any u)) (λ v. record f { details = f.details ++ (v ∷ []) }) f
        bs
    else if field == 18
    then expect 0 wire Reader.varint32 (λ v. record f { conn_window = v }) f bs
    else ignore wire f bs

unfoldable pub decode_frame : Codec → List ℕ → Result Frame
decode_frame u bs = decode (frame_field u) bs frame

unfoldable pub encode_envelope : Codec → List Frame → Base64.Result (List ℕ)
encode_envelope u [] = Base64.ok []
encode_envelope u (f ∷ fs) =
    Base64.◌>>=◌ (encode_frame u f)
      λ b. Base64.◌>>=◌ (encode_envelope u fs) λ bs. Base64.ok (Writer.bytes 1 b ++ bs)

unfoldable pub envelope_field : Codec → Handler (List Frame)
envelope_field u field wire bs fs =
    if field == 1 && (wire == 2)
    then (do (f, rest) ← nested (decode_frame u) bs; ok (fs ++ (f ∷ []), rest))
    else ignore wire fs bs

unfoldable pub decode_envelope : Codec → List ℕ → Result (List Frame)
decode_envelope u bs = decode (envelope_field u) bs []
