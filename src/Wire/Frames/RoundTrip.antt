-- ===== src/Wire/Frames/RoundTrip.antt =====
-- `decodeFrame` after `encodeFrame`.
use grpc_dgram.Prelude.{
  ℕ, ◌≡◌, refl, sym, ap, List, [], ◌∷◌, ◌++◌, Option, none, some, ℤ, arith, All, append_assoc,
  append-nil, IsU32, length, subst,
}
use grpc_dgram.Metadata.Base64
use grpc_dgram.Metadata.Values.{Codec}
use grpc_dgram.Wire.Writer
use grpc_dgram.Wire.Reader
use grpc_dgram.Wire.Reader.{Result, ok, err, ◌>>=◌}
use grpc_dgram.Wire.Varint.{bytes-bytes}
use grpc_dgram.Wire.Message.{expect, Decodes, Decodes-nil, decode_of_Decodes}
use grpc_dgram.Wire.Nested.{
  nested, Short, Fits, HoldsU32, ReadsBack, bytes_step, field_step, fixed_step, varint_step,
  optional_varint_step, optional_step, text_step,
}
use grpc_dgram.Wire.Duration
use grpc_dgram.Wire.Duration.{
  encode_duration, decode_duration, decode-encode_duration, short_duration,
}
use grpc_dgram.Wire.MetadataCodec.{Metadata, encode_metadata, decode_metadata, sort_entries}
use grpc_dgram.Wire.MetadataCodec.RoundTrip.{
  EntryFits, KeysDiffer, entries_bytes, decode-encode_entries,
}
use grpc_dgram.Wire.Flags.{Any, Frame, frame}
use grpc_dgram.Wire.Frames.{
  encode_any, any_field, decode_any, detail_fields, encode_optional, optional_duration,
  frame_fields, bytes_unless_empty, last_bytes, middle_bytes, first_bytes, encode_frame,
  frame_field, decode_frame, encode_envelope, decode_envelope, envelope_field,
}

nested-ok : (bs : List ℕ) → nested ok bs ≡ Reader.bytes bs
unfolding nested
nested-ok bs = same (Reader.bytes bs)
  where
    same : (r : Result (List ℕ × List ℕ)) → (r >>= λ p. ok p.0 >>= λ v. ok (v, p.1)) ≡ r
    same (ok p) = refl
    same (err e) = refl

module _ (u : Codec) where
  pub record AnyFits (a : Any) : Type 0 where
    pub url : Fits u.utf8 a.type_url
    pub body : Short a.value
    pub whole : Short (encode_any u a)

  -- The metadata's keys are distinct and ascend, its values survive and its encoding has a length
  -- that the wire can carry.
  pub record MetadataFits (md : Metadata) : Type 0 where
    pub entries : All (EntryFits u) md
    pub distinct : KeysDiffer u md
    pub ascending : sort_entries md ≡ md
    pub whole : Short (entries_bytes u md entries)

  abbrev pub OptionFits : {A : Type 0} → (A → Type 0) → Option A → Type 0
  OptionFits P none = Unit {0}
  OptionFits P (some a) = P a

  -- The wire can carry every field of the frame.
  pub record FrameFits (f : Frame) : Type 0 where
    pub epoch : IsU32 f.epoch
    pub sid : IsU32 f.sid
    pub seq : IsU32 f.seq
    pub flags : IsU32 f.flags
    pub method : Fits u.utf8 f.method
    pub codec : Fits u.utf8 f.codec
    pub timeout : OptionFits Duration.Fits f.timeout
    pub payload : OptionFits Short f.payload
    pub code : HoldsU32 f.code
    pub desc : Fits u.utf8 f.desc
    pub header : OptionFits MetadataFits f.header
    pub trailer : OptionFits MetadataFits f.trailer
    pub peer_epoch : IsU32 f.peer_epoch
    pub window : IsU32 f.window
    pub compressor : Fits u.utf8 f.compressor
    pub details : All AnyFits f.details
    pub conn_window : IsU32 f.conn_window

  value_field_back :
      (v : List ℕ) (a r : Any)
      → Short v
      → a.value ≡ []
      → Decodes (any_field u) [] (record a { value = v }) r
      → Decodes (any_field u) (bytes_unless_empty 2 v ++ []) a r
  unfolding bytes_unless_empty any_field Writer.bytes
  value_field_back [] a r s e d =
      subst (λ x. Decodes (any_field u) [] (record a { value = x }) r) (sym e) d
  value_field_back (b ∷ v) a r s e d =
      field_step (any_field u) 2 2 (Writer.varint (length (b ∷ v)) ++ (b ∷ v)) [] (b ∷ v) a r
        Reader.bytes (λ x. record a { value = x }) (omega arith) (omega arith) (λ _. refl)
        (bytes-bytes (b ∷ v) [] s) d

  decode-encode_any : (a : Any) → AnyFits a → decode_any u (encode_any u a) ≡ ok a
  unfolding decode_any encode_any
  decode-encode_any a f = decode_of_Decodes (any_field u) _ _ a (
      unfold any_field in
      text_step (any_field u) u.utf8 1 a.type_url (bytes_unless_empty 2 a.value) _ a
        (λ x. record { type_url = x; value = [] }) (omega arith) f.url refl (λ _. refl)
        (rw append-nil at (
          value_field_back a.value (record { type_url = a.type_url; value = [] }) a f.body refl
            (Decodes-nil (any_field u) a))))

  detail_step :
      (a : Any) (rest : List ℕ) (s r : Frame)
      → AnyFits a
      → Decodes (frame_field u) rest (record s { details = s.details ++ (a ∷ []) }) r
      → Decodes (frame_field u) (Writer.bytes 17 (encode_any u a) ++ rest) s r
  unfolding frame_field expect
  detail_step a rest s r f d =
      bytes_step (frame_field u) 17 (encode_any u a) rest a s r (decode_any u)
        (λ v. record s { details = s.details ++ (v ∷ []) }) (omega arith) f.whole (λ _. refl)
        (decode-encode_any a f) d

  details_back :
      (ds : List Any) (rest : List ℕ) (s r : Frame)
      → All AnyFits ds
      → Decodes (frame_field u) rest (record s { details = s.details ++ ds }) r
      → Decodes (frame_field u) (detail_fields u ds ++ rest) s r
  unfolding detail_fields
  details_back [] rest s r f d =
      subst (λ x. Decodes (frame_field u) rest x r)
        (ap (λ x. record s { details = x }) (append-nil s.details)) d
  details_back (a ∷ ds) rest s r f d =
      let s' = record s { details = s.details ++ (a ∷ []) } in
      rw append_assoc (
        detail_step a (detail_fields u ds ++ rest) s r f.0 (
          details_back ds rest s' r f.1 (
            subst (λ x. Decodes (frame_field u) rest x r)
              (ap (λ x. record s { details = x }) (sym (append_assoc s.details (a ∷ []) ds))) d)))

  -- The fields from the twelfth on, over the message that the first ones made.
  last_fields :
      (f s : Frame) (header trailer : Option (List ℕ))
      → FrameFits f
      → ReadsBack (decode_metadata u) f.header header
      → ReadsBack (decode_metadata u) f.trailer trailer
      → s ≡ record f {
        header = none;
        trailer = none;
        peer_epoch = 0;
        window = 0;
        compressor = [];
        details = [];
        conn_window = 0;
      }
      → Decodes (frame_field u) (last_bytes u f header trailer) s f
  unfolding frame_field expect last_bytes
  last_fields f s header trailer ok_f hb tb e =
      let h = frame_field u in
      let s0 : Frame = record f {
        header = none;
        trailer = none;
        peer_epoch = 0;
        window = 0;
        compressor = [];
        details = [];
        conn_window = 0;
      } in
      let s1 = record s0 { header = f.header } in
      let s2 = record s1 { trailer = f.trailer } in
      let s3 = record s2 { peer_epoch = f.peer_epoch } in
      let s4 = record s3 { window = f.window } in
      let s5 = record s4 { compressor = f.compressor } in
      let s6 = record s5 { details = f.details } in
      let d6 =
        varint_step h 18 f.conn_window [] s6 f (λ v. record s6 { conn_window = v }) (omega arith)
          ok_f.conn_window refl (λ _. refl) (Decodes-nil h f) in
      let d5 = details_back f.details _ s5 f ok_f.details d6 in
      let d4 =
        text_step h u.utf8 16 f.compressor _ s4 f (λ v. record s4 { compressor = v }) (omega arith)
          ok_f.compressor refl (λ _. refl) d5 in
      let d3 =
        varint_step h 15 f.window _ s3 f (λ v. record s3 { window = v }) (omega arith) ok_f.window
          refl (λ _. refl) d4 in
      let d2 =
        fixed_step h 14 f.peer_epoch _ s2 f (λ v. record s2 { peer_epoch = v }) (omega arith)
          ok_f.peer_epoch refl (λ _. refl) d3 in
      let d1 =
        optional_step h 13 f.trailer trailer _ s1 f (decode_metadata u)
          (λ v. record s1 { trailer = v }) (omega arith) tb refl (λ _. refl) d2 in
      let d0 =
        optional_step h 12 f.header header _ s0 f (decode_metadata u)
          (λ v. record s0 { header = v }) (omega arith) hb refl (λ _. refl) d1 in
      subst (λ x. Decodes h (last_bytes u f header trailer) x f) (sym e) d0

  duration_ReadsBack :
      (o : Option ℤ)
      → OptionFits Duration.Fits o
      → ReadsBack decode_duration o (optional_duration o)
  unfolding optional_duration
  duration_ReadsBack none f = tt
  duration_ReadsBack (some ns) f = (omega (arith, short_duration ns), decode-encode_duration ns f)

  payload_ReadsBack : (o : Option (List ℕ)) → OptionFits Short o → ReadsBack ok o o
  payload_ReadsBack none f = tt
  payload_ReadsBack (some b) f = (f, refl)

  middle_fields :
      (f s r : Frame) (rest : List ℕ)
      → FrameFits f
      → (s.codec ≡ []) × (s.timeout ≡ none) × (s.payload ≡ none) × (s.code ≡ none) × (s.desc ≡ [])
      → Decodes
          (frame_field u)
          rest
          (record s {
            codec = f.codec;
            timeout = f.timeout;
            payload = f.payload;
            code = f.code;
            desc = f.desc;
          })
          r
      → Decodes (frame_field u) (middle_bytes u f rest) s r
  unfolding frame_field expect middle_bytes
  middle_fields f s r rest ok_f e d =
      let h = frame_field u in
      let s0 : Frame = record s {
        codec = [];
        timeout = none;
        payload = none;
        code = none;
        desc = [];
      } in
      let s1 = record s0 { codec = f.codec } in
      let s2 = record s1 { timeout = f.timeout } in
      let s3 = record s2 { payload = f.payload } in
      let s4 = record s3 { code = f.code } in
      let d4 =
        text_step h u.utf8 11 f.desc rest s4 r (λ v. record s4 { desc = v }) (omega arith) ok_f.desc
          refl (λ _. refl) d in
      let d3 =
        optional_varint_step h 10 f.code _ s3 r (λ v. record s3 { code = v }) (omega arith)
          ok_f.code refl (λ _. refl) d4 in
      let d2 =
        optional_step h 9 f.payload f.payload _ s2 r ok (λ v. record s2 { payload = v })
          (omega arith) (payload_ReadsBack f.payload ok_f.payload) refl (λ bs. rw (nested-ok bs))
          d3 in
      let d1 =
        optional_step h 8 f.timeout (optional_duration f.timeout) _ s1 r decode_duration
          (λ v. record s1 { timeout = v }) (omega arith) (duration_ReadsBack f.timeout ok_f.timeout)
          refl (λ _. refl) d2 in
      let d0 =
        text_step h u.utf8 7 f.codec _ s0 r (λ v. record s0 { codec = v }) (omega arith) ok_f.codec
          refl (λ _. refl) d1 in
      let same : s0 ≡ s = ground (arith, e) in
      subst (λ x. Decodes h (middle_bytes u f rest) x r) same d0

  first_fields :
      (f r : Frame) (rest : List ℕ)
      → FrameFits f
      → Decodes
          (frame_field u)
          rest
          (record frame {
            epoch = f.epoch;
            sid = f.sid;
            seq = f.seq;
            flags = f.flags;
            method = f.method;
          })
          r
      → Decodes (frame_field u) (first_bytes u f rest) frame r
  unfolding frame_field expect first_bytes
  first_fields f r rest ok_f d =
      let h = frame_field u in
      let s1 : Frame = record frame { epoch = f.epoch } in
      let s2 : Frame = record s1 { sid = f.sid } in
      let s3 : Frame = record s2 { seq = f.seq } in
      let s4 : Frame = record s3 { flags = f.flags } in
      let d4 =
        text_step h u.utf8 5 f.method rest s4 r (λ v. record s4 { method = v }) (omega arith)
          ok_f.method refl (λ _. refl) d in
      let d3 =
        varint_step h 4 f.flags _ s3 r (λ v. record s3 { flags = v }) (omega arith) ok_f.flags refl
          (λ _. refl) d4 in
      let d2 =
        fixed_step h 3 f.seq _ s2 r (λ v. record s2 { seq = v }) (omega arith) ok_f.seq refl
          (λ _. refl) d3 in
      let d1 =
        fixed_step h 2 f.sid _ s1 r (λ v. record s1 { sid = v }) (omega arith) ok_f.sid refl
          (λ _. refl) d2 in
      fixed_step h 1 f.epoch _ frame r (λ v. record frame { epoch = v }) (omega arith) ok_f.epoch
        refl (λ _. refl) d1

  frame_fields_back :
      (f : Frame) (header trailer : Option (List ℕ))
      → FrameFits f
      → ReadsBack (decode_metadata u) f.header header
      → ReadsBack (decode_metadata u) f.trailer trailer
      → decode_frame u (frame_fields u f header trailer) ≡ ok f
  unfolding decode_frame frame_fields
  frame_fields_back f header trailer ok_f hb tb = decode_of_Decodes (frame_field u) _ frame f (
      first_fields f f _ ok_f (
        middle_fields f _ f _ ok_f (refl, refl, refl, refl, refl)
          (last_fields f _ header trailer ok_f hb tb refl)))

  -- What the metadata of a frame is written as.
  metadata_bytes : (o : Option Metadata) → OptionFits MetadataFits o → Option (List ℕ)
  metadata_bytes none f = none
  metadata_bytes (some md) f = some (entries_bytes u md f.entries)

  metadata_encodes :
      (o : Option Metadata) (f : OptionFits MetadataFits o)
      → (encode_optional u o ≡ Base64.ok (metadata_bytes o f))
        × ReadsBack (decode_metadata u) o (metadata_bytes o f)
  unfolding encode_optional metadata_bytes encode_metadata
  metadata_encodes none f = (refl, tt)
  metadata_encodes (some md) f =
      let (e, d) = decode-encode_entries u md f.entries f.distinct in
      (rw (f.ascending, e), (f.whole, d))

  -- What a frame is written as.
  unfoldable pub frame_bytes : (f : Frame) → FrameFits f → List ℕ
  unfolding metadata_bytes
  frame_bytes f ok_f =
      frame_fields u f (metadata_bytes f.header ok_f.header) (metadata_bytes f.trailer ok_f.trailer)

  frame_bytes_lem :
      (f : Frame) (ok_f : FrameFits f)
      → (encode_frame u f ≡ Base64.ok (frame_bytes f ok_f))
        × (decode_frame u (frame_bytes f ok_f) ≡ ok f)
  unfolding encode_frame frame_bytes
  frame_bytes_lem f ok_f =
      let (eh, rh) = metadata_encodes f.header ok_f.header in
      let (et, rt) = metadata_encodes f.trailer ok_f.trailer in
      (rw (eh, et), frame_fields_back f _ _ ok_f rh rt)

  -- A frame whose fields the wire can carry is encoded without failure, and the decoder returns it
  -- field for field: an absent field stays absent, an empty payload stays present.
  pub decode-encode_frame :
      (f : Frame)
      → FrameFits f
      → (bs : List ℕ) × (encode_frame u f ≡ Base64.ok bs) × (decode_frame u bs ≡ ok f)
  decode-encode_frame f ok_f = let (e, d) = frame_bytes_lem f ok_f in (frame_bytes f ok_f, e, d)

  -- Frames that fit, each of a length that the wire can carry.
  abbrev pub EnvelopeFits : List Frame → Type 0
  EnvelopeFits [] = Unit {0}
  EnvelopeFits (f ∷ fs) = ((ok_f : FrameFits f) × Short (frame_bytes f ok_f)) × EnvelopeFits fs

  envelope_bytes : (fs : List Frame) → EnvelopeFits fs → List ℕ
  envelope_bytes [] e = []
  envelope_bytes (f ∷ fs) e = Writer.bytes 1 (frame_bytes f e.0.0) ++ envelope_bytes fs e.1

  encode_envelope_bytes :
      (fs : List Frame) (e : EnvelopeFits fs)
      → encode_envelope u fs ≡ Base64.ok (envelope_bytes fs e)
  unfolding encode_envelope envelope_bytes
  encode_envelope_bytes [] e = refl
  encode_envelope_bytes (f ∷ fs) e = rw ((frame_bytes_lem f e.0.0).0, encode_envelope_bytes fs e.1)

  frame_step :
      (f : Frame) (ok_f : FrameFits f) (rest : List ℕ) (s r : List Frame)
      → Short (frame_bytes f ok_f)
      → Decodes (envelope_field u) rest (s ++ (f ∷ [])) r
      → Decodes (envelope_field u) (Writer.bytes 1 (frame_bytes f ok_f) ++ rest) s r
  unfolding envelope_field
  frame_step f ok_f rest s r short d =
      bytes_step (envelope_field u) 1 (frame_bytes f ok_f) rest f s r (decode_frame u)
        (λ x. s ++ (x ∷ [])) (omega arith) short (λ _. refl) (frame_bytes_lem f ok_f).1 d

  envelope_back :
      (fs : List Frame) (e : EnvelopeFits fs) (s : List Frame)
      → Decodes (envelope_field u) (envelope_bytes fs e) s (s ++ fs)
  unfolding envelope_bytes
  envelope_back [] e s = rw append-nil (Decodes-nil (envelope_field u) s)
  envelope_back (f ∷ fs) e s = frame_step f e.0.0 (envelope_bytes fs e.1) s (s ++ (f ∷ fs)) e.0.1 (
      subst (Decodes (envelope_field u) (envelope_bytes fs e.1) (s ++ (f ∷ [])))
        (append_assoc s (f ∷ []) fs) (envelope_back fs e.1 (s ++ (f ∷ []))))

  -- An envelope of any number of frames that fit is encoded without failure, and gives those frames
  -- back, in order.
  pub decode-encode_envelope :
      (fs : List Frame)
      → EnvelopeFits fs
      → (bs : List ℕ) × (encode_envelope u fs ≡ Base64.ok bs) × (decode_envelope u bs ≡ ok fs)
  unfolding decode_envelope
  decode-encode_envelope fs e = (
    envelope_bytes fs e,
    encode_envelope_bytes fs e,
    decode_of_Decodes (envelope_field u) _ [] fs (envelope_back fs e []),
  )
