-- ===== src/Wire/Frames/Total.antt =====
-- The decoders end on every input, well formed or not: no loop of the model runs out of its fuel.
use grpc_dgram.Prelude.{
  ℕ, zero, suc, ◌+◌, ◌*◌, ◌%◌, ◌/◌, ◌≤◌, ◌≢◌, Bool, true, false, ◌&&◌, List, [], ◌∷◌, ◌++◌, Option,
  none, some, arith, length, ltb, ◌==◌, if◌then◌else◌, Bool-cases, inl, inr, ◌^◌,
}
use grpc_dgram.Metadata.Values.{Codec}
use grpc_dgram.Wire.Text.{Utf8, Text}
use grpc_dgram.Wire.Flags.{Frame, frame}
use grpc_dgram.Wire.Reader
use grpc_dgram.Wire.Reader.{
  Result, ok, err, Error, stuck, truncated, varint_too_long, not_utf8, ◌>>=◌, or_fail,
}
use grpc_dgram.Wire.Message.{Handler, expect, ignore, decode, message_loop}
use grpc_dgram.Wire.Nested.{nested}
use grpc_dgram.Wire.Duration.{decode_duration, decode_parts, duration_field}
use grpc_dgram.Wire.MetadataCodec.{entry_field, decode_entry, metadata_field, decode_metadata}
use grpc_dgram.Wire.Frames.{
  any_field, decode_any, frame_field, decode_frame, envelope_field, decode_envelope,
}

-- A read that leaves no more input than `n`, or fails as the program would.
abbrev Within : {A : Type 0} → ℕ → Result (A × List ℕ) → Type 0
Within n (ok (a, rest)) = length rest ≤ n
Within n (err e) = e ≢ stuck

abbrev pub Ends : {A : Type 0} → Result A → Type 0
Ends (ok a) = Unit {0}
Ends (err e) = e ≢ stuck

bind-Within :
    {A B : Type 0} (n k : ℕ) (m : Result (A × List ℕ)) (f : A × List ℕ → Result (B × List ℕ))
    → Within n m
    → ((a : A) (rest : List ℕ) → length rest ≤ n → Within k (f (a, rest)))
    → Within k (m >>= f)
bind-Within n k (ok (a, rest)) f w g = g a rest w
bind-Within n k (err e) f w g = w

varint_loop-Within :
    (rounds out shift k : ℕ) (bs : List ℕ)
    → length bs ≤ suc k
    → Within k (Reader.varint_loop rounds out shift bs)
unfolding Reader.varint_loop
varint_loop-Within zero out shift k bs h = λ e. cc
varint_loop-Within (suc rounds) out shift k [] h = λ e. cc
varint_loop-Within (suc rounds) out shift k (b ∷ bs) h = elim (Bool-cases (ltb b 0x80)) [
  | inl e ↦ rw e (omega arith)
  | inr e ↦
      rw e (varint_loop-Within rounds (out + b % 128 * 2 ^ shift) (shift + 7) k bs (omega arith))
]

-- A tag takes a byte at least.
varint32-Within : (k : ℕ) (bs : List ℕ) → length bs ≤ suc k → Within k (Reader.varint32 bs)
unfolding Reader.varint32 Reader.varint
varint32-Within k bs h =
    bind-Within k k (Reader.varint_loop 10 0 0 bs) _ (varint_loop-Within 10 0 0 k bs h)
      (λ a rest le. le)

varint-Within : (k : ℕ) (bs : List ℕ) → length bs ≤ k → Within k (Reader.varint bs)
unfolding Reader.varint
varint-Within k bs h = varint_loop-Within 10 0 0 k bs (omega arith)

fixed32-Within : (k : ℕ) (bs : List ℕ) → length bs ≤ k → Within k (Reader.fixed32 bs)
unfolding Reader.fixed32
fixed32-Within k (a ∷ b ∷ c ∷ d ∷ rest) h = omega arith
fixed32-Within k (a ∷ b ∷ c ∷ []) h = λ e. cc
fixed32-Within k (a ∷ b ∷ []) h = λ e. cc
fixed32-Within k (a ∷ []) h = λ e. cc
fixed32-Within k [] h = λ e. cc

split-Within : (n k : ℕ) (bs : List ℕ) → length bs ≤ k → Within k (Reader.split n bs)
unfolding Reader.split
split-Within zero k bs h = h
split-Within (suc n) k [] h = λ e. cc
split-Within (suc n) k (b ∷ bs) h =
    bind-Within k k (Reader.split n bs) _ (split-Within n k bs (omega arith)) (λ a rest le. le)

bytes-Within : (k : ℕ) (bs : List ℕ) → length bs ≤ k → Within k (Reader.bytes bs)
unfolding Reader.bytes
bytes-Within k bs h =
    bind-Within k k (Reader.varint32 bs) _ (varint32-Within k bs (omega arith))
      (λ n rest le. split-Within n k rest le)

or_fail-Within :
    {A : Type 0} (k : ℕ) (o : Option A) (rest : List ℕ)
    → length rest ≤ k
    → Within k (or_fail o not_utf8 >>= λ t. ok (t, rest))
or_fail-Within k none rest h = λ e. cc
or_fail-Within k (some t) rest h = h

string-Within : (u : Utf8) (k : ℕ) (bs : List ℕ) → length bs ≤ k → Within k (Reader.string u bs)
unfolding Reader.string
string-Within u k bs h =
    bind-Within k k (Reader.bytes bs) _ (bytes-Within k bs h)
      (λ raw rest le. or_fail-Within k (u.decode raw) rest le)

nested-Within :
    {A : Type 0} (read : List ℕ → Result A) (k : ℕ) (bs : List ℕ)
    → ((raw : List ℕ) → Ends (read raw))
    → length bs ≤ k
    → Within k (nested read bs)
unfolding nested
nested-Within {A} read k bs ends h =
    bind-Within k k (Reader.bytes bs) _ (bytes-Within k bs h)
      (λ raw rest le. done (read raw) rest (ends raw) le)
  where
    done :
        (r : Result A) (rest : List ℕ)
        → Ends r
        → length rest ≤ k
        → Within k (r >>= λ v. ok (v, rest))
    done (ok v) rest e le = le
    done (err x) rest e le = e

skip-Within :
    {S : Type 0} (wire k : ℕ) (s : S) (bs : List ℕ) → length bs ≤ k → Within k (ignore wire s bs)
unfolding ignore Reader.skip
skip-Within {S} wire k s bs h = elim (Bool-cases (wire == 0)) [
  | inl e ↦ rw e (drop (Reader.varint bs) (varint-Within k bs h))
  | inr e0 ↦ rw e0 (elim (Bool-cases (wire == 1)) [
    | inl e ↦ rw e (drop (Reader.split 8 bs) (split-Within 8 k bs h))
    | inr e1 ↦ rw e1 (elim (Bool-cases (wire == 2)) [
      | inl e ↦ rw e (drop (Reader.bytes bs) (bytes-Within k bs h))
      | inr e2 ↦ rw e2 (elim (Bool-cases (wire == 5)) [
        | inl e ↦ rw e (drop (Reader.fixed32 bs) (fixed32-Within k bs h))
        | inr e5 ↦ rw e5 (λ p. cc)
      ])
    ])
  ])
]
  where
    drop :
        {A : Type 0} (r : Result (A × List ℕ))
        → Within k r
        → Within k (r >>= (λ p. ok p.1) >>= λ rest. ok (s, rest))
    drop (ok (a, rest)) w = w
    drop (err x) w = w

expect-Within :
    {S A : Type 0} (want wire k : ℕ) (read : List ℕ → Result (A × List ℕ)) (put : A → S) (s : S)
    (bs : List ℕ)
    → Within k (read bs)
    → length bs ≤ k
    → Within k (expect want wire read put s bs)
unfolding expect
expect-Within want wire k read put s bs w h = elim (Bool-cases (wire == want)) [
  | inl e ↦ rw e (bind-Within k k (read bs) _ w (λ a rest le. le))
  | inr e ↦ rw e (unfold ignore in skip-Within wire k s bs h)
]

-- The body of a decoder's loop reads on, and fails only as the program would.
abbrev pub Reads : {S : Type 0} → Handler S → Type 0
Reads {S} handle =
    (field wire k : ℕ) (bs : List ℕ) (s : S) → length bs ≤ k → Within k (handle field wire bs s)

module _ {S : Type 0} (handle : Handler S) (reads : Reads handle) where
  message_loop-Ends :
      (fuel : ℕ) (bs : List ℕ) (s : S) → length bs ≤ fuel → Ends (message_loop handle fuel bs s)
  unfolding message_loop
  message_loop-Ends fuel [] s h = tt
  message_loop-Ends zero (b ∷ bs) s h = absurd (omega arith)
  message_loop-Ends (suc fuel) (b ∷ bs) s h =
      go (Reader.varint32 (b ∷ bs)) (varint32-Within fuel (b ∷ bs) h)
        (λ rest s' le. message_loop-Ends fuel rest s' le)
    where
      handled :
          (r : Result (S × List ℕ))
          → Within fuel r
          → ((rest : List ℕ) (s' : S)
              → length rest ≤ fuel
              → Ends (message_loop handle fuel rest s'))
          → Ends (r >>= λ p. message_loop handle fuel p.1 p.0)
      handled (ok (s', rest)) w f = f rest s' w
      handled (err x) w f = w

      go :
          (r : Result (ℕ × List ℕ))
          → Within fuel r
          → ((rest : List ℕ) (s' : S)
              → length rest ≤ fuel
              → Ends (message_loop handle fuel rest s'))
          → Ends (
              r >>= λ t. handle (t.0 / 8) (t.0 % 8) t.1 s >>= λ p. message_loop handle fuel p.1 p.0)
      go (ok (tag, body)) w f =
          handled (handle (tag / 8) (tag % 8) body s) (reads _ _ fuel body s w) f
      go (err x) w f = w

  decode-Ends : (bs : List ℕ) (s : S) → Ends (decode handle bs s)
  unfolding decode
  decode-Ends bs s = message_loop-Ends (length bs) bs s (omega arith)

branch :
    {A : Type 0} (k : ℕ) (t : Bool) (a b : Result (A × List ℕ))
    → Within k a
    → Within k b
    → Within k (if t then a else b)
branch k true a b x y = x
branch k false a b x y = y

duration_field-Reads : Reads duration_field
unfolding duration_field
duration_field-Reads field wire k bs d h =
    branch k (field == 1 && (wire == 0)) _ _
      (bind-Within k k (Reader.varint bs) _ (varint-Within k bs h) (λ a rest le. le))
      (branch k (field == 2 && (wire == 0)) _ _
        (bind-Within k k (Reader.varint bs) _ (varint-Within k bs h) (λ a rest le. le))
        (skip-Within wire k d bs h))

bind-Ends :
    {A B : Type 0} (m : Result A) (f : A → Result B)
    → Ends m
    → ((a : A) → Ends (f a))
    → Ends (m >>= f)
bind-Ends (ok a) f e g = g a
bind-Ends (err x) f e g = e

decode_duration-Ends : (bs : List ℕ) → Ends (decode_duration bs)
unfolding decode_duration decode_parts decode
decode_duration-Ends bs =
    bind-Ends _ _ (decode-Ends duration_field duration_field-Reads bs _) (λ d. tt)

module _ (u : Codec) where
  any_field-Reads : Reads (any_field u)
  unfolding any_field
  any_field-Reads field wire k bs a h =
      branch k (field == 1 && (wire == 2)) _ _
        (bind-Within k k (Reader.string u.utf8 bs) _ (string-Within u.utf8 k bs h)
          (λ a rest le. le))
        (branch k (field == 2 && (wire == 2)) _ _
          (bind-Within k k (Reader.bytes bs) _ (bytes-Within k bs h) (λ a rest le. le))
          (skip-Within wire k a bs h))

  entry_field-Reads : Reads (entry_field u)
  unfolding entry_field
  entry_field-Reads field wire k bs e h =
      branch k (field == 1 && (wire == 2)) _ _
        (bind-Within k k (Reader.string u.utf8 bs) _ (string-Within u.utf8 k bs h)
          (λ a rest le. le))
        (branch k (field == 2 && (wire == 2)) _ _
          (bind-Within k k (Reader.bytes bs) _ (bytes-Within k bs h) (λ a rest le. le))
          (skip-Within wire k e bs h))

  decode_any-Ends : (bs : List ℕ) → Ends (decode_any u bs)
  unfolding decode_any
  decode_any-Ends bs = decode-Ends (any_field u) any_field-Reads bs _

  decode_entry-Ends : (bs : List ℕ) → Ends (decode_entry u bs)
  unfolding decode_entry
  decode_entry-Ends bs = decode-Ends (entry_field u) entry_field-Reads bs _

  metadata_field-Reads : Reads (metadata_field u)
  unfolding metadata_field
  metadata_field-Reads field wire k bs md h =
      branch k (field == 1 && (wire == 2)) _ _
        (bind-Within k k (nested (decode_entry u) bs) _
          (nested-Within (decode_entry u) k bs decode_entry-Ends h) (λ a rest le. le))
        (skip-Within wire k md bs h)

  decode_metadata-Ends : (bs : List ℕ) → Ends (decode_metadata u bs)
  unfolding decode_metadata
  decode_metadata-Ends bs = decode-Ends (metadata_field u) metadata_field-Reads bs []

  frame_field-Reads : Reads (frame_field u)
  unfolding frame_field
  frame_field-Reads field wire k bs f h =
      branch k (field == 1) _ _ (fixed (λ v. record f { epoch = v })) (
        branch k (field == 2) _ _ (fixed (λ v. record f { sid = v })) (
          branch k (field == 3) _ _ (fixed (λ v. record f { seq = v })) (
            branch k (field == 4) _ _ (number (λ v. record f { flags = v })) (
              branch k (field == 5) _ _ (text (λ v. record f { method = v })) (
                branch k (field == 7) _ _ (text (λ v. record f { codec = v })) (
                  branch k (field == 8) _ _
                    (inner decode_duration decode_duration-Ends
                      (λ v. record f { timeout = some v }))
                    (branch k (field == 9) _ _
                      (expect-Within 2 wire k Reader.bytes (λ v. record f { payload = some v }) f bs
                        (bytes-Within k bs h) h)
                      (branch k (field == 10) _ _ (number (λ v. record f { code = some v })) (
                        branch k (field == 11) _ _ (text (λ v. record f { desc = v })) (
                          branch k (field == 12) _ _
                            (inner (decode_metadata u) decode_metadata-Ends
                              (λ v. record f { header = some v }))
                            (branch k (field == 13) _ _
                              (inner (decode_metadata u) decode_metadata-Ends
                                (λ v. record f { trailer = some v }))
                              (branch k (field == 14) _ _ (fixed (λ v. record f { peer_epoch = v }))
                                (branch k (field == 15) _ _ (number (λ v. record f { window = v }))
                                  (branch k (field == 16) _ _
                                    (text (λ v. record f { compressor = v }))
                                    (branch k (field == 17) _ _
                                      (inner (decode_any u) decode_any-Ends
                                        (λ v. record f { details = f.details ++ (v ∷ []) }))
                                      (branch k (field == 18) _ _
                                        (number (λ v. record f { conn_window = v }))
                                        (skip-Within wire k f bs h)))))))))))))))))
    where
      fixed : (put : ℕ → Frame) → Within k (expect 5 wire Reader.fixed32 put f bs)
      fixed put = expect-Within 5 wire k Reader.fixed32 put f bs (fixed32-Within k bs h) h

      number : (put : ℕ → Frame) → Within k (expect 0 wire Reader.varint32 put f bs)
      number put =
          expect-Within 0 wire k Reader.varint32 put f bs (varint32-Within k bs (omega arith)) h

      text : (put : Text → Frame) → Within k (expect 2 wire (Reader.string u.utf8) put f bs)
      text put =
          expect-Within 2 wire k (Reader.string u.utf8) put f bs (string-Within u.utf8 k bs h) h

      inner :
          {A : Type 0} (read : List ℕ → Result A) (ends : (raw : List ℕ) → Ends (read raw))
          (put : A → Frame)
          → Within k (expect 2 wire (nested read) put f bs)
      inner read ends put =
          expect-Within 2 wire k (nested read) put f bs (nested-Within read k bs ends h) h

  -- Any bytes at all decode to a frame or to one of the program's errors.
  pub decode_frame-Ends : (bs : List ℕ) → Ends (decode_frame u bs)
  unfolding decode_frame
  decode_frame-Ends bs = decode-Ends (frame_field u) frame_field-Reads bs frame

  envelope_field-Reads : Reads (envelope_field u)
  unfolding envelope_field
  envelope_field-Reads field wire k bs fs h =
      branch k (field == 1 && (wire == 2)) _ _
        (bind-Within k k (nested (decode_frame u) bs) _
          (nested-Within (decode_frame u) k bs decode_frame-Ends h) (λ a rest le. le))
        (skip-Within wire k fs bs h)

  -- Decoding any bytes as an envelope ends with frames or with one of the code's own errors: no loop runs
  -- out of fuel.
  pub decode_envelope-Ends : (bs : List ℕ) → Ends (decode_envelope u bs)
  unfolding decode_envelope
  decode_envelope-Ends bs = decode-Ends (envelope_field u) envelope_field-Reads bs []
