-- ===== src/Server/Stream/Header.antt =====
-- The frames that a call sends about itself: creation ack, header, stream credit, probes.
use grpc_dgram.Prelude.{
  ℕ, ◌+◌, Bool, true, false, not, ◌||◌, List, [], ◌∷◌, Option, none, some, ltb, ◌==◌, if◌then◌else◌,
}
use grpc_dgram.Status.{Status}
use grpc_dgram.Status.Code
use grpc_dgram.Seq
use grpc_dgram.Flow.Receiver.{consumed}
use grpc_dgram.Flow.Sender
use grpc_dgram.Metadata.Base64.{codes}
use grpc_dgram.Metadata.Join.{Joined, stored, type_error, not_followed, metadata_join}
use grpc_dgram.Metadata.Validation.{Check, valid, fault, validate_metadata}
use grpc_dgram.Wire.Flags.{Frame, frame, flag_window, flag_ping, is_data}
use grpc_dgram.Wire.MetadataCodec.{Metadata}
use grpc_dgram.Server.Replies.{allow_reply}
use grpc_dgram.Server.Stream.{
  Stream, Call, put_stream, put_host, is_ended, transmit, send_out, feed_clocks, report, off_shape,
}

-- What the adapter does with a frame: it takes it, refuses it for its size, or fails in some other way.
-- Whether a frame went out before such a failure is the adapter's own: the flag says it.
pub data Answer : Type 0 where
  taken too_large : Answer
  failed : Bool → Status → Answer

-- What an operation that may throw came to. The last one stands for no behaviour of the code: the model
-- does not follow it there.
pub data Outcome : Type 0 where
  done : Outcome
  throws : Status → Outcome
  throws_type_error : Outcome
  left_open : Outcome

unfoldable pub next_frame : Call → Call × Frame
next_frame c =
    let (t, seq) = Seq.next c.stream.tx_seq in
    (
      put_stream (record (c.stream) { tx_seq = t }) c,
      record frame {
        epoch = c.host.server_epoch;
        sid = c.stream.sid;
        seq = seq;
        peer_epoch = c.stream.client_epoch;
      },
    )

unfoldable pub attach_header : Bool → Frame → Stream → Stream × Frame
attach_header force f s = if s.hdr_sent then (s, f) else elim s.tx_header [
  | some md ↦ (record s { hdr_sent = true }, record f { header = some md })
  | none ↦ if force then (record s { hdr_sent = true }, record f { header = some [] }) else (s, f)
]

-- `Server.advertise`.
unfoldable pub advertise : Call → Frame → Frame
advertise c f = if c.stream.reliable then record f { conn_window = c.host.max_peer_window } else f

abbrev with_window : Call → Frame → Frame
with_window c f = if c.stream.reliable then record f { window = c.stream.rx_size } else f

abbrev keep_first : Option Frame → Frame → Option Frame
keep_first none f = some f
keep_first (some g) f = some g

-- A fresh creation ack, with the header state as it is.
fresh_ack : Call → Call × Frame
fresh_ack c =
    let (c', f) = next_frame c in
    let (s, f') = attach_header false (advertise c (with_window c f)) c'.stream in
    (put_stream s c', f')

unfoldable pub send_h : ℕ → Call → Call
unfolding fresh_ack
send_h now c =
    let (c', f) = fresh_ack c in
    transmit now f
      (put_stream (record (c'.stream) { hdr_frame = keep_first c'.stream.hdr_frame f }) c')

unfoldable pub grant_window : ℕ → ℕ → Call → Call
grant_window now n c =
    let (r, g) = consumed n c.stream.flow_rx in
    let c' = put_stream (record (c.stream) { flow_rx = r }) c in
    if is_ended c
    then c
    else if g == 0
    then c'
    else transmit now
        (record frame {
          epoch = c.host.server_epoch;
          sid = c.stream.sid;
          peer_epoch = c.stream.client_epoch;
          flags = flag_window;
          window = g;
        })
        c'

-- `Server.allowReplyFor`: a peer without a slot is allowed nothing.
allow_reply_for : ℕ → Call → Call × Bool
allow_reply_for now c = elim c.host.budgets [
  | none ↦ (c, false)
  | some b ↦
      (put_host (record (c.host) { budgets = some (allow_reply now b).0 }) c, (allow_reply now b).1)
]

stored_or_fresh : Option Frame → Call → Call × Frame
unfolding fresh_ack
stored_or_fresh none c = fresh_ack c
stored_or_fresh (some f) c = (c, f)

unfoldable pub replay_h : ℕ → Call → Call
unfolding allow_reply_for stored_or_fresh
replay_h now c =
    let c1 = put_stream (record (c.stream) { h_replay_at = now }) c in
    let (c2, allowed) = allow_reply_for now c1 in
    let (c3, f) = stored_or_fresh c2.stream.hdr_frame c2 in
    if ltb now (c.stream.h_replay_at + c.host.retransmit)
    then c
    else if allowed
    then transmit now f c3
    else c2

unfoldable pub probe_due : ℕ → ℕ → ℕ → Stream → Stream × Option Frame
probe_due now probe epoch s =
    if ltb now (s.last_rx + probe)
      || (ltb now (s.last_tx + probe) || ltb now (s.last_probe + probe))
    then (s, none)
    else (
      record s { last_probe = now },
      some (record frame {
        epoch = epoch;
        sid = s.sid;
        flags = flag_ping;
        peer_epoch = s.client_epoch;
      }),
    )

-- The text that goes with a failed validation is left off.
abbrev illegal_metadata : Status
illegal_metadata = record { code = Code.internal; desc = [] }

unfoldable pub illegal_header_write : Status
illegal_header_write = record {
  code = Code.internal;
  desc = codes "drpc: sendHeader called multiple times";
}

abbrev is_nil {ℓ} : {A : Type ℓ} → List A → Bool
is_nil [] = true
is_nil (x ∷ xs) = false

abbrev is_valid : Check → Bool
is_valid valid = true
is_valid (fault e) = false

-- The metadata that a join comes to is stored.
store_join : (Option Metadata → Stream → Stream) → Joined → Call → Call × Outcome
store_join put (stored md) c = (put_stream (put md c.stream) c, done)
store_join put type_error c = (c, throws_type_error)
store_join put not_followed c = (c, left_open)

unfoldable pub set_header : Metadata → Call → Call × Outcome
unfolding store_join
set_header md c =
    if is_nil md
    then (c, done)
    else if not (is_valid (validate_metadata md))
    then (c, throws illegal_metadata)
    else if c.stream.hdr_flushed || c.stream.hdr_sent
    then (c, throws illegal_header_write)
    else store_join (λ joined s. record s { tx_header = joined })
        (metadata_join c.stream.tx_header (some md)) c

-- The context's `setTrailer`: what is not valid is dropped, and reported.
unfoldable pub set_trailer : Metadata → Call → Call × Outcome
unfolding store_join
set_trailer md c =
    if is_nil md
    then (c, done)
    else if not (is_valid (validate_metadata md))
    then (report off_shape c, done)
    else store_join (λ joined s. record s { trailer = joined })
        (metadata_join c.stream.trailer (some md)) c

-- `transmitOrThrow`: a frame that is refused for its size never reached the wire.
unfoldable pub transmit_or_throw : ℕ → (Frame → Answer) → Frame → Call → Call × Answer
transmit_or_throw now ask f c =
    let c' = feed_clocks now c in
    elim (ask f) [
      | taken ↦ (send_out f c', taken)
      | too_large ↦ (c', too_large)
      | failed out st ↦ ((if out then send_out f c' else c'), failed out st)
    ]

-- `undoCredit`: one credit of each window goes back.
unfoldable pub undo_credit : Call → Call
undo_credit c =
    let c' = put_stream (record (c.stream) { flow_tx = (Sender.undo c.stream.flow_tx).0 }) c in
    if c.stream.reliable
    then put_host (record (c.host) { conn_tx = (Sender.undo c.host.conn_tx).0 }) c'
    else c'

-- `undoRefused`, for a frame that was refused for its size.
unfoldable pub undo_refused : Frame → Call → Call
undo_refused f c =
    let c' = put_stream (record (c.stream) { tx_seq = Seq.undo c.stream.tx_seq f.seq }) c in
    if is_data f then undo_credit c' else c'

-- `toStatusError` of a size refusal, the text left off.
abbrev pub too_large_status : Status
too_large_status = record { code = Code.resource_exhausted; desc = [] }

after_answer : Frame → Call × Answer → Call × Outcome
after_answer f (c, taken) = (c, done)
after_answer f (c, too_large) = (undo_refused f c, throws too_large_status)
after_answer f (c, failed out st) = (c, throws st)

abbrev joined_header : Option Metadata → Option Metadata → Joined
joined_header old none = stored old
joined_header old (some md) = metadata_join old (some md)

abbrev valid_option : Option Metadata → Bool
valid_option none = true
valid_option (some md) = is_valid (validate_metadata md)

-- The header frame of `sendHeader`, and the call once it is built.
flushed : Call → Call × Frame
flushed c =
    let (c', f) = next_frame c in
    let (s', f') = attach_header true (advertise c f) c'.stream in
    (put_stream (record s' { hdr_frame = keep_first s'.hdr_frame f' }) c', f')

-- `sendHeader` after the join: a join that throws leaves the header flushed.
send_joined : ℕ → (Frame → Answer) → Call × Outcome → Call × Outcome
unfolding flushed after_answer
send_joined now ask (c, done) =
    let (c', f) = flushed c in after_answer f (transmit_or_throw now ask f c')
send_joined now ask (c, o) = (c, o)

unfoldable pub send_header : ℕ → (Frame → Answer) → Option Metadata → Call → Call × Outcome
unfolding send_joined store_join
send_header now ask md c =
    let c1 = put_stream (record (c.stream) { hdr_flushed = true }) c in
    let joined = joined_header c.stream.tx_header md in
    if not (valid_option md)
    then (c, throws illegal_metadata)
    else if c.stream.hdr_flushed || c.stream.hdr_sent
    then (c, throws illegal_header_write)
    else send_joined now ask (store_join (λ j s. record s { tx_header = j }) joined c1)
