-- ===== src/Server/Stream/Receive.antt =====
-- `handleRx`, `recv` and what `finish` does to one call.
pub mod Credited
use grpc_dgram.Prelude.{
  ℕ, ◌+◌, Bool, true, false, not, ◌&&◌, ◌||◌, List, [], ◌∷◌, Option, none, some, ltb, ◌==◌,
  if◌then◌else◌,
}
use grpc_dgram.Status.{Status, frame_status}
use grpc_dgram.Status.Code
use grpc_dgram.Seq.{RxVerdict, check, take_gap}
use grpc_dgram.Queue.{FrameQueue, try_put, try_take, put_drop}
use grpc_dgram.Queue.Blocking.{put_blocking}
use grpc_dgram.Flow.Sender.{grant, release}
use grpc_dgram.Metadata.Base64.{codes}
use grpc_dgram.Wire.Flags.{
  Frame, flag_window, has_unknown_flags, legal_shape, shape_of, is_open, is_terminal, is_half_close,
  is_data,
}
use grpc_dgram.Server.Stream.{
  Stream, Host, Call, Event, skipped, dropped, is_unary, put_stream, put_host, cancel, is_ended,
  report, count_drop, note_validated_rx,
}
use grpc_dgram.Server.Stream.Credit.{
  retire_peer, credit_unbuffered, pin, unpin, unpin_and_retire, release_pinned, admit_frame,
}
use grpc_dgram.Server.Stream.Header.{replay_h, grant_window}

-- The number of the flags is left off the text.
unfoldable pub unsupported_flags : Status
unsupported_flags = record {
  code = Code.internal;
  desc = codes "drpc: frame carries unsupported flags";
}

unfoldable pub broken_transport : Status
broken_transport = record {
  code = Code.internal;
  desc = codes "reliable transport lost or reordered a frame";
}

unfoldable pub window_overrun : Status
window_overrun = record {
  code = Code.data_loss;
  desc = codes "seq window overrun: >W_fwd consecutive frames lost";
}

unfoldable pub peer_overrun : Status
peer_overrun = record {
  code = Code.internal;
  desc = codes "drpc: peer exceeded the connection flow-control window";
}

unfoldable pub stream_overrun : Status
stream_overrun = record {
  code = Code.internal;
  desc = codes "drpc: peer exceeded the advertised flow-control window";
}

unfoldable pub closed_in_delivery : Status
closed_in_delivery = record {
  code = Code.unavailable;
  desc = codes "transport closed during delivery";
}

unfoldable pub call_finished : Status
call_finished = record { code = Code.cancelled; desc = codes "call finished" }

-- A put that waits, after its first turn: what became of it. A put that goes on waiting keeps its
-- frame pinned; the rest of it is in Queue/Blocking.
after_put : Option Bool → Call → Call
after_put (some false) c = cancel closed_in_delivery (count_drop (unpin_and_retire c))
after_put (some true) c = c
after_put none c = c

-- `aborted`: the adapter's signal fired.
block_on_full : Bool → Frame → Call → Call
unfolding after_put
block_on_full aborted f c =
    let p =
      put_blocking f (record { queue = c.stream.rxq; done = is_ended c; is_aborted = aborted })
        [] in
    after_put p.returned (put_stream (record (c.stream) { rxq = p.queue }) c)

-- A pinned frame goes into the buffer.
enqueue : Bool → Frame → Call → Call
unfolding block_on_full
enqueue aborted f c =
    let (q, admitted) = try_put f c.stream.rxq in
    if not c.stream.flow_rx.on
    then block_on_full aborted f c
    else if admitted
    then put_stream (record (c.stream) { rxq = q }) c
    else cancel stream_overrun (unpin_and_retire c)

deliver_reliable : Bool → Frame → Call → Call
unfolding enqueue
deliver_reliable aborted f c =
    let (c1, room) = admit_frame c in
    let (c2, was_pinned) = pin c1 in
    if not room
    then credit_unbuffered f (cancel peer_overrun c1)
    else if not was_pinned
    then retire_peer 1 c2
    else enqueue aborted f c2

deliver_unreliable : Frame → Call → Call
deliver_unreliable f c =
    let (q, lost) = put_drop f c.stream.rx_policy c.stream.rxq in
    let c' = put_stream (record (c.stream) { rxq = q }) c in
    if ltb 0 lost then report (dropped 1) c' else c'

deliver_data : Bool → Frame → Call → Call
unfolding deliver_reliable deliver_unreliable
deliver_data aborted f c =
    if is_unary c.stream.shape || not c.stream.shape.client_streams
    then credit_unbuffered f (count_drop c)
    else if c.stream.reliable
    then deliver_reliable aborted f c
    else deliver_unreliable f c

-- An accepted frame, by its kind.
unfoldable pub deliver : Bool → Frame → Call → Call
unfolding deliver_data
deliver aborted f c =
    if is_terminal f
    then cancel (frame_status f) c
    else if is_half_close f
    then put_stream (record (c.stream) { rx_eof = true }) c
    else if is_data f
    then deliver_data aborted f c
    else count_drop c

report_gap : ℕ → Call → Call
report_gap gap c = if ltb 0 gap then report (skipped gap) c else c

accepted : ℕ → Bool → Frame → Call → Call
unfolding report_gap
accepted now aborted f c =
    let (w, gap) = take_gap c.stream.rx_win in
    deliver aborted f
      (note_validated_rx now (report_gap gap (put_stream (record (c.stream) { rx_win = w }) c)))

unfoldable pub on_verdict : ℕ → Bool → Frame → RxVerdict → Call → Call
unfolding accepted
on_verdict now aborted f RxVerdict.accept c = accepted now aborted f c
on_verdict now aborted f RxVerdict.dup c = note_validated_rx now (credit_unbuffered f c)
on_verdict now aborted f RxVerdict.beyond c = credit_unbuffered f c
on_verdict now aborted f RxVerdict.data_loss c =
    cancel window_overrun (report Event.data_loss (credit_unbuffered f c))
on_verdict now aborted f RxVerdict.protocol_error c =
    cancel broken_transport (credit_unbuffered f c)

-- Another OPEN of a call that lives.
unfoldable pub duplicate_open : ℕ → Frame → Call → Call
duplicate_open now f c =
    if not (f.seq == 1)
    then count_drop c
    else if c.stream.reliable
    then cancel broken_transport c
    else if is_unary c.stream.shape && is_none c.stream.hdr_frame
    then note_validated_rx now c
    else replay_h now (note_validated_rx now c)
  where
    is_none : Option Frame → Bool
    is_none none = true
    is_none (some g) = false

-- A grant counts only where there is flow control.
stream_credit : Frame → Call → Call
stream_credit f c =
    if c.stream.reliable
    then put_stream (record (c.stream) { flow_tx = grant f.window c.stream.flow_tx }) c
    else c

unfoldable pub handle_rx : ℕ → Bool → Frame → Call → Call
unfolding stream_credit
handle_rx now aborted f c =
    let (w, v) = check c.stream.rx_win f.seq in
    if has_unknown_flags f || not (legal_shape (shape_of f))
    then credit_unbuffered f (cancel unsupported_flags c)
    else if shape_of f == flag_window
    then stream_credit f c
    else if is_open f
    then duplicate_open now f c
    else on_verdict now aborted f v (put_stream (record (c.stream) { rx_win = w }) c)

-- `recv`, one turn: a buffered frame, or none yet.
taken_out : Call → FrameQueue Frame × Option Frame → Call × Option Frame
taken_out c (q, none) = (c, none)
taken_out c (q, some f) =
    let c' = put_stream (record (c.stream) { rxq = q }) c in
    ((if is_open f then c' else unpin_and_retire c'), some f)

unfoldable pub take_buffered : Call → Call × Option Frame
unfolding taken_out
take_buffered c = taken_out c (try_take c.stream.rxq)

-- `recvBuffered` after the decoding, which grants the stream credit only where it succeeded.
unfoldable pub delivered : ℕ → Bool → Call → Call
delivered now decoded c = if decoded then grant_window now 1 c else c

-- What `Server.finish` does to the call itself.
unfoldable pub finish_stream : Call → Call
finish_stream c =
    cancel call_finished
      (release_pinned (put_stream (record (c.stream) { flow_tx = release c.stream.flow_tx }) c))
