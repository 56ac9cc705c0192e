-- ===== src/Server/Stream/Send.antt =====
-- `send` and the terminal frame. Where the code awaits, what it does before and after are two functions,
-- and the call that the second one finds is any.
pub mod Refusal
pub mod Terminal
use grpc_dgram.Prelude.{
  ℕ, ◌+◌, ◌-◌, ◌/◌, ◌%◌, ◌≤◌, Bool, true, false, not, ◌&&◌, ◌||◌, List, [], ◌∷◌, ◌++◌, Option, none,
  some, ltb, ◌==◌, if◌then◌else◌,
}
use grpc_dgram.Status.{Status, Try, returns, set_frame_error}
use grpc_dgram.Status
use grpc_dgram.Status.Code
use grpc_dgram.Metadata.Base64.{codes}
use grpc_dgram.Wire.Text.{Text}
use grpc_dgram.Flow.Sender.{FlowSender}
use grpc_dgram.Flow.Both.{Windows, try_acquire_both}
use grpc_dgram.Flow.Acquire.{Moment, FlowAcquireBoth, Attempt, Wake, Round, round, when_stalled}
use grpc_dgram.Flow.Acquire
use grpc_dgram.Compression.{Compressor, WirePayload, encode_payload}
use grpc_dgram.Wire.Flags.{Frame, Any, flag_close}
use grpc_dgram.Server.Stream.{
  Event, Stream, Host, Call, put_stream, put_host, is_ended, report, flow_stall, peer_flow_stall,
  flow_resume, peer_flow_resume,
}
use grpc_dgram.Server.Stream.Header.{
  Answer, taken, too_large, failed, Outcome, done, throws, next_frame, attach_header, advertise,
  transmit_or_throw, undo_credit, undo_refused, too_large_status,
}

-- What a send does next: it fails, it waits for credit (with what `onStall` was told, and whether it is
-- the connection window that it waits on), or it has its credit and encodes the message.
pub data Sending : Type 0 where
  fails : Status → Sending
  parks : Option Bool → Bool → Sending
  encodes : Sending

abbrev pub not_server_streaming : Status
not_server_streaming = record {
  code = Code.internal;
  desc = codes "send on a non-server-streaming call";
}

-- The number of milliseconds is left off these texts.
abbrev stall_status : FlowAcquireBoth → Status
stall_status FlowAcquireBoth.peer_stalled = record {
  code = Code.unavailable;
  desc = codes "drpc: flow-control stall: the peer granted no connection credit";
}
stall_status _ = record {
  code = Code.unavailable;
  desc = codes "drpc: flow-control stall: the peer granted no credit";
}

-- `abortCause`; a signal that was not aborted has no reason.
abbrev pub abort_cause : Option Status → Status
abort_cause (some st) = st
abort_cause none = record { code = Code.unknown; desc = codes "undefined" }

unfoldable pub windows : Call → Windows
windows c = record {
  stream = c.stream.flow_tx;
  peer = if c.stream.reliable then some c.host.conn_tx else none;
}

abbrev or_kept : Option FlowSender → FlowSender → FlowSender
or_kept none p = p
or_kept (some q) p = q

unfoldable pub put_windows : Windows → Call → Call
put_windows w c = record {
  stream = record (c.stream) { flow_tx = w.stream };
  host = record (c.host) { conn_tx = or_kept w.peer c.host.conn_tx };
}

abbrev stalled_on : Bool → Event
stalled_on peer = if peer then peer_flow_stall else flow_stall

abbrev resumed_on : Option Bool → Event
resumed_on (some true) = peer_flow_resume
resumed_on _ = flow_resume

-- The stall is reported when the send parks for the first time.
first_park : Option Bool → Bool → Call → Call
first_park none peer c = report (stalled_on peer) c
first_park (some b) peer c = c

-- What `send` makes of the outcome of `acquireBoth`.
woken : FlowAcquireBoth → Option Bool → Call → Call × Sending
woken FlowAcquireBoth.ok stall c = (report (resumed_on stall) c, encodes)
woken FlowAcquireBoth.stalled stall c = (c, fails (stall_status FlowAcquireBoth.stalled))
woken FlowAcquireBoth.peer_stalled stall c = (c, fails (stall_status FlowAcquireBoth.peer_stalled))
woken _ stall c = (c, fails (abort_cause c.stream.ended))

-- A round that returned has its outcome.
after_round : Option Bool → Round → Call → Call × Sending
unfolding first_park woken
after_round st (Round.returns a) c = elim a.outcome [
  | some o ↦ woken o st (put_windows a.windows c)
  | none ↦ (c, encodes)
]
after_round st (Round.parks st' peer w) c = (put_windows w (first_park st peer c), parks st' peer)

moment : Call → Moment
moment c = record { windows = windows c; done = is_ended c; is_aborted = false }

-- One round of `acquireBoth` for the send named `id`.
unfoldable pub acquire_round : ℕ → Option Bool → Call → Call × Sending
unfolding after_round moment
acquire_round id st c = after_round st (round id st (moment c)) c

-- A parked send is woken.
unfoldable pub send_wakes : ℕ → Option Bool → Bool → Wake → Call → Call × Sending
unfolding woken
send_wakes id st peer Wake.granted c = acquire_round id st c
send_wakes id st peer Wake.stalled c = woken (when_stalled peer) st c
send_wakes id st peer _ c = woken FlowAcquireBoth.ended st c

-- `send` up to its first await; `raw` is what `marshal` came to.
unfoldable pub send_begins : ℕ → Try (List ℕ) → Call → Call × Sending
send_begins id (Status.throws st) c = (c, fails st)
send_begins id (returns raw) c =
    let (w, got) = try_acquire_both (windows c) in
    if not c.stream.shape.server_streams
    then (c, fails not_server_streaming)
    else if is_ended c
    then (c, fails (abort_cause c.stream.ended))
    else if got
    then (put_windows w c, encodes)
    else acquire_round id none c

abbrev pub set_compressed : Bool → ℕ → ℕ
set_compressed on flags = if on && flags / 32 % 2 == 0 then flags + 32 else flags

abbrev pub clear_compressed : ℕ → ℕ
clear_compressed flags = if flags / 32 % 2 == 1 then flags - 32 else flags

-- The data frame of a message.
unfoldable pub data_frame : WirePayload → Call → Call × Frame
data_frame enc c =
    let (c', f) = next_frame c in
    let f1 = record f { payload = some enc.bytes; flags = set_compressed enc.compressed f.flags } in
    let (s, f2) = attach_header false f1 c'.stream in (put_stream s c', f2)

-- A failure of the adapter is thrown on as it is.
rethrown : Frame → Call × Answer → Call × Outcome
rethrown f (c, taken) = (c, done)
rethrown f (c, too_large) = (undo_refused f c, throws too_large_status)
rethrown f (c, failed out st) = (c, throws st)

-- The end of `send`: the frame goes out, or is taken back.
unfoldable pub transmit_data : ℕ → (Frame → Answer) → Call × Frame → Call × Outcome
unfolding rethrown
transmit_data now ask (c, f) = rethrown f (transmit_or_throw now ask f c)

-- `send` once the message is encoded.
unfoldable pub send_encoded : ℕ → (Frame → Answer) → Try WirePayload → Call → Call × Outcome
send_encoded now ask (Status.throws st) c = (undo_credit c, throws st)
send_encoded now ask (returns enc) c =
    let sent = transmit_data now ask (data_frame enc c) in
    if is_ended c then (undo_credit c, throws (abort_cause c.stream.ended)) else sent

abbrev response_already_set : Status
response_already_set = record { code = Code.internal; desc = codes "response already set" }

-- `setResponse`; `raw` is what `marshal` came to.
unfoldable pub set_response : Try (List ℕ) → Call → Call × Outcome
set_response raw c = elim c.stream.response [
  | some r ↦ (c, throws response_already_set)
  | none ↦ elim raw [
    | returns bytes ↦ (put_stream (record (c.stream) { response = some bytes }) c, done)
    | Status.throws st ↦ (c, throws st)
  ]
]

-- How a call ends: with an error and its details, or with the response, if there is one.
pub data Ending : Type 0 where
  fails_with : Status → List Any → Ending
  replies : Option WirePayload → Ending

encoded_reply : Try WirePayload → Ending
encoded_reply (returns enc) = replies (some enc)
encoded_reply (Status.throws st) = fails_with st []

-- The first half of `terminalFrame`.
unfoldable pub ending :
    Option Compressor → ℕ → Option (Status × List Any) → Option (List ℕ) → Ending
unfolding encoded_reply
ending comp max_send (some (st, details)) response = fails_with st details
ending comp max_send none none = replies none
ending comp max_send none (some raw) = encoded_reply (encode_payload comp max_send raw)

with_ending : Ending → Frame → Frame
with_ending (fails_with st details) f = record (set_frame_error st f) { details = details }
with_ending (replies none) f = record f { code = some Code.ok }
with_ending (replies (some enc)) f = record f {
  payload = some enc.bytes;
  flags = set_compressed enc.compressed f.flags;
  code = some Code.ok;
}

-- The second half: the frame, with both metadata.
unfoldable pub terminal_frame : Ending → Call → Call × Frame
unfolding with_ending
terminal_frame e c =
    let (c', f) = next_frame c in
    let f1 = advertise c (record f { flags = flag_close }) in
    let f2 = record f1 { header = c.stream.tx_header; trailer = c.stream.trailer } in
    let flushed : Bool = elim c.stream.tx_header [ none ↦ c'.stream.hdr_sent | some md ↦ true ] in
    (put_stream (record (c'.stream) { hdr_sent = flushed }) c', with_ending e f2)

abbrev refused : Answer → Bool
refused too_large = true
refused _ = false

-- `tryTransmit`: whether the adapter refused the frame for its size.
unfoldable pub try_transmit : ℕ → (Frame → Answer) → Frame → Call → Call × Bool
try_transmit now ask f c = let (c', a) = transmit_or_throw now ask f c in (c', refused a)

-- `text` says what the adapter's refusal was.
abbrev pub does_not_fit : Text → Status
does_not_fit text = record {
  code = Code.resource_exhausted;
  desc = codes "drpc: the terminal frame does not fit the transport: " ++ text;
}

unfoldable pub minimal : Text → Frame → Frame
minimal text f =
    set_frame_error (does_not_fit text)
      (record f { payload = none; flags = clear_compressed f.flags; details = [] })

abbrev is_minimal : Frame → Bool
is_minimal f = elim f.payload [
  | some p ↦ false
  | none ↦ elim f.code [ none ↦ false | some n ↦ n == Code.resource_exhausted ]
]

last_try : ℕ → (Frame → Answer) → Text → Frame → Call → Call × Frame
last_try now ask text f c =
    let (c', r) = try_transmit now ask (minimal text f) c in
    if is_minimal f then (c, f) else (c', minimal text f)

abbrev has_details : Frame → Bool
has_details f = elim f.details [ [] ↦ false | d ∷ ds ↦ true ]

-- `transmitTerminal`, with the frame as it is left: `ask i` is the adapter's answer to the `i`-th attempt.
unfoldable pub transmit_terminal : ℕ → (ℕ → Frame → Answer) → Text → Frame → Call → Call × Frame
unfolding last_try
transmit_terminal now ask text f c =
    let g = record f { details = [] } in
    let (c1, r1) = try_transmit now (ask 0) f c in
    let (c2, r2) = try_transmit now (ask 1) g c1 in
    let after_details = last_try now (ask 2) text g c2 in
    let after_first = last_try now (ask 2) text f c1 in
    if not r1
    then (c1, f)
    else if not (has_details f)
    then after_first
    else if not r2
    then (c2, g)
    else after_details
