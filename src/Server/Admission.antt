-- ===== src/Server/Admission.antt =====
-- `open`, `rejectOpen` and `finish` of `Server` in ts/src/server.ts. The frame's payload, the codecs and
-- the handlers themselves are looked at only where the code does before a handler runs. The unary call's
-- OPEN goes to its handler as it is.
use grpc_dgram.Prelude.{
  ℕ, ◌+◌, ◌-◌, ◌/◌, Bool, true, false, not, ◌&&◌, ◌||◌, List, [], ◌∷◌, ◌++◌, Option, none, some,
  ltb, leb, ◌==◌, if◌then◌else◌, max, ℤ, pos, negsuc,
}
use grpc_dgram.OrderedMap.{get, set, delete, has}
use grpc_dgram.Status.{Status, set_frame_error}
use grpc_dgram.Status.Code
use grpc_dgram.Metadata.Base64.{codes}
use grpc_dgram.Config.Limits.{ResolvedRxConfig}
use grpc_dgram.Queue.{try_put}
use grpc_dgram.Flow.Sender.{reliable_rx_size, observe}
use grpc_dgram.Wire.Text.{Text}
use grpc_dgram.Wire.Flags.{Frame, frame, flag_close, is_close}
use grpc_dgram.Server.Tombs.{add_tomb}
use grpc_dgram.Server.Tombs.Watermark.{raise_hwm}
use grpc_dgram.Server.Stream.{
  Stream, Shape, Call, is_unary, put_stream, cancel, count_drop, first_cause,
}
use grpc_dgram.Server.Stream
use grpc_dgram.Server.Stream.Header.{send_h}
use grpc_dgram.Server.Stream.Receive.{finish_stream}
use grpc_dgram.Server.Table.{
  Config, Desk, Slot, Container, Live, PendingReset, slot_of, put_slot, put_container, container_of,
  post, ensure_flow, ensure_peer, observe_advertisement, send_reset,
}
use grpc_dgram.Server.Table.Call.{on_call, call_at, container_after, put_back}

abbrev pub method_not_found : Status
method_not_found = record { code = Code.unimplemented; desc = codes "method not found" }

abbrev pub unsupported_codec : Text → Status
unsupported_codec name = record {
  code = Code.unimplemented;
  desc = codes "unsupported codec: " ++ name;
}

abbrev pub unsupported_compressor : Text → Status
unsupported_compressor name = record {
  code = Code.unimplemented;
  desc = codes "unsupported compressor: " ++ name;
}

abbrev pub too_many_calls : Status
too_many_calls = record { code = Code.resource_exhausted; desc = codes "too many concurrent calls" }

abbrev call_timeout : Status
call_timeout = record { code = Code.deadline_exceeded; desc = codes "call timeout" }

abbrev pub is_empty : Text → Bool
is_empty [] = true
is_empty (c ∷ cs) = false

-- `ensurePeer` and its effect on the server's latch.
unfoldable pub with_peer : Config → ℕ → Bool → Frame → Desk → Desk × Container
with_peer cfg now rel f d =
    let (s, ps) = ensure_peer cfg f.epoch now rel (slot_of d.slot) in
    let is_new = not (has f.epoch (slot_of d.slot).epochs) in
    (record d { slot = some s; saw_unreliable = d.saw_unreliable || (is_new && not rel) }, ps)

-- The terminal of a rejection.
unfoldable pub rejection : Config → Bool → Frame → Status → Frame
rejection cfg rel f st = set_frame_error st (record frame {
  epoch = cfg.epoch;
  sid = f.sid;
  seq = 1;
  flags = flag_close;
  peer_epoch = f.epoch;
  conn_window = if rel then cfg.limits.max_peer_window else 0;
})

-- `rejectOpen`.
unfoldable pub reject_open : Config → ℕ → Bool → Frame → Status → Desk → Desk
reject_open cfg now rel f st d =
    let t = rejection cfg rel f st in
    let (d1, ps) = with_peer cfg now rel f d in
    let s = slot_of d1.slot in
    let seen = record ps { last_rx = now } in
    let buried = record seen {
      state = add_tomb f.sid (some t) (now + cfg.tombstone) (raise_hwm f.sid seen.state);
    } in
    let kept = put_container (observe_advertisement true f seen) (ensure_flow cfg s) in
    post t (put_slot (if rel then kept else put_container buried s) d1)

-- A budget of nanoseconds in whole milliseconds; none is left of one that is not positive.
unfoldable pub budget_ms : ℤ → ℕ
budget_ms (pos n) = (n + 999999) / 1000000
budget_ms (negsuc n) = 0

abbrev clamp : ℕ → ℕ → ℕ
clamp cap n = if ltb 0 cap && ltb cap n then cap else n

-- The call's deadline; without a budget it has none.
unfoldable pub deadline : Config → ℕ → Frame → Option ℕ
deadline cfg now f = elim f.timeout [
  | none ↦ none
  | some t ↦ some (now + clamp cfg.max_handler_timeout (budget_ms t))
]

abbrev overdue : ℕ → Option ℕ → Bool
overdue now none = false
overdue now (some at) = leb at now

-- The call that the OPEN creates.
unfoldable pub new_call : Config → ℕ → Bool → Frame → Shape → ResolvedRxConfig → Live
new_call cfg now rel f shape rx =
    let st = Stream.create f.epoch f.sid shape rel (reliable_rx_size rx.size rel) rx.policy now in
    let at = deadline cfg now f in
    record {
      stream = record st {
        flow_tx = if rel then observe f.window st.flow_tx else st.flow_tx;
        ended = if overdue now at then some call_timeout else none;
      };
      deadline_at = at;
      metadata = f.header;
    }

is_key : ℕ → ℕ → PendingReset → Bool
is_key epoch sid r = r.epoch == epoch && r.sid == sid

unfoldable pub drop_pending : ℕ → ℕ → List PendingReset → List PendingReset
unfolding is_key
drop_pending epoch sid [] = []
drop_pending epoch sid (r ∷ rs) =
    let rest = drop_pending epoch sid rs in if is_key epoch sid r then rs else r ∷ rest

unfoldable pub has_pending : ℕ → ℕ → List PendingReset → Bool
unfolding is_key
has_pending epoch sid [] = false
has_pending epoch sid (r ∷ rs) = is_key epoch sid r || has_pending epoch sid rs

-- The container with the call in it.
unfoldable pub seat_call : ℕ → ℕ → Live → Container → Container
seat_call now sid v ps = record ps {
  calls = set sid v ps.calls;
  live_calls = ps.live_calls + 1;
  state = raise_hwm sid ps.state;
  dead = false;
  last_rx = now;
}

-- The call is in the table, a RESET that was scheduled for it is not, and its handler is started.
unfoldable pub admitted : Config → ℕ → Bool → Frame → Live → Container → Desk → Desk
admitted cfg now rel f v ps d =
    let s = slot_of d.slot in
    let s1 =
      put_container (seat_call now f.sid v ps) (record s { live_calls = s.live_calls + 1 }) in
    let s2 = if rel then ensure_flow cfg s1 else s1 in
    record d {
      slot = some (record s2 { pending_resets = drop_pending f.epoch f.sid s2.pending_resets });
      pending_reset_total =
          if has_pending f.epoch f.sid s.pending_resets
          then d.pending_reset_total - 1
          else d.pending_reset_total;
      live_tasks = d.live_tasks + 1;
      started = d.started ++ ((f.epoch, f.sid) ∷ []);
    }

abbrev has_payload : Frame → Bool
has_payload f = elim f.payload [ none ↦ false | some p ↦ true ]

-- What the OPEN of a streaming call brings with it, and the creation ack.
unfoldable pub first_steps : ℕ → Frame → Call → Call
first_steps now f c =
    let (q, put) = try_put f c.stream.rxq in
    let request =
      put_stream
        (record (c.stream) { rxq = if has_payload f then q else c.stream.rxq; rx_eof = is_close f })
        c in
    if is_unary c.stream.shape
    then c
    else if not c.stream.shape.client_streams
    then send_h now request
    else if has_payload f || is_close f
    then send_h now (count_drop c)
    else send_h now c

-- The call that stands at a place in the table takes a step.
unfoldable pub step_at : Config → (Call → Call) → ℕ → ℕ → Desk → Desk
step_at cfg op epoch sid d = elim (container_of epoch d.slot) [
  | none ↦ d
  | some ps ↦ elim (get sid ps.calls) [
    | none ↦ d
    | some v ↦ on_call cfg op sid v ps (slot_of d.slot) d
  ]
]

-- `open` from the lookup of the peer on.
unfoldable pub admit_call : Config → ℕ → Bool → Frame → Shape → ResolvedRxConfig → Desk → Desk
admit_call cfg now rel f shape rx d =
    let (d1, ps) = with_peer cfg now rel f d in
    let ps1 = observe_advertisement rel f ps in
    let d2 = put_slot (put_container ps1 (slot_of d1.slot)) d1 in
    let v = new_call cfg now rel f shape rx in
    let d3 = step_at cfg (first_steps now f) f.epoch f.sid (admitted cfg now rel f v ps1 d2) in
    let rejected = reject_open cfg now rel f too_many_calls d2 in
    if leb cfg.limits.max_live_calls (slot_of d2.slot).live_calls then rejected else d3

unfoldable pub served : Config → ℕ → Bool → Frame → Option (Shape × ResolvedRxConfig) → Desk → Desk
served cfg now rel f none d = reject_open cfg now rel f method_not_found d
served cfg now rel f (some (shape, rx)) d =
    if not (is_empty f.codec) && not (cfg.codecs f.codec)
    then reject_open cfg now rel f (unsupported_codec f.codec) d
    else if not (is_empty f.compressor) && not (cfg.compressors f.compressor)
    then reject_open cfg now rel f (unsupported_compressor f.compressor) d
    else admit_call cfg now rel f shape rx d

-- `open`.
unfoldable pub open_call : Config → ℕ → Bool → Frame → Desk → Desk
open_call cfg now rel f d =
    if d.drain || d.closed
    then send_reset cfg now rel f d
    else served cfg now rel f (cfg.services f.method) d

abbrev later_of : ℕ → Option ℕ → ℕ
later_of at none = at
later_of at (some deadline_at) = max at deadline_at

-- The container without the call; its tombstone has no terminal where the peer is lost.
unfoldable pub bury : Config → ℕ → ℕ → Live → Option Frame → Container → Container
bury cfg now sid v term ps =
    let ps1 = record ps { calls = delete sid ps.calls; live_calls = ps.live_calls - 1 } in
    if v.stream.reliable then ps1 else record ps1 {
      state =
          add_tomb sid (if ps.dead then none else term)
            (later_of (now + cfg.tombstone) v.deadline_at) ps1.state;
    }

unfoldable pub finished : Config → ℕ → ℕ → Option Frame → Live → Container → Slot → Desk → Desk
finished cfg now sid term v ps s d =
    let ps1 = bury cfg now sid v term ps in
    let s1 = record s { live_calls = s.live_calls - 1 } in
    let c = finish_stream (call_at cfg v ps1 s1 d) in
    put_back v.stream.reliable c.host (container_after c.host ps1) s1
      (record d { live_tasks = d.live_tasks - 1 })

-- `finish` and `taskDone`, for a call that the table holds.
unfoldable pub finish : Config → ℕ → ℕ → ℕ → Option Frame → Desk → Desk
finish cfg now epoch sid term d = elim (container_of epoch d.slot) [
  | none ↦ d
  | some ps ↦ elim (get sid ps.calls) [
    | none ↦ d
    | some v ↦ finished cfg now sid term v ps (slot_of d.slot) d
  ]
]
