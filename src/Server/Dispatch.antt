-- ===== src/Server/Dispatch.antt =====
-- `Server.handle` of ts/src/server.ts at the desk of the frame's peer, with the RESET paths. `rel` is the
-- mode of the frame's channel, `aborted` whether the delivery's own signal is.
pub mod Started
pub mod Bounded
pub mod Admitted
pub mod Capacity
pub mod Caps
pub mod Isolation
use grpc_dgram.Prelude.{
  ℕ, ◌+◌, ◌≤◌, Bool, true, false, not, ◌&&◌, ◌||◌, List, [], ◌∷◌, ◌++◌, Option, none, some, ltb,
  leb, ◌==◌, if◌then◌else◌, length,
}
use grpc_dgram.OrderedMap.{OrderedMap, get, set, delete, has}
use grpc_dgram.Status.{Status}
use grpc_dgram.Status.Code
use grpc_dgram.Metadata.Base64.{codes}
use grpc_dgram.Flow.Sender.{grant}
use grpc_dgram.Flow.Ledger.{PeerFlowRx, unadmitted, unadmitted_evicted, credit_evicted}
use grpc_dgram.Wire.Flags.{Frame, is_reset, is_ping, is_open, is_data, shape_of, flag_window}
use grpc_dgram.Server.Tombs.{SrvTomb, PeerState, hwm_aged, replay_due, replay_tomb, stored}
use grpc_dgram.Server.Stream.{Stream, first_cause}
use grpc_dgram.Server.Stream.Receive.{handle_rx}
use grpc_dgram.Server.Table.{
  Config, Desk, Slot, Container, Live, PendingReset, slot_of, put_slot, put_container, container_of,
  post, note, grant_on, allow, send_reset, reset_received, tombstone_replay,
}
use grpc_dgram.Server.Table.Call.{on_call}
use grpc_dgram.Server.Admission.{open_call, has_pending}

abbrev pub reset_by_peer : Status
reset_by_peer = record { code = Code.unavailable; desc = codes "call reset by peer" }

-- The call is cancelled and sends no terminal.
unfoldable pub silenced : Status → Live → Live
silenced cause v = record v {
  stream = record (v.stream) { suppress_term = true; ended = first_cause v.stream.ended cause };
}

disown : ℕ → Option Live → Container → Container
disown sid none ps = ps
disown sid (some v) ps = record ps { calls = set sid (silenced reset_by_peer v) ps.calls }

-- The named incarnation's call, or each one's where none is named.
unfoldable pub reset_in : ℕ → ℕ → Container → Container
unfolding disown
reset_in sid peer_epoch ps =
    if not (peer_epoch == 0) && not (ps.epoch == peer_epoch)
    then ps
    else disown sid (get sid ps.calls) ps

-- `resetByPeerSid`
unfoldable pub reset_calls : ℕ → ℕ → OrderedMap Container → OrderedMap Container
reset_calls sid peer_epoch [] = []
reset_calls sid peer_epoch ((epoch, ps) ∷ m) =
    (epoch, reset_in sid peer_epoch ps) ∷ reset_calls sid peer_epoch m

unfoldable pub reset_slot : ℕ → ℕ → Option Slot → Desk → Desk
reset_slot sid peer_epoch none d = d
reset_slot sid peer_epoch (some s) d =
    put_slot (record s { epochs = reset_calls sid peer_epoch s.epochs }) d

unfoldable pub on_reset : Config → Frame → Desk → Desk
on_reset cfg f d =
    if not (f.epoch == cfg.epoch)
    then d
    else reset_slot f.sid f.peer_epoch d.slot (note reset_received f.sid d)

answered : SrvTomb → Option Frame → Desk → Desk
answered tb none d = d
answered tb (some g) d = post g (note tombstone_replay tb.sid d)

-- The stored terminal goes out again, within the limits; the flag says whether it did. The slot `s` has
-- the container `ps` in it.
unfoldable pub replay : Config → ℕ → SrvTomb → Container → Slot → Desk → Desk × Bool
unfolding answered
replay cfg now tb ps s d =
    let (d1, ok) = allow cfg now s d in
    let (state, answer) = replay_tomb tb now cfg.retransmit ps.state in
    let d2 = put_slot (put_container (record ps { state = state }) (slot_of d1.slot)) d1 in
    if not (replay_due tb now cfg.retransmit)
    then (put_slot s d, false)
    else if ok
    then (answered tb answer d2, true)
    else (d1, false)

-- A probe of a call that is over.
probed : Config → ℕ → Bool → Frame → SrvTomb → Container → Slot → Desk → Desk
probed cfg now rel f tb ps s d =
    let (d1, sent) = replay cfg now tb ps s d in
    if sent || stored tb then d1 else send_reset cfg now rel f d1

pinged : Config → ℕ → Bool → Frame → Container → Slot → Desk → Desk
unfolding probed
pinged cfg now rel f ps s d =
    let d' = put_slot s d in
    let unanswered : Desk = elim (get f.sid ps.state.tombs) [
      | none ↦ send_reset cfg now rel f d'
      | some tb ↦ probed cfg now rel f tb ps s d
    ] in
    if f.sid == 0 || has f.sid ps.calls then d' else unanswered

abbrev pub seen : ℕ → Container → Container
seen now ps = record ps { last_rx = now }

unfoldable pub ping_at : Config → ℕ → Bool → Frame → Option Container → Desk → Desk
unfolding pinged
ping_at cfg now rel f none d = if f.sid == 0 then d else send_reset cfg now rel f d
ping_at cfg now rel f (some ps) d =
    pinged cfg now rel f (seen now ps) (put_container (seen now ps) (slot_of d.slot)) d

unfoldable pub on_ping : Config → ℕ → Bool → Frame → Desk → Desk
on_ping cfg now rel f d = ping_at cfg now rel f (container_of f.epoch d.slot) d

granted_evicted : ℕ → ℕ → Option Slot → Option Slot
granted_evicted epoch n none = none
granted_evicted epoch n (some s) = elim s.flow [
  | none ↦ some s
  | some l ↦ some (record s { flow = some (credit_evicted epoch n l) })
]

-- A grant on the connection window, to a container or to the position that the ledger holds.
unfoldable pub grant_at : Frame → Option Container → Desk → Desk
unfolding granted_evicted
grant_at f none d = record d { slot = granted_evicted f.epoch f.window d.slot }
grant_at f (some ps) d =
    put_slot (put_container (record ps { conn_tx = grant f.window ps.conn_tx }) (slot_of d.slot)) d

unfoldable pub on_grant : Bool → Frame → Desk → Desk
on_grant rel f d = if rel then grant_at f (container_of f.epoch d.slot) d else d

-- The credit of a data frame of a call that is not here goes back to its incarnation, where this side
-- holds flow state for it.
with_grant : Config → ℕ → Slot → Desk → PeerFlowRx × ℕ → Desk
with_grant cfg epoch s d (l, g) =
    let d' = put_slot (record s { flow = some l }) d in
    if ltb 0 g then grant_on cfg epoch g d' else d'

unfoldable pub return_credit : Config → Frame → Desk → Desk
unfolding with_grant
return_credit cfg f d = elim d.slot [
  | none ↦ d
  | some s ↦ elim s.flow [
    | none ↦ d
    | some l ↦
        let here = with_grant cfg f.epoch s d (unadmitted f.epoch 1 l) in
        let gone = with_grant cfg f.epoch s d (unadmitted_evicted f.epoch 1 l) in
        if not (is_data f) then d else if has f.epoch s.epochs then here else gone
  ]
]

-- A RESET that waits: the OPEN may only be late. `kickSweep` is the sweeper's.
unfoldable pub delay_reset : Config → ℕ → Frame → Desk → Desk
delay_reset cfg now f d =
    let s = slot_of d.slot in
    let r : PendingReset = record {
      due = now + cfg.hold;
      echo = f.epoch;
      peer_echo = f.peer_epoch;
      epoch = f.epoch;
      sid = f.sid;
    } in
    let s' = record s { pending_resets = s.pending_resets ++ (r ∷ []) } in
    if has_pending f.epoch f.sid s.pending_resets
      || leb cfg.limits.max_pending_resets d.pending_reset_total
    then put_slot s d
    else record (put_slot s' d) {
      pending_reset_total = d.pending_reset_total + 1;
      saw_unreliable = true;
    }

abbrev pub stale : Config → ℕ → Frame → Option Container → Bool
stale cfg now f none = false
stale cfg now f (some ps) = leb f.sid (hwm_aged now cfg.tombstone ps.state)

-- A frame of a call that is not here.
unfoldable pub on_unknown : Config → ℕ → Bool → Frame → Option Container → Desk → Desk
on_unknown cfg now rel f ps d =
    if is_open f && f.seq == 1
    then if stale cfg now f ps then send_reset cfg now rel f d else open_call cfg now rel f d
    else if rel
    then send_reset cfg now rel f (return_credit cfg f d)
    else delay_reset cfg now f d

-- A frame of a call that is not live, at a container that is here.
unfoldable pub on_finished :
    Config → ℕ → Bool → Frame → Container → Slot → Option SrvTomb → Desk → Desk
on_finished cfg now rel f ps s (some tb) d =
    (replay cfg now tb (seen now ps) (put_container (seen now ps) s) d).0
on_finished cfg now rel f ps s none d =
    if leb f.sid ps.state.tomb_floor
    then put_slot (put_container (seen now ps) s) d
    else on_unknown cfg now rel f (some ps) d

unfoldable pub on_known :
    Config → ℕ → Bool → Bool → Frame → Container → Slot → Option Live → Desk → Desk
on_known cfg now rel aborted f ps s (some v) d =
    on_call cfg (handle_rx now aborted f) f.sid v ps s d
on_known cfg now rel aborted f ps s none d =
    if shape_of f == flag_window
    then d
    else on_finished cfg now rel f ps s (get f.sid ps.state.tombs) d

unfoldable pub on_frame : Config → ℕ → Bool → Bool → Frame → Option Container → Desk → Desk
on_frame cfg now rel aborted f (some ps) d =
    on_known cfg now rel aborted f ps (slot_of d.slot) (get f.sid ps.calls) d
on_frame cfg now rel aborted f none d =
    if shape_of f == flag_window then d else on_unknown cfg now rel f none d

-- `handle`.
unfoldable pub handle : Config → ℕ → Bool → Bool → Frame → Desk → Desk
handle cfg now rel aborted f d =
    if is_reset f
    then on_reset cfg f d
    else if is_ping f
    then on_ping cfg now rel f d
    else if f.sid == 0 && shape_of f == flag_window
    then on_grant rel f d
    else on_frame cfg now rel aborted f (container_of f.epoch d.slot) d
