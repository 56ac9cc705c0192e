-- ===== src/Server/Sweep.antt =====
-- `Server.sweep` of ts/src/server.ts for one peer. The
-- sweeper's timer and `hasWork` are not modelled: a sweep comes at any time.
pub mod Retention
use grpc_dgram.Prelude.{
  ℕ, suc, ◌+◌, ◌-◌, ◌*◌, ◌≤◌, Bool, true, false, not, ◌&&◌, ◌||◌, List, [], ◌∷◌, ◌++◌, Option, none,
  some, ltb, leb, ◌==◌, if◌then◌else◌, length,
}
use grpc_dgram.OrderedMap.{OrderedMap, get, set, delete, has}
use grpc_dgram.Status.{Status}
use grpc_dgram.Status.Code
use grpc_dgram.Metadata.Base64.{codes}
use grpc_dgram.Wire.Flags.{Frame, frame, flag_reset, flag_ping}
use grpc_dgram.Server.Tombs.Watermark.{lose_tombs, sweep_state}
use grpc_dgram.Server.Replies.{ReplyBudget}
use grpc_dgram.Server.Resets.{ResetAt}
use grpc_dgram.Server.Stream.{Stream, Event, probe_sent}
use grpc_dgram.Server.Stream.Header.{probe_due}
use grpc_dgram.Server.Table.{
  Config, Desk, Slot, Container, Live, PendingReset, PeerEvent, slot_of, put_slot, post, note,
  allow, reset_sent, liveness_expired, keepalive_sent,
}
use grpc_dgram.Server.Dispatch.{silenced}

abbrev pub peer_lost : Status
peer_lost = record { code = Code.unavailable; desc = codes "peer lost" }

abbrev known_in : ℕ → Option Container → Bool
known_in sid none = false
known_in sid (some ps) = has sid ps.calls || has sid ps.state.tombs

-- One delayed RESET: whether it stays, and the desk.
unfoldable pub fire_one : Config → ℕ → PendingReset → Desk → Desk × Bool
fire_one cfg now r d =
    let s = slot_of d.slot in
    let dropped = record d { pending_reset_total = d.pending_reset_total - 1 } in
    let (d1, ok) = allow cfg now s d in
    let fired = record d1 { pending_reset_total = d1.pending_reset_total - 1 } in
    let answer = record frame {
      flags = flag_reset;
      epoch = r.echo;
      peer_epoch = r.peer_echo;
      sid = r.sid;
    } in
    if ltb now r.due
    then (d, true)
    else if known_in r.sid (get r.epoch s.epochs)
    then (dropped, false)
    else if ok
    then (post answer (note reset_sent r.sid fired), false)
    else (d1, true)

unfoldable pub fire : Config → ℕ → List PendingReset → Desk → Desk × List PendingReset
fire cfg now [] d = (d, [])
fire cfg now (r ∷ rs) d =
    let (d1, stays) = fire_one cfg now r d in
    let (d2, kept) = fire cfg now rs d1 in (d2, (if stays then r ∷ kept else kept))

-- The entries of `resetAt` that are recent enough.
unfoldable pub recent : ℕ → ℕ → ResetAt → ResetAt
recent now ttl [] = []
recent now ttl ((k, at) ∷ m) =
    let rest = recent now ttl m in if ltb (at + ttl) now then rest else (k, at) ∷ rest

abbrev expired_budget : ℕ → ℕ → Option ReplyBudget → Bool
expired_budget now ttl none = false
expired_budget now ttl (some b) = ltb (b.window_start + ttl) now

-- The replies' history is pruned.
unfoldable pub prune : Config → ℕ → Desk → Desk
prune cfg now d =
    let s = slot_of d.slot in
    let kept = recent now cfg.tombstone s.reset_at in
    let over = expired_budget now cfg.tombstone s.reply_budget in
    record (put_slot
      (record s { reset_at = kept; reply_budget = if over then none else s.reply_budget }) d) {
        reset_at_total = d.reset_at_total - (length s.reset_at - length kept);
        reply_budget_total = if over then d.reply_budget_total - 1 else d.reply_budget_total;
      }

unfoldable pub silence_all : Status → OrderedMap Live → OrderedMap Live
silence_all cause [] = []
silence_all cause ((sid, v) ∷ m) = (sid, silenced cause v) ∷ silence_all cause m

-- The peer's incarnation is lost.
unfoldable pub lose : Container → Container
lose ps = record ps {
  dead = true;
  calls = silence_all peer_lost ps.calls;
  state = lose_tombs ps.state;
}

-- Liveness and keepalive of one container.
unfoldable pub check_peer : Config → ℕ → Container → Desk → Container × Desk
check_peer cfg now ps d =
    let ping = record frame { epoch = cfg.epoch; flags = flag_ping; peer_epoch = ps.epoch } in
    let kept = record ps { last_ping = now; state = record (ps.state) { last_tx = now } } in
    if ps.live_calls == 0 || ps.dead
    then (ps, d)
    else if leb (ps.last_rx + cfg.liveness) now
    then (lose ps, note liveness_expired 0 d)
    else if leb (ps.state.last_tx + cfg.probe) now && leb (ps.last_ping + cfg.probe) now
    then (kept, post ping (note keepalive_sent 0 d))
    else (ps, d)

-- A container is given up long after its last activity only, with no call and no tombstone.
unfoldable pub retired : Config → ℕ → Container → Bool
retired cfg now ps =
    ps.live_calls == 0 && (length ps.state.tombs == 0 && ltb (ps.last_rx + 2 * cfg.tombstone) now)

unfoldable pub sweep_container : Config → ℕ → Container → Desk → Container × Desk
sweep_container cfg now ps d =
    if ps.state.reliable
    then (ps, d)
    else check_peer cfg now (record ps { state = sweep_state now cfg.tombstone ps.state }) d

unfoldable pub sweep_containers :
    Config → ℕ → OrderedMap Container → Desk → OrderedMap Container × Desk
sweep_containers cfg now [] d = ([], d)
sweep_containers cfg now ((epoch, ps) ∷ m) d =
    let (ps1, d1) = sweep_container cfg now ps d in
    let (m2, d2) = sweep_containers cfg now m d1 in
    ((if not ps.state.reliable && retired cfg now ps1 then m2 else (epoch, ps1) ∷ m2), d2)

probe_reported : Option Frame → Desk → Desk
probe_reported none d = d
probe_reported (some f) d =
    post f (record d { stream_events = d.stream_events ++ (probe_sent ∷ []) })

abbrev probed : Option Frame → Bool
probed none = false
probed (some f) = true

-- The probes of a container's calls; the flag says whether one was sent.
unfoldable pub probe_calls : Config → ℕ → OrderedMap Live → Desk → OrderedMap Live × (Desk × Bool)
unfolding probe_reported
probe_calls cfg now [] d = ([], (d, false))
probe_calls cfg now ((sid, v) ∷ m) d =
    let (st, f) =
      if v.stream.reliable then (v.stream, none) else probe_due now cfg.probe cfg.epoch v.stream in
    let (m2, (d2, any)) = probe_calls cfg now m (probe_reported f d) in
    ((sid, record v { stream = st }) ∷ m2, (d2, probed f || any))

unfoldable pub probe_containers :
    Config → ℕ → OrderedMap Container → Desk → OrderedMap Container × Desk
probe_containers cfg now [] d = ([], d)
probe_containers cfg now ((epoch, ps) ∷ m) d =
    let (calls, (d1, any)) = probe_calls cfg now ps.calls d in
    let ps1 = record ps {
      calls = calls;
      state = record (ps.state) { last_tx = if any then now else ps.state.last_tx };
    } in
    let (m2, d2) = probe_containers cfg now m d1 in ((epoch, ps1) ∷ m2, d2)

abbrev nil {ℓ} : {A : Type ℓ} → List A → Bool
nil [] = true
nil (x ∷ xs) = false

abbrev absent {ℓ} : {A : Type ℓ} → Option A → Bool
absent none = true
absent (some a) = false

unfoldable pub is_vacant : Slot → Bool
is_vacant s =
    nil s.epochs
    && (s.live_calls == 0
        && (nil s.pending_resets && (nil s.reset_at && (absent s.reply_budget && absent s.flow))))

-- The sweep over a slot that is there.
unfoldable pub sweep_slot : Config → ℕ → Slot → Desk → Desk
sweep_slot cfg now s d =
    let (d1, pending) = fire cfg now s.pending_resets d in
    let d2 = prune cfg now (put_slot (record (slot_of d1.slot) { pending_resets = pending }) d1) in
    let (m3, d3) = sweep_containers cfg now (slot_of d2.slot).epochs d2 in
    let (m4, d4) = probe_containers cfg now m3 d3 in
    let s4 = record (slot_of d4.slot) { epochs = m4 } in
    record d4 { slot = if is_vacant s4 then none else some s4 }

unfoldable pub sweep_at : Config → ℕ → Option Slot → Desk → Desk
sweep_at cfg now none d = d
sweep_at cfg now (some s) d = sweep_slot cfg now s d

abbrev pub sweep : Config → ℕ → Desk → Desk
sweep cfg now d = sweep_at cfg now d.slot d
