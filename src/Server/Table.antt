-- ===== src/Server/Table.antt =====
-- What `Server` of ts/src/server.ts keeps for one transport peer: `PeerSlot`, with a container
-- (`PeerState`) for each incarnation of the client, and in it the live calls. A budget in nanoseconds is
-- rounded up to whole milliseconds.
pub mod Call
pub mod Counted
use grpc_dgram.Prelude.{
  ℕ, ◌+◌, ◌-◌, Bool, true, false, not, ◌&&◌, ◌||◌, List, [], ◌∷◌, ◌++◌, Option, none, some, ltb,
  leb, ◌==◌, if◌then◌else◌, length,
}
use grpc_dgram.OrderedMap.{OrderedMap, get, set, delete, has}
use grpc_dgram.Config.Limits.{ResolvedLimits, ResolvedRxConfig}
use grpc_dgram.Flow.Sender.{FlowSender, fresh, observe, restore, state}
use grpc_dgram.Flow.Ledger.{PeerFlowRx, enable, idle, stash, unstash}
use grpc_dgram.Wire.Text.{Text}
use grpc_dgram.Wire.Flags.{Frame, frame, flag_window, reset_for}
use grpc_dgram.Wire.MetadataCodec.{Metadata}
use grpc_dgram.Server.Tombs.{PeerState}
use grpc_dgram.Server.Tombs
use grpc_dgram.Server.Replies.{ReplyBudget, Budgets, allow_reply}
use grpc_dgram.Server.Resets.{ResetAt, Resets}
use grpc_dgram.Server.Resets
use grpc_dgram.Server.Stream.{Stream, Shape, Event}

-- A call in the table. Its signal's timer is set for `deadline_at`.
pub record Live : Type 0 where
  pub stream : Stream
  pub deadline_at : Option ℕ
  pub metadata : Option Metadata

pub record Container : Type 0 where
  pub epoch : ℕ
  pub state : PeerState
  pub dead : Bool
  pub calls : OrderedMap Live
  pub live_calls : ℕ
  pub conn_tx : FlowSender
  pub last_rx : ℕ
  pub last_ping : ℕ
  pub created_at : ℕ

pub record PendingReset : Type 0 where
  pub due : ℕ
  pub echo : ℕ
  pub peer_echo : ℕ
  pub epoch : ℕ
  pub sid : ℕ

pub record Slot : Type 0 where
  pub epochs : OrderedMap Container
  pub live_calls : ℕ
  pub reply_budget : Option ReplyBudget
  pub reset_at : ResetAt
  pub pending_resets : List PendingReset
  pub flow : Option PeerFlowRx

-- The server's settings. A method that is registered has a shape and a receive buffer; a named codec or
-- compressor is registered or not.
pub record Config : Type 0 where
  pub epoch : ℕ
  pub limits : ResolvedLimits
  pub retransmit : ℕ
  pub hold : ℕ
  pub tombstone : ℕ
  pub liveness : ℕ
  pub probe : ℕ
  pub max_handler_timeout : ℕ
  pub services : Text → Option (Shape × ResolvedRxConfig)
  pub codecs : Text → Bool
  pub compressors : Text → Bool

pub data PeerEvent : Type 0 where
  reset_received reset_sent tombstone_replay liveness_expired keepalive_sent : PeerEvent

-- The peer's slot with what all peers share. `sent` is what was handed to the adapter for this peer,
-- `started` the handlers that were started, by incarnation and sid; both in order.
pub record Desk : Type 0 where
  pub slot : Option Slot
  pub pending_reset_total : ℕ
  pub reset_at_total : ℕ
  pub reply_budget_total : ℕ
  pub drain : Bool
  pub closed : Bool
  pub live_tasks : ℕ
  pub saw_unreliable : Bool
  pub sent : List Frame
  pub started : List (ℕ × ℕ)
  pub events : List (PeerEvent × ℕ)
  pub stream_events : List Event

abbrev pub new_slot : Slot
new_slot = record {
  epochs = [];
  live_calls = 0;
  reply_budget = none;
  reset_at = [];
  pending_resets = [];
  flow = none;
}

-- `ensureSlot`, and what the lookup without it finds.
unfoldable pub slot_of : Option Slot → Slot
slot_of none = new_slot
slot_of (some s) = s

abbrev pub put_slot : Slot → Desk → Desk
put_slot s d = record d { slot = some s }

abbrev pub put_container : Container → Slot → Slot
put_container ps s = record s { epochs = set ps.epoch ps s.epochs }

unfoldable pub container_of : ℕ → Option Slot → Option Container
container_of epoch none = none
container_of epoch (some s) = get epoch s.epochs

abbrev pub post : Frame → Desk → Desk
post f d = record d { sent = d.sent ++ (f ∷ []) }

abbrev pub note : PeerEvent → ℕ → Desk → Desk
note e sid d = record d { events = d.events ++ ((e, sid) ∷ []) }

unfoldable pub new_flow : Config → Option PeerFlowRx → PeerFlowRx
new_flow cfg none = enable cfg.limits.max_peer_window cfg.limits.max_dead_peers idle
new_flow cfg (some l) = l

-- `ensurePeerFlow`.
abbrev pub ensure_flow : Config → Slot → Slot
ensure_flow cfg s = record s { flow = some (new_flow cfg s.flow) }

-- The containers with no live call, in the map's order.
unfoldable pub idle_ones : OrderedMap Container → List Container
idle_ones [] = []
idle_ones ((e, p) ∷ m) = if p.live_calls == 0 then p ∷ idle_ones m else idle_ones m

unfoldable pub oldest_of : Container → List Container → Container
oldest_of o [] = o
oldest_of o (p ∷ ps) = oldest_of (if ltb p.created_at o.created_at then p else o) ps

kept_position : Config → Container → Slot → Slot
kept_position cfg o s =
    if o.state.reliable
    then record s { flow = some (stash o.epoch (state o.conn_tx) (new_flow cfg s.flow)) }
    else s

unfoldable pub evicted : Config → Container → Slot → Slot
unfolding kept_position
evicted cfg o s = let s' = kept_position cfg o s in record s' { epochs = delete o.epoch s'.epochs }

unfoldable pub evict_oldest : Config → List Container → Slot → Slot
evict_oldest cfg [] s = s
evict_oldest cfg (p ∷ ps) s = evicted cfg (oldest_of p ps) s

-- The cap on the containers of this peer with no live call.
unfoldable pub evict_idle : Config → Slot → Slot
evict_idle cfg s =
    let dead = idle_ones s.epochs in
    let s' = evict_oldest cfg dead s in
    if leb cfg.limits.max_dead_peers (length dead) then s' else s

-- The sender position that the ledger held for an incarnation that comes back.
take_position : ℕ → Option PeerFlowRx → Option PeerFlowRx × Option FlowSender
take_position epoch none = (none, none)
take_position epoch (some l) =
    let (l', held) = unstash epoch l in
    (some l', elim held [ none ↦ none | some st ↦ some (restore st fresh) ])

abbrev or_fresh : Option FlowSender → FlowSender
or_fresh none = fresh
or_fresh (some s) = s

unfoldable pub create : Config → ℕ → ℕ → Bool → FlowSender → Container
create cfg epoch now reliable tx = record {
  epoch = epoch;
  state = Tombs.create reliable now cfg.limits.max_tombstones cfg.limits.max_tombstone_bytes;
  dead = false;
  calls = [];
  live_calls = 0;
  conn_tx = tx;
  last_rx = now;
  last_ping = 0;
  created_at = now;
}

add_container : Config → ℕ → ℕ → Bool → Slot → Slot × Container
unfolding take_position
add_container cfg epoch now reliable s =
    let (flow, tx) = if reliable then take_position epoch s.flow else (s.flow, none) in
    let s' = evict_idle cfg (record s { flow = flow }) in
    let ps = create cfg epoch now reliable (or_fresh tx) in (put_container ps s', ps)

-- `ensurePeer`.
unfoldable pub ensure_peer : Config → ℕ → ℕ → Bool → Slot → Slot × Container
unfolding add_container
ensure_peer cfg epoch now reliable s = elim (get epoch s.epochs) [
  | some ps ↦ (s, ps)
  | none ↦ add_container cfg epoch now reliable s
]

-- `observeAdvertisement`, on reliable channels.
abbrev pub observe_advertisement : Bool → Frame → Container → Container
observe_advertisement reliable f ps =
    if reliable then record ps { conn_tx = observe f.conn_window ps.conn_tx } else ps

-- `grantOn`
unfoldable pub grant_on : Config → ℕ → ℕ → Desk → Desk
grant_on cfg epoch n d =
    if d.closed
    then d
    else post
        (record frame { epoch = cfg.epoch; peer_epoch = epoch; flags = flag_window; window = n }) d

abbrev pub budgets_of : Config → Slot → Desk → Budgets
budgets_of cfg s d = record {
  reply_budget = s.reply_budget;
  reply_budget_total = d.reply_budget_total;
  max_pending_resets = cfg.limits.max_pending_resets;
  retransmit = cfg.retransmit;
  max_replies = cfg.limits.max_replies_per_rti;
}

abbrev put_budgets : Budgets → Slot → Desk → Desk
put_budgets b s d = record d {
  slot = some (record s { reply_budget = b.reply_budget });
  reply_budget_total = b.reply_budget_total;
}

-- `allowReply`, for a slot that is there.
unfoldable pub allow : Config → ℕ → Slot → Desk → Desk × Bool
allow cfg now s d = let (b, ok) = allow_reply now (budgets_of cfg s d) in (put_budgets b s d, ok)

resets_of : Config → Slot → Desk → Resets
resets_of cfg s d = record {
  reliable = false;
  reset_at = s.reset_at;
  reset_at_total = d.reset_at_total;
  budgets = budgets_of cfg s d;
}

limited_reset : Frame → Slot → Desk → Resets × Option Frame → Desk
limited_reset f s d (r, answer) =
    let d' = record (put_budgets r.budgets (record s { reset_at = r.reset_at }) d) {
      reset_at_total = r.reset_at_total;
    } in
    elim answer [
      | none ↦ d'
      | some g ↦ post g (note reset_sent f.sid (record d' { saw_unreliable = true }))
    ]

-- `sendReset`: no limit and no slot on a reliable channel.
unfoldable pub send_reset : Config → ℕ → Bool → Frame → Desk → Desk
unfolding limited_reset resets_of
send_reset cfg now reliable f d =
    let s = slot_of d.slot in
    if reliable
    then post (reset_for f) (note reset_sent f.sid d)
    else limited_reset f s d (Resets.send_reset now f (resets_of cfg s d))
