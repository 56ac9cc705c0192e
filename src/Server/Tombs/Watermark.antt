-- ===== src/Server/Tombs/Watermark.antt =====
-- `PeerState` of ts/src/server.ts through time: its high-water mark and the checkpoints that `sweep`
-- keeps of it, and what happens to one container's tombstones.
use grpc_dgram.Prelude.{
  ℕ, ◌+◌, ◌-◌, List, [], ◌∷◌, ◌++◌, Option, none, some, leb, max, if◌then◌else◌,
}
use grpc_dgram.OrderedMap.{OrderedMap, get}
use grpc_dgram.Wire.Flags.{Frame}
use grpc_dgram.Server.Tombs.{SrvTomb, HwmCheckpoint, PeerState, add_tomb, replay_tomb, sweep_tombs}

abbrev pub raise_hwm : ℕ → PeerState → PeerState
raise_hwm sid p = record p { hwm = max p.hwm sid }

-- `while (cps.length > 1 && now - cps[1].at >= ttl) cps.shift()`
unfoldable pub trim_checkpoints : ℕ → ℕ → List HwmCheckpoint → List HwmCheckpoint
trim_checkpoints now ttl [] = []
trim_checkpoints now ttl (a ∷ []) = a ∷ []
trim_checkpoints now ttl (a ∷ (b ∷ cps)) =
    let rest = trim_checkpoints now ttl (b ∷ cps) in
    if leb (b.at + ttl) now then rest else a ∷ (b ∷ cps)

unfoldable pub checkpoint : ℕ → ℕ → PeerState → PeerState
checkpoint now ttl p = record p {
  cps = trim_checkpoints now ttl (p.cps ++ ((record { at = now; hwm = p.hwm }) ∷ []));
}

unfoldable pub degrade_all : OrderedMap SrvTomb → OrderedMap SrvTomb
degrade_all [] = []
degrade_all ((sid, tb) ∷ m) = (sid, record tb { term = none; size = 0 }) ∷ degrade_all m

unfoldable pub sizes : OrderedMap SrvTomb → ℕ
sizes [] = 0
sizes ((sid, tb) ∷ m) = tb.size + sizes m

-- The tombstones of a peer that is lost.
unfoldable pub lose_tombs : PeerState → PeerState
lose_tombs p = record p { tombs = degrade_all p.tombs; tomb_bytes = p.tomb_bytes - sizes p.tombs }

-- The sweep of one container, up to its liveness check.
unfoldable pub sweep_state : ℕ → ℕ → PeerState → PeerState
sweep_state now ttl p = if p.reliable then p else sweep_tombs now ttl (checkpoint now ttl p)

-- What happens to one container: a call opens, finishes or has its terminal frame asked for again, the
-- sweep comes, the peer is lost.
pub data Op : Type 0 where
  opens : ℕ → Op
  finishes : ℕ → Option Frame → ℕ → Op
  replays : ℕ → ℕ → ℕ → Op
  sweeps : ℕ → Op
  loses : Op

unfoldable pub step : ℕ → PeerState → Op → PeerState
step ttl p (opens sid) = raise_hwm sid p
step ttl p (finishes sid term expire_at) = add_tomb sid term expire_at p
step ttl p (replays sid now rti) = elim (get sid p.tombs) [
  | none ↦ p
  | some tb ↦ (replay_tomb tb now rti p).0
]
step ttl p (sweeps now) = sweep_state now ttl p
step ttl p loses = lose_tombs p

unfoldable pub steps : ℕ → PeerState → List Op → PeerState
steps ttl p [] = p
steps ttl p (o ∷ os) = steps ttl (step ttl p o) os
