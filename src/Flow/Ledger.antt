-- ===== src/Flow/Ledger.antt =====
-- `PeerFlowRx` of ts/src/util.ts: the receiving half of the connection window. Counters saturate at
-- 2 ^ 32 - 1. Keys are client incarnations.
pub mod Bounds
pub mod Credit
pub mod Evicted
use grpc_dgram.Prelude.{
  ℕ, zero, suc, ◌+◌, ◌-◌, ◌*◌, ◌≤◌, ◌<◌, ◌≡◌, Bool, true, false, not, ◌&&◌, ◌||◌, List, [], ◌∷◌,
  Option, none, some, min, ltb, leb, ◌==◌, if◌then◌else◌, length,
}
use grpc_dgram.OrderedMap.{OrderedMap, get, set, delete, has}
use grpc_dgram.Flow.Sender.{SenderState, max_safe_integer}

abbrev pub u32_max : ℕ
u32_max = 0xffff_ffff

pub record PeerFlowRx : Type 0 where
  pub window : ℕ
  pub outstanding : ℕ
  pub pending : OrderedMap ℕ
  pub evicted : OrderedMap SenderState
  pub evict_cap : ℕ

unfoldable pub idle : PeerFlowRx
idle = record { window = 0; outstanding = 0; pending = []; evicted = []; evict_cap = 0 }

unfoldable pub enable : ℕ → ℕ → PeerFlowRx → PeerFlowRx
enable window evict_cap l = record l { window = min window u32_max; evict_cap = evict_cap }

unfoldable pub active : PeerFlowRx → Bool
active l = ltb 0 l.window

unfoldable pub admit : PeerFlowRx → PeerFlowRx × Bool
admit l =
    if l.window == 0
    then (l, true)
    else if leb l.window l.outstanding
    then (l, false)
    else (record l { outstanding = l.outstanding + 1 }, true)

abbrev pub or_zero : Option ℕ → ℕ
or_zero none = 0
or_zero (some n) = n

-- `this.pending.get(epoch) ?? 0`
abbrev pub held : ℕ → PeerFlowRx → ℕ
held epoch l = or_zero (get epoch l.pending)

unfoldable pub hold : ℕ → ℕ → PeerFlowRx → PeerFlowRx
hold epoch n l = record l { pending = set epoch (min (held epoch l + n) u32_max) l.pending }

unfoldable pub due : ℕ → PeerFlowRx → PeerFlowRx × ℕ
due epoch l =
    let pending = held epoch l in
    if pending == 0
    then (l, 0)
    else if ltb (pending * 2) l.window && ltb (l.outstanding + pending) l.window
    then (l, 0)
    else (record l { pending = delete epoch l.pending }, pending)

unfoldable pub retire : ℕ → ℕ → Bool → PeerFlowRx → PeerFlowRx × ℕ
retire epoch n credit l =
    let l' = record l { outstanding = l.outstanding - min n l.outstanding } in
    if l.window == 0 then (l, 0) else if not credit then (l', 0) else due epoch (hold epoch n l')

unfoldable pub unadmitted : ℕ → ℕ → PeerFlowRx → PeerFlowRx × ℕ
unadmitted epoch n l = if l.window == 0 then (l, 0) else due epoch (hold epoch n l)

unfoldable pub unadmitted_evicted : ℕ → ℕ → PeerFlowRx → PeerFlowRx × ℕ
unadmitted_evicted epoch n l =
    if l.window == 0 || not (has epoch l.evicted) then (l, 0) else due epoch (hold epoch n l)

unfoldable pub renew : PeerFlowRx → PeerFlowRx
renew l = record l { pending = [] }

-- `while (this.evicted.size > this.evictCap)`: the oldest entry goes, its held credit with it. Each
-- round removes an entry, so the list itself bounds the rounds.
unfoldable pub trim :
    ℕ → OrderedMap SenderState → OrderedMap ℕ → OrderedMap SenderState × OrderedMap ℕ
trim cap [] pending = ([], pending)
trim cap ((oldest, st) ∷ rest) pending =
    let next = trim cap rest (delete oldest pending) in
    if ltb cap (suc (length rest)) then next else ((oldest, st) ∷ rest, pending)

unfoldable pub stash : ℕ → SenderState → PeerFlowRx → PeerFlowRx
stash epoch st l =
    let (evicted, pending) = trim l.evict_cap (set epoch st l.evicted) l.pending in
    if l.evict_cap == 0
    then record l { pending = delete epoch l.pending }
    else record l { evicted = evicted; pending = pending }

unfoldable pub unstash : ℕ → PeerFlowRx → PeerFlowRx × Option SenderState
unstash epoch l = elim (get epoch l.evicted) [
  | none ↦ (l, none)
  | some st ↦ (record l { evicted = delete epoch l.evicted }, some st)
]

add_credit : ℕ → ℕ → SenderState → PeerFlowRx → PeerFlowRx
add_credit epoch n e l =
    if e.on
    then record l {
      evicted = set epoch (record e { granted = min (e.granted + n) max_safe_integer }) l.evicted;
    }
    else l

unfoldable pub credit_evicted : ℕ → ℕ → PeerFlowRx → PeerFlowRx
unfolding add_credit
credit_evicted epoch n l =
    if n == 0 then l else elim (get epoch l.evicted) [ none ↦ l | some e ↦ add_credit epoch n e l ]
