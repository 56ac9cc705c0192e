-- ===== src/Server/Tombs.antt =====
-- The tombstones of `PeerState` in ts/src/server.ts: the finished calls of one client incarnation.
-- What else a container keeps stands in Server/Table. Times are whole milliseconds.
pub mod Bounds
pub mod Dedup
pub mod Watermark
pub mod Aging
use grpc_dgram.Prelude.{
  ℕ, zero, suc, ◌+◌, ◌-◌, ◌*◌, ◌≤◌, Bool, true, false, ◌&&◌, ◌||◌, List, [], ◌∷◌, ◌++◌, Option,
  none, some, ltb, leb, ◌==◌, if◌then◌else◌, length,
}
use grpc_dgram.OrderedMap.{OrderedMap, get, set, delete, has}
use grpc_dgram.Wire.Flags.{Frame}

pub record SrvTomb : Type 0 where
  pub sid : ℕ
  pub term : Option Frame
  pub size : ℕ
  pub expire_at : ℕ
  pub last_replay : ℕ

pub record HwmCheckpoint : Type 0 where
  pub at : ℕ
  pub hwm : ℕ

pub record PeerState : Type 0 where
  pub hwm : ℕ
  pub cps : List HwmCheckpoint
  pub tombs : OrderedMap SrvTomb
  pub tomb_order : List ℕ
  pub tomb_bytes : ℕ
  pub tomb_floor : ℕ
  pub last_tx : ℕ
  pub reliable : Bool
  pub max_tombs : ℕ
  pub max_tomb_bytes : ℕ

unfoldable pub create : Bool → ℕ → ℕ → ℕ → PeerState
create reliable created_at max_tombs max_tomb_bytes = record {
  hwm = 0;
  cps = [];
  tombs = [];
  tomb_order = [];
  tomb_bytes = 0;
  tomb_floor = 0;
  last_tx = created_at;
  reliable = reliable;
  max_tombs = max_tombs;
  max_tomb_bytes = max_tomb_bytes;
}

-- The loop of `hwmAged`: the last checkpoint that is old enough.
unfoldable pub aged_from : ℕ → ℕ → ℕ → List HwmCheckpoint → ℕ
aged_from now ttl aged [] = aged
aged_from now ttl aged (cp ∷ cps) =
    aged_from now ttl (if leb (cp.at + ttl) now then cp.hwm else aged) cps

unfoldable pub hwm_aged : ℕ → ℕ → PeerState → ℕ
hwm_aged now ttl p = if p.reliable then p.hwm else aged_from now ttl 0 p.cps

-- `term?.payload?.length ?? 0`
unfoldable pub term_size : Option Frame → ℕ
term_size none = 0
term_size (some f) = elim f.payload [ none ↦ 0 | some bytes ↦ length bytes ]

-- The tombstone loses its stored frame and keeps its key.
key_only : ℕ → SrvTomb → PeerState → PeerState
key_only sid tb p = elim tb.term [
  | none ↦ p
  | some term ↦ record p {
    tombs = set sid (record tb { term = none; size = 0 }) p.tombs;
    tomb_bytes = p.tomb_bytes - tb.size;
  }
]

unfoldable pub degrade_one : ℕ → PeerState → PeerState
unfolding key_only
degrade_one sid p = elim (get sid p.tombs) [ none ↦ p | some tb ↦ key_only sid tb p ]

-- The byte cap's loop over `tombOrder`.
unfoldable pub degrade : List ℕ → PeerState → PeerState
degrade [] p = p
degrade (sid ∷ order) p =
    let rest = degrade order (degrade_one sid p) in
    if ltb p.max_tomb_bytes p.tomb_bytes then rest else p

-- The search for the lowest key; zero stands for "none seen".
unfoldable pub lowest_from : ℕ → OrderedMap SrvTomb → ℕ
lowest_from lowest [] = lowest
lowest_from lowest ((tsid, tb) ∷ tombs) =
    lowest_from (if lowest == 0 || ltb tsid lowest then tsid else lowest) tombs

abbrev pub size_of : Option SrvTomb → ℕ
size_of none = 0
size_of (some tb) = tb.size

unfoldable pub evict_lowest : PeerState → PeerState
evict_lowest p =
    let lowest = lowest_from 0 p.tombs in
    record p {
      tombs = delete lowest p.tombs;
      tomb_bytes = p.tomb_bytes - size_of (get lowest p.tombs);
      tomb_floor = if ltb p.tomb_floor lowest then lowest else p.tomb_floor;
    }

-- The entry cap's loop. Each round takes one entry away, so as many rounds as entries are enough.
unfoldable pub evict : ℕ → PeerState → PeerState
evict zero p = p
evict (suc rounds) p =
    let rest = evict rounds (evict_lowest p) in if ltb p.max_tombs (length p.tombs) then rest else p

unfoldable pub insert_tomb : ℕ → Option Frame → ℕ → PeerState → PeerState
insert_tomb sid term expire_at p = record p {
  tombs =
      set sid
        (record {
          sid = sid;
          term = term;
          size = term_size term;
          expire_at = expire_at;
          last_replay = 0;
        })
        p.tombs;
  tomb_order = p.tomb_order ++ (sid ∷ []);
  tomb_bytes = p.tomb_bytes + term_size term;
}

unfoldable pub replace_tomb : ℕ → Option Frame → ℕ → SrvTomb → PeerState → PeerState
replace_tomb sid term expire_at old p = record p {
  tombs =
      set sid
        (record old {
          term = term;
          size = term_size term;
          expire_at = if ltb old.expire_at expire_at then expire_at else old.expire_at;
        })
        p.tombs;
  tomb_bytes = p.tomb_bytes + term_size term - old.size;
}

unfoldable pub cap_tombs : PeerState → PeerState
cap_tombs p = let q = degrade p.tomb_order p in evict (length q.tombs) q

unfoldable pub add_tomb : ℕ → Option Frame → ℕ → PeerState → PeerState
add_tomb sid term expire_at p = if leb sid p.tomb_floor then p else elim (get sid p.tombs) [
  | some old ↦ replace_tomb sid term expire_at old p
  | none ↦ cap_tombs (insert_tomb sid term expire_at p)
]

unfoldable pub remove_tomb : ℕ → PeerState → PeerState
remove_tomb sid p = elim (get sid p.tombs) [
  | none ↦ p
  | some tb ↦ record p { tombs = delete sid p.tombs; tomb_bytes = p.tomb_bytes - tb.size }
]

-- The sweep's round over the tombstones: those past their time go, but only at sids that the aged
-- mark covers.
unfoldable pub expire_tombs : ℕ → ℕ → OrderedMap SrvTomb → PeerState → PeerState
expire_tombs now aged [] p = p
expire_tombs now aged ((sid, tb) ∷ tombs) p =
    expire_tombs now aged tombs
      (if ltb tb.expire_at now && leb sid aged then remove_tomb sid p else p)

filter : (ℕ → Bool) → List ℕ → List ℕ
filter keep [] = []
filter keep (x ∷ xs) = if keep x then x ∷ filter keep xs else filter keep xs

unfoldable pub compact : PeerState → PeerState
unfolding filter
compact p =
    if ltb (2 * length p.tombs + 16) (length p.tomb_order)
    then record p { tomb_order = filter (λ sid. has sid p.tombs) p.tomb_order }
    else p

unfoldable pub sweep_tombs : ℕ → ℕ → PeerState → PeerState
sweep_tombs now ttl p = compact (expire_tombs now (hwm_aged now ttl p) p.tombs p)

abbrev pub stored : SrvTomb → Bool
stored tb = elim tb.term [ none ↦ false | some f ↦ true ]

unfoldable pub replay_due : SrvTomb → ℕ → ℕ → Bool
replay_due tb now rti = stored tb && leb (tb.last_replay + rti) now

-- The caller's tombstone is the one the map holds under its sid.
unfoldable pub replay_tomb : SrvTomb → ℕ → ℕ → PeerState → PeerState × Option Frame
replay_tomb tb now rti p =
    if stored tb && leb (tb.last_replay + rti) now
    then (
      record p { tombs = set tb.sid (record tb { last_replay = now }) p.tombs; last_tx = now },
      tb.term,
    )
    else (p, none)
