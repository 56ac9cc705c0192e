-- ===== src/Flow/Both.antt =====
-- `takeBoth`, `tryAcquireBoth` and `acquireBoth` of ts/src/util.ts: one credit of the stream's window
-- and one of the connection's.
use grpc_dgram.Prelude.{
  ℕ, ◌+◌, ◌≡◌, ◌≢◌, ◌⊎◌, Bool, true, false, Option, none, some, arith, if◌then◌else◌,
}
use grpc_dgram.Flow.Sender.{FlowSender, empty, try_acquire, undo, refund}

pub data Short : Type 0 where
  ok stream peer : Short

-- The two senders; `peer` is absent in unreliable mode.
pub record Windows : Type 0 where
  pub stream : FlowSender
  pub peer : Option FlowSender

take_peer : FlowSender → Option FlowSender → Windows × Short
take_peer s none = (record { stream = s; peer = none }, Short.ok)
take_peer s (some p) =
    let (p', got) = try_acquire p in
    if got
    then (record { stream = s; peer = some p' }, Short.ok)
    else (record { stream = (undo s).0; peer = some p }, Short.peer)

unfoldable pub take_both : Windows → Windows × Short
unfolding take_peer
take_both w =
    let (s, got) = try_acquire w.stream in
    let both = take_peer s w.peer in if got then both else (w, Short.stream)

abbrev pub is_ok : Short → Bool
is_ok Short.ok = true
is_ok _ = false

unfoldable pub try_acquire_both : Windows → Windows × Bool
try_acquire_both w = let (w', r) = take_both w in (w', is_ok r)

abbrev pub peer_empty : Option FlowSender → Bool
peer_empty none = false
peer_empty (some p) = empty p

abbrev pub spent : Option FlowSender → ℕ
spent none = 0
spent (some p) = p.sent

abbrev pub holders : Option FlowSender → ℕ
holders none = 0
holders (some p) = 1

-- Both windows had credit, and gave one message of it.
pub record Taken (w w' : Windows) : Type 0 where
  pub stream_open : empty w.stream ≡ false
  pub peer_open : peer_empty w.peer ≡ false
  pub stream_sent : w'.stream.sent ≡ w.stream.sent + 1
  pub stream_granted : w'.stream.granted ≡ w.stream.granted
  pub peer_sent : spent w'.peer ≡ spent w.peer + holders w.peer

-- Neither window has changed its position, and one of them has no credit.
pub record Untouched (w w' : Windows) : Type 0 where
  pub shut : (empty w.stream ≡ true) ⊎ (peer_empty w.peer ≡ true)
  pub stream_same : w'.stream.position ≡ w.stream.position
  pub peer_same : w'.peer ≡ w.peer

-- Both credits are taken, or neither: a send that is short on one window holds nothing of the other.
pub take_both_atomic :
    (w : Windows)
    → (((take_both w).1 ≡ Short.ok) × Taken w (take_both w).0)
      ⊎ (((take_both w).1 ≢ Short.ok) × Untouched w (take_both w).0)
unfolding take_both try_acquire undo refund empty
take_both_atomic w = ground arith
