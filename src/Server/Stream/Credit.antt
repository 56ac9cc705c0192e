-- ===== src/Server/Stream/Credit.antt =====
-- The connection credit of a call's data frames: pinned while buffered, returned once.
use grpc_dgram.Prelude.{
  ℕ, ◌+◌, ◌-◌, Bool, true, false, not, ◌||◌, Option, none, some, ltb, ◌==◌, if◌then◌else◌,
}
use grpc_dgram.Flow.Ledger.{PeerFlowRx, retire, unadmitted, admit}
use grpc_dgram.Wire.Flags.{Frame, is_data}
use grpc_dgram.Server.Stream.{Call, put_stream, put_host, grant_peer}

-- `if (g > 0) this.server.grantPeer(this.ps, g)`, after the ledger's new state is stored.
grant_due : PeerFlowRx × ℕ → Call → Call
grant_due (l, g) c =
    let c' = put_host (record (c.host) { ledger = some l }) c in
    if ltb 0 g then grant_peer g c' else c'

on_ledger : (PeerFlowRx → PeerFlowRx × ℕ) → Option PeerFlowRx → Call → Call
unfolding grant_due
on_ledger f none c = c
on_ledger f (some l) c = grant_due (f l) c

unfoldable pub retire_peer : ℕ → Call → Call
unfolding on_ledger
retire_peer n c =
    if n == 0 then c else on_ledger (retire c.stream.client_epoch n true) c.host.ledger c

unfoldable pub credit_unbuffered : Frame → Call → Call
unfolding on_ledger
credit_unbuffered f c =
    if not c.stream.reliable || not (is_data f)
    then c
    else on_ledger (unadmitted c.stream.client_epoch 1) c.host.ledger c

unfoldable pub pin : Call → Call × Bool
pin c =
    if c.stream.rx_released
    then (c, false)
    else (put_stream (record (c.stream) { pinned = c.stream.pinned + 1 }) c, true)

unfoldable pub unpin : Call → Call × Bool
unpin c =
    if c.stream.pinned == 0
    then (c, false)
    else (put_stream (record (c.stream) { pinned = c.stream.pinned - 1 }) c, true)

-- `if (this.unpin()) this.retirePeer(1)`
unfoldable pub unpin_and_retire : Call → Call
unpin_and_retire c = let (c', was) = unpin c in if was then retire_peer 1 c' else c'

unfoldable pub release_pinned : Call → Call
release_pinned c =
    retire_peer c.stream.pinned
      (put_stream (record (c.stream) { pinned = 0; rx_released = true }) c)

-- The ledger's answer to one more frame; without a ledger there is no bound.
unfoldable pub admit_frame : Call → Call × Bool
admit_frame c = elim c.host.ledger [
  | none ↦ (c, true)
  | some l ↦ (put_host (record (c.host) { ledger = some (admit l).0 }) c, (admit l).1)
]
