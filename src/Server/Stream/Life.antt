-- ===== src/Server/Stream/Life.antt =====
-- A call's receive path from its OPEN to its end, as a sequence of steps: the client gets back every
-- credit of the connection window that its data frames spent.
use grpc_dgram.Prelude.{ℕ, ◌+◌, ◌*◌, ◌<◌, ◌≡◌, refl, ◌⊎◌, Bool, List, [], ◌∷◌, some, arith}
use grpc_dgram.Flow.Ledger.{PeerFlowRx, held}
use grpc_dgram.Wire.Flags.{Frame}
use grpc_dgram.Server.Stream.{Call, cancel, grant_peer}
use grpc_dgram.Server.Stream.Credit.{retire_peer, release_pinned}
use grpc_dgram.Server.Stream.Receive.{handle_rx, take_buffered, delivered, finish_stream}
use grpc_dgram.Server.Stream.Books.{Balanced, frame_credit, granted_to}
use grpc_dgram.Server.Stream.Receive.Credited.{
  handle_rx-Balanced, take_buffered-Balanced, delivered-Balanced, finish_stream-Balanced,
}

-- What happens to a call from the acceptance of its OPEN: frames, reads, decoded messages, its end.
pub data Op : Type 0 where
  receives : ℕ → Bool → Frame → Op
  takes : Op
  decodes : ℕ → Bool → Op
  finishes : Op

unfoldable pub step : Call → Op → Call
step c (receives now aborted f) = handle_rx now aborted f c
step c takes = (take_buffered c).0
step c (decodes now ok) = delivered now ok c
step c finishes = finish_stream c

unfoldable pub steps : Call → List Op → Call
steps c [] = c
steps c (o ∷ os) = steps (step c o) os

-- The data frames among what happened.
unfoldable pub data_frames : List Op → ℕ
data_frames [] = 0
data_frames (receives now aborted f ∷ os) = frame_credit f + data_frames os
data_frames (takes ∷ os) = data_frames os
data_frames (decodes now ok ∷ os) = data_frames os
data_frames (finishes ∷ os) = data_frames os

nothing_more : (n : ℕ) → n + 0 ≡ n
nothing_more n = omega arith

one_after_another : (a b c : ℕ) → a + (b + c) ≡ a + b + c
one_after_another a b c = omega arith

-- No credit is with a frame of the call any more: of the `owed` ones, the ledger holds less than half a
-- window back for the next grant, and the frames sent granted the others.
unfoldable pub Settled : ℕ → ℕ → Call → Type 0
Settled others owed c =
    (l : PeerFlowRx) × (c.host.ledger ≡ some l)
    × (l.outstanding ≡ others)
    × (held c.stream.client_epoch l + granted_to c.stream.client_epoch c.host.sent ≡ owed)
    × ((held c.stream.client_epoch l ≡ 0) ⊎ (held c.stream.client_epoch l * 2 < l.window))

module _ (others : ℕ) where
  -- Every step keeps the account, and a data frame adds one credit to it.
  steps-Balanced :
      (os : List Op) (owed : ℕ) (c : Call)
      → Balanced others 0 owed c
      → Balanced others 0 (owed + data_frames os) (steps c os)
  unfolding steps data_frames step
  steps-Balanced [] owed c b = rw (nothing_more owed) b
  steps-Balanced (receives now aborted f ∷ os) owed c b =
      rw (one_after_another owed (frame_credit f) (data_frames os)) (
        steps-Balanced os (owed + frame_credit f) (handle_rx now aborted f c)
          (handle_rx-Balanced others owed now aborted f c b))
  steps-Balanced (takes ∷ os) owed c b =
      steps-Balanced os owed (take_buffered c).0 (take_buffered-Balanced others owed c b)
  steps-Balanced (decodes now ok ∷ os) owed c b =
      steps-Balanced os owed (delivered now ok c) (delivered-Balanced others owed now ok c b)
  steps-Balanced (finishes ∷ os) owed c b =
      steps-Balanced os owed (finish_stream c) (finish_stream-Balanced others owed c b)

retire_peer_stream : (n : ℕ) (c : Call) → (retire_peer n c).stream ≡ c.stream
unfolding retire_peer grant_peer
retire_peer_stream n c = ground arith

finished_empty : (c : Call) → (finish_stream c).stream.pinned ≡ 0
unfolding finish_stream release_pinned cancel
finished_empty c = simp (retire_peer_stream) refl

-- The steps `os` of a call, its end among them or not, and then its end, on a reliable channel, at a server
-- that runs all the while and whose connection window is at most two thirds of 2^32 - 1: the ledger is charged for the
-- other calls alone, and every credit that the call's data frames spent is granted back or is held for
-- a grant that is not due yet.
pub finish_stream-Settled :
    (others owed : ℕ) (os : List Op) (c : Call)
    → Balanced others 0 owed c
    → Settled others (owed + data_frames os) (finish_stream (steps c os))
unfolding Settled
finish_stream-Settled others owed os c b =
    let e = finished_empty (steps c os) in
    let (l, a) = finish_stream-Balanced others _ _ (steps-Balanced others os owed c b) in
    (
      l,
      a.has_ledger,
      omega (arith, a.books.charged, e),
      omega (arith, a.books.balance, e),
      a.books.small,
    )
