-- ===== src/Server/Stream/Send/Refusal.antt =====
-- A send of ts/src/server.ts: the credit of both windows, and what is taken back when it fails.
use grpc_dgram.Prelude.{
  ℕ, ◌+◌, ◌<◌, ◌≡◌, ◌≢◌, refl, ◌⊎◌, inl, inr, Bool, true, false, List, [], ◌∷◌, ◌++◌, Option, none,
  some, if◌then◌else◌, arith, u32_mod, Bool-cases, append-nil,
}
use grpc_dgram.Status.{Status, Try, returns}
use grpc_dgram.Status
use grpc_dgram.Seq.{next, undo}
use grpc_dgram.Flow.Sender.{FlowSender, SenderState, try_acquire, empty, refund, parked}
use grpc_dgram.Flow.Sender
use grpc_dgram.Flow.Both.{try_acquire_both, take_both}
use grpc_dgram.Flow.Acquire.{round, Wake}
use grpc_dgram.Compression.{WirePayload}
use grpc_dgram.Wire.Flags.{Frame, is_data, shape_of}
use grpc_dgram.Server.Stream.{Call, is_ended, report, send_out, feed_clocks}
use grpc_dgram.Server.Stream.Header.{
  Answer, taken, too_large, failed, Outcome, done, throws, next_frame, attach_header,
  transmit_or_throw, undo_credit, undo_refused, too_large_status,
}
use grpc_dgram.Server.Stream.Send.{
  abort_cause, Sending, encodes, windows, put_windows, send_begins, acquire_round, send_wakes,
  send_encoded, data_frame, transmit_data,
}

-- The credit that the calls of the peer spent on the connection window, where there is one.
unfoldable pub peer_spent : Call → ℕ
peer_spent c = if c.stream.reliable then c.host.conn_tx.sent else 0

-- The send that went from `c` to `r` holds one credit of each window, or none.
unfoldable pub Holds : Call → Call × Sending → Type 0
Holds c (c', s) =
    ((s ≡ encodes)
      × (c'.stream.flow_tx.sent ≡ c.stream.flow_tx.sent + 1)
      × (peer_spent c' ≡ peer_spent c + (if c.stream.reliable then 1 else 0)))
    ⊎ ((s ≢ encodes)
        × (c'.stream.flow_tx.sent ≡ c.stream.flow_tx.sent)
        × (peer_spent c' ≡ peer_spent c))

acquire_round-Holds : (id : ℕ) (st : Option Bool) (c : Call) → Holds c (acquire_round id st c)
unfolding Holds acquire_round peer_spent round take_both try_acquire windows put_windows refund
    report parked Sender.undo
acquire_round-Holds id none c = ground arith
acquire_round-Holds id (some b) c = ground arith

-- Where a send has got to before its first await: it holds one credit of each window, or it holds none.
pub send_begins-Holds : (id : ℕ) (raw : Try (List ℕ)) (c : Call) → Holds c (send_begins id raw c)
unfolding send_begins peer_spent Holds windows put_windows try_acquire_both take_both try_acquire
    refund Sender.undo
send_begins-Holds id (Status.throws st) c = ground arith
send_begins-Holds id (returns raw) c = ground (arith, acquire_round-Holds id none c)

-- A send that is woken, by a grant or by what ends its wait, holds one credit of each window or none.
pub send_wakes-Holds :
    (id : ℕ) (st : Option Bool) (peer : Bool) (why : Wake) (c : Call)
    → Holds c (send_wakes id st peer why c)
unfolding send_wakes Holds peer_spent report
send_wakes-Holds id st peer Wake.granted c = acquire_round-Holds id st c
send_wakes-Holds id st true Wake.stalled c = ground arith
send_wakes-Holds id st false Wake.stalled c = ground arith
send_wakes-Holds id st peer Wake.ended c = ground arith
send_wakes-Holds id st peer Wake.aborted c = ground arith

-- The frame of a message has its number and its credit.
unfoldable pub Spent : WirePayload → Call → Call → Frame → Type 0
Spent enc c c' f =
    (f.seq ≡ c.stream.tx_seq.v + 1)
    × (f.sid ≡ c.stream.sid)
    × (f.payload ≡ some enc.bytes)
    × (f.flags ≡ (if enc.compressed then 32 else 0))
    × (c'.stream.tx_seq.v ≡ f.seq)
    × (c'.stream.flow_tx.sent ≡ c.stream.flow_tx.sent)
    × (peer_spent c' ≡ peer_spent c)

-- Nothing is sent, no number is used up, and one credit of each window is back.
unfoldable pub Undone : Call → Call → Type 0
Undone c c' =
    (c'.host.sent ≡ c.host.sent)
    × (c'.stream.tx_seq ≡ c.stream.tx_seq)
    × (c'.stream.flow_tx.sent + 1 ≡ c.stream.flow_tx.sent)
    × (peer_spent c' + (if c.stream.reliable then 1 else 0) ≡ peer_spent c)

-- The frame goes out, or it may have gone out.
abbrev went_out : Bool → Frame → List Frame
went_out out f = if out then f ∷ [] else []

went_out-send_out :
    (out : Bool) (f : Frame) (c : Call) (sent : List Frame)
    → c.host.sent ≡ sent
    → (if out then send_out f c else c).host.sent ≡ sent ++ went_out out f
went_out-send_out true f c sent h = rw h refl
went_out-send_out false f c sent h = rw (append-nil, h) refl

Answer-cases :
    (a : Answer)
    → (a ≡ taken) ⊎ (a ≡ too_large) ⊎ ((out : Bool) × (st : Status) × (a ≡ failed out st))
Answer-cases taken = inl refl
Answer-cases too_large = inr (inl refl)
Answer-cases (failed out st) = inr (inr (out, st, refl))

-- The frame of a message and the call it leaves.
data_frame_lem :
    (enc : WirePayload) (c : Call)
    → c.stream.tx_seq.v + 1 < u32_mod
    → ((data_frame enc c).0.host ≡ c.host)
      × ((data_frame enc c).0.stream.flow_tx ≡ c.stream.flow_tx)
      × ((data_frame enc c).0.stream.reliable ≡ c.stream.reliable)
      × ((data_frame enc c).0.stream.tx_seq.v ≡ c.stream.tx_seq.v + 1)
      × ((data_frame enc c).1.seq ≡ c.stream.tx_seq.v + 1)
      × ((data_frame enc c).1.sid ≡ c.stream.sid)
      × ((data_frame enc c).1.payload ≡ some enc.bytes)
      × ((data_frame enc c).1.flags ≡ (if enc.compressed then 32 else 0))
unfolding data_frame next_frame attach_header next
data_frame_lem enc c small = ground arith

refused_lem :
    (f : Frame) (v : ℕ) (c : Call)
    → is_data f ≡ true
    → f.seq ≡ v + 1
    → c.stream.tx_seq.v ≡ v + 1
    → v + 1 < u32_mod
    → 0 < c.stream.flow_tx.sent
    → (c.stream.reliable ≡ true → 0 < c.host.conn_tx.sent)
    → ((undo_refused f c).host.sent ≡ c.host.sent)
      × ((undo_refused f c).stream.tx_seq.v ≡ v)
      × ((undo_refused f c).stream.flow_tx.sent + 1 ≡ c.stream.flow_tx.sent)
      × (peer_spent (undo_refused f c) + (if c.stream.reliable then 1 else 0) ≡ peer_spent c)
unfolding undo_refused undo_credit peer_spent undo refund Sender.undo
refused_lem f v c d s n small h h' = ground (arith, h')

is_data_lem :
    (f : Frame) (b : Bool) (bs : List ℕ)
    → f.flags ≡ (if b then 32 else 0)
    → f.payload ≡ some bs
    → is_data f ≡ true
unfolding is_data shape_of
is_data_lem f b bs h p = ground arith

-- Why a send throws with nothing used up: the message has no encoding, the call has ended, or the
-- adapter refused the frame for its size.
abbrev pub Refusal : (Frame → Answer) → Try WirePayload → Call → Type 0
Refusal ask enc c =
    ((st : Status) × (enc ≡ Status.throws st))
    ⊎ (is_ended c ≡ true)
    ⊎ ((p : WirePayload) × (enc ≡ returns p) × (ask (data_frame p c).1 ≡ too_large))

-- What a send that had its credit came to.
unfoldable pub Exact : (Frame → Answer) → Try WirePayload → Call → Call × Outcome → Type 0
Exact ask enc c (c', o) =
    ((p : WirePayload) × (enc ≡ returns p)
      × (ask (data_frame p c).1 ≡ taken)
      × (o ≡ done)
      × (c'.host.sent ≡ c.host.sent ++ ((data_frame p c).1 ∷ []))
      × Spent p c c' (data_frame p c).1)
    ⊎ ((o ≢ done) × Refusal ask enc c × Undone c c')
    ⊎ ((p : WirePayload) × (out : Bool) × (st : Status) × (enc ≡ returns p)
        × (ask (data_frame p c).1 ≡ failed out st)
        × (o ≡ throws st)
        × (c'.host.sent ≡ c.host.sent ++ went_out out (data_frame p c).1)
        × Spent p c c' (data_frame p c).1)

transmit_taken :
    (now : ℕ) (ask : Frame → Answer) (c : Call) (f : Frame)
    → ask f ≡ taken
    → transmit_data now ask (c, f) ≡ (send_out f (feed_clocks now c), done)
unfolding transmit_data transmit_or_throw
transmit_taken now ask c f h = rw (h, transmit_or_throw) refl

transmit_refused :
    (now : ℕ) (ask : Frame → Answer) (c : Call) (f : Frame)
    → ask f ≡ too_large
    → transmit_data now ask (c, f) ≡ (undo_refused f (feed_clocks now c), throws too_large_status)
unfolding transmit_data transmit_or_throw
transmit_refused now ask c f h = rw (h, transmit_or_throw) refl

transmit_failed :
    (now : ℕ) (ask : Frame → Answer) (c : Call) (f : Frame) (out : Bool) (st : Status)
    → ask f ≡ failed out st
    → transmit_data now ask (c, f)
      ≡ ((if out then send_out f (feed_clocks now c) else feed_clocks now c), throws st)
unfolding transmit_data transmit_or_throw
transmit_failed now ask c f out st h = rw (h, transmit_or_throw) refl

transmit_data-Exact :
    (now : ℕ) (ask : Frame → Answer) (enc : WirePayload) (c : Call)
    → 0 < c.stream.flow_tx.sent
    → (c.stream.reliable ≡ true → 0 < c.host.conn_tx.sent)
    → c.stream.tx_seq.v + 1 < u32_mod
    → Exact ask (returns enc) c (transmit_data now ask (data_frame enc c))
unfolding Exact
transmit_data-Exact now ask enc c h h' small =
    let f = (data_frame enc c).1 in
    let c1 = (data_frame enc c).0 in
    let d = data_frame_lem enc c small in
    elim (Answer-cases (ask f)) [
      | inl t ↦ rw (transmit_taken now ask c1 f t) (
          inl (enc, refl, t, refl, ground (arith, d), unfold Spent peer_spent in ground (arith, d)))
      | inr (inl t) ↦
          let data_ =
            is_data_lem f enc.compressed enc.bytes (ground (arith, d)) (ground (arith, d)) in
          let r =
            refused_lem f c.stream.tx_seq.v (feed_clocks now c1) data_ (ground (arith, d))
              (ground (arith, d)) small (ground (arith, d)) (ground (arith, d, h')) in
          rw (transmit_refused now ask c1 f t) (
            inr (
              inl (
                ground arith,
                inr (inr (enc, refl, t)),
                unfold Undone peer_spent in ground (arith, d, r),
              )))
      | inr (inr (out, st, t)) ↦ rw (transmit_failed now ask c1 f out st t) (
          inr (
            inr (
              enc,
              out,
              st,
              refl,
              t,
              refl,
              went_out-send_out out f (feed_clocks now c1) c.host.sent (ground (arith, d)),
              unfold Spent peer_spent in ground (arith, d),
            )))
    ]

-- Giving the credit back before a number is taken.
undo_credit-Exact :
    (ask : Frame → Answer) (enc : Try WirePayload) (st : Status) (c : Call)
    → Refusal ask enc c
    → 0 < c.stream.flow_tx.sent
    → (c.stream.reliable ≡ true → 0 < c.host.conn_tx.sent)
    → Exact ask enc c (undo_credit c, throws st)
unfolding Exact Undone peer_spent undo_credit refund Sender.undo
undo_credit-Exact ask enc st c why h h' = inr (inl (ground arith, why, ground (arith, h')))

-- A send that holds one credit of each window, before its numbers are used up: if it returns, exactly one
-- frame with the next number and the message went out, and the credit is spent. If it throws because
-- the message has no encoding, the call has ended or the adapter refused the frame for its size, nothing
-- went out, no number is used up and both credits are back. If the adapter failed in another way, that
-- failure is thrown, and the number and the credit stay used up, whether the frame went out or not.
pub send_encoded-Exact :
    (now : ℕ) (ask : Frame → Answer) (enc : Try WirePayload) (c : Call)
    → 0 < c.stream.flow_tx.sent
    → (c.stream.reliable ≡ true → 0 < c.host.conn_tx.sent)
    → c.stream.tx_seq.v + 1 < u32_mod
    → Exact ask enc c (send_encoded now ask enc c)
unfolding send_encoded
send_encoded-Exact now ask (Status.throws st) c h h' small =
    undo_credit-Exact ask (Status.throws st) st c (inl (st, refl)) h h'
send_encoded-Exact now ask (returns enc) c h h' small = elim (Bool-cases (is_ended c)) [
  | inl e ↦
      rw e (undo_credit-Exact ask (returns enc) (abort_cause c.stream.ended) c (inr (inl e)) h h')
  | inr e ↦ rw e (transmit_data-Exact now ask enc c h h' small)
]
