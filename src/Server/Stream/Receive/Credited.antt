-- ===== src/Server/Stream/Receive/Credited.antt =====
-- Every data frame that a call receives returns one credit of the connection window.
use grpc_dgram.Prelude.{
  ℕ, ◌+◌, ◌≡◌, ◌≢◌, ◌∙◌, refl, inl, inr, Bool, true, false, not, ◌||◌, [], ◌∷◌, Option, none, some,
  ltb, ◌==◌, if◌then◌else◌, arith, Bool-cases,
}
use grpc_dgram.Seq.{RxVerdict, check, take_gap}
use grpc_dgram.Queue.{FrameQueue, try_put, try_take}
use grpc_dgram.Status.{Status, frame_status}
use grpc_dgram.Flow.Receiver.{consumed}
use grpc_dgram.Flow.Sender.{grant, release}
use grpc_dgram.Wire.Flags.{
  frame, Frame, flag_window, has_unknown_flags, legal_shape, shape_of, is_open, is_terminal,
  is_half_close, is_data,
}
use grpc_dgram.Server.Stream.{
  Stream, Call, Event, put_stream, cancel, report, count_drop, note_validated_rx, is_unary,
  transmit,
}
use grpc_dgram.Server.Stream.Credit.{pin, unpin_and_retire, admit_frame}
use grpc_dgram.Server.Stream.Header.{grant_window}
use grpc_dgram.Server.Stream.Books.{
  Balanced, frame_credit, granted_to, granted_to-append, retire_peer-Balanced,
  credit_unbuffered-Balanced, pin-Balanced, unpin_and_retire-Balanced, release_pinned-Balanced,
  admit_frame-Balanced, refused-Balanced,
}
use grpc_dgram.Server.Stream.Receive.{
  handle_rx, deliver, deliver_data, deliver_reliable, enqueue, on_verdict, accepted, report_gap,
  stream_credit, duplicate_open, take_buffered, delivered, finish_stream, taken_out,
  unsupported_flags, stream_overrun, peer_overrun, window_overrun, broken_transport, call_finished,
}

module _ (others : ℕ) where
  -- What does not touch the account.
  cancel-Balanced :
      (loose owed : ℕ) (st : Status) (c : Call)
      → Balanced others loose owed c
      → Balanced others loose owed (cancel st c)
  unfolding cancel
  cancel-Balanced loose owed st c (l, a) = (l, ground (arith, a.books))

  noted-Balanced :
      (loose owed now : ℕ) (c : Call)
      → Balanced others loose owed c
      → Balanced others loose owed (note_validated_rx now c)
  unfolding note_validated_rx
  noted-Balanced loose owed now c (l, a) = (l, ground (arith, a.books))

  report-Balanced :
      (loose owed : ℕ) (e : Event) (c : Call)
      → Balanced others loose owed c
      → Balanced others loose owed (report e c)
  unfolding report
  report-Balanced loose owed e c (l, a) = (l, ground (arith, a.books))

  -- A new stream record with the same fields that the account reads.
  restream-Balanced :
      (loose owed : ℕ) (s : Stream) (c : Call)
      → s.client_epoch ≡ c.stream.client_epoch
      → s.pinned ≡ c.stream.pinned
      → s.reliable ≡ c.stream.reliable
      → s.flow_rx.on ≡ c.stream.flow_rx.on
      → s.sid ≡ c.stream.sid
      → Balanced others loose owed c
      → Balanced others loose owed (put_stream s c)
  restream-Balanced loose owed s c e p r o i (l, a) = (
    l,
    record {
      has_ledger = a.has_ledger;
      reliable = r ∙ a.reliable;
      running = a.running;
      named = rw i a.named;
      active = o ∙ a.active;
      books = rw (e, p) a.books;
    },
  )

  is_active :
      (loose owed : ℕ) (c : Call) → Balanced others loose owed c → c.stream.flow_rx.on ≡ true
  is_active loose owed c (l, a) = a.active

  is_reliable :
      (loose owed : ℕ) (c : Call) → Balanced others loose owed c → c.stream.reliable ≡ true
  is_reliable loose owed c (l, a) = a.reliable

  enqueue-Balanced :
      (owed : ℕ) (aborted : Bool) (f : Frame) (c : Call)
      → Balanced others 0 owed c
      → Balanced others 0 owed (enqueue aborted f c)
  unfolding enqueue
  enqueue-Balanced owed aborted f c b =
      let active = is_active 0 owed c b in
      let q = (try_put f c.stream.rxq).0 in
      let kept =
        restream-Balanced 0 owed (record (c.stream) { rxq = q }) c refl refl refl refl refl b in
      let failed =
        cancel-Balanced 0 owed stream_overrun (unpin_and_retire c)
          (unpin_and_retire-Balanced others owed c b) in
      elim (Bool-cases (try_put f c.stream.rxq).1) [
        | inl e ↦ simp (active, e) kept
        | inr e ↦ simp (active, e) failed
      ]

  deliver_reliable-Balanced :
      (owed : ℕ) (aborted : Bool) (f : Frame) (c : Call)
      → is_data f ≡ true
      → Balanced others 0 owed c
      → Balanced others 0 (owed + 1) (deliver_reliable aborted f c)
  unfolding deliver_reliable
  deliver_reliable-Balanced owed aborted f c d b = elim (Bool-cases (admit_frame c).1) [
    | inl room ↦
        let b1 = admit_frame-Balanced others owed c room b in
        let c1 = (admit_frame c).0 in
        elim (Bool-cases c1.stream.rx_released) [
          | inl released ↦
              let full : (pin c1).1 ≡ false = unfold pin in (rw released refl) in
              let same : (pin c1).0 ≡ c1 = unfold pin in (rw released refl) in
              rw (room, full, same) (retire_peer-Balanced others 1 (owed + 1) c1 b1)
          | inr live ↦
              let was : (pin c1).1 ≡ true = unfold pin in (rw live refl) in
              rw (room, was)
                (enqueue-Balanced (owed + 1) aborted f (pin c1).0
                  (pin-Balanced others (owed + 1) c1 live b1))
        ]
    | inr full ↦
        let c1 = (admit_frame c).0 in
        let b1 = cancel-Balanced 0 owed peer_overrun c1 (refused-Balanced others owed c full b) in
        let b2 = credit_unbuffered-Balanced others 0 owed f (cancel peer_overrun c1) b1 in
        rw full (rw d at b2)
  ]

  no_credit : (owed : ℕ) (f : Frame) → is_data f ≡ false → owed + frame_credit f ≡ owed
  no_credit owed f d = rw d (omega arith)

  one_credit : (owed : ℕ) (f : Frame) → is_data f ≡ true → owed + frame_credit f ≡ owed + 1
  one_credit owed f d = rw d

  terminal_no_data : (f : Frame) → is_terminal f ≡ true → is_data f ≡ false
  unfolding is_terminal is_data shape_of
  terminal_no_data f t = ground arith

  half_close_no_data : (f : Frame) → is_half_close f ≡ true → is_data f ≡ false
  unfolding is_half_close is_data shape_of
  half_close_no_data f t = ground arith

  deliver_data-Balanced :
      (owed : ℕ) (aborted : Bool) (f : Frame) (c : Call)
      → is_data f ≡ true
      → Balanced others 0 owed c
      → Balanced others 0 (owed + 1) (deliver_data aborted f c)
  unfolding deliver_data
  deliver_data-Balanced owed aborted f c d b =
      let streaming = c.stream.shape.client_streams in
      let dropped_ =
        restream-Balanced 0 owed (record (c.stream) { rx_dropped = c.stream.rx_dropped + 1 }) c refl
          refl refl refl refl b in
      let off_shape = credit_unbuffered-Balanced others 0 owed f (count_drop c) dropped_ in
      let rel = is_reliable 0 owed c b in
      elim (Bool-cases (is_unary c.stream.shape || not streaming)) [
        | inl u ↦ simp u (rw (one_credit owed f d) at off_shape)
        | inr u ↦ simp (u, rel) (deliver_reliable-Balanced owed aborted f c d b)
      ]

  deliver-Balanced :
      (owed : ℕ) (aborted : Bool) (f : Frame) (c : Call)
      → Balanced others 0 owed c
      → Balanced others 0 (owed + frame_credit f) (deliver aborted f c)
  unfolding deliver
  deliver-Balanced owed aborted f c b =
      let terminal = cancel-Balanced 0 owed (frame_status f) c b in
      let closed =
        restream-Balanced 0 owed (record (c.stream) { rx_eof = true }) c refl refl refl refl refl
          b in
      let dropped_ =
        restream-Balanced 0 owed (record (c.stream) { rx_dropped = c.stream.rx_dropped + 1 }) c refl
          refl refl refl refl b in
      elim (Bool-cases (is_terminal f)) [
        | inl t ↦ rw (t, no_credit owed f (terminal_no_data f t)) terminal
        | inr t ↦ elim (Bool-cases (is_half_close f)) [
          | inl h ↦ rw (t, h, no_credit owed f (half_close_no_data f h)) closed
          | inr h ↦ elim (Bool-cases (is_data f)) [
            | inl d ↦ rw (t, h, one_credit owed f d, d) (deliver_data-Balanced owed aborted f c d b)
            | inr d ↦ rw (t, h, no_credit owed f d, d) dropped_
          ]
        ]
      ]

  on_verdict-Balanced :
      (owed now : ℕ) (aborted : Bool) (f : Frame) (v : RxVerdict) (c : Call)
      → Balanced others 0 owed c
      → Balanced others 0 (owed + frame_credit f) (on_verdict now aborted f v c)
  unfolding on_verdict accepted report_gap
  on_verdict-Balanced owed now aborted f RxVerdict.accept c b =
      let w = (take_gap c.stream.rx_win).0 in
      let gap = (take_gap c.stream.rx_win).1 in
      let b1 =
        restream-Balanced 0 owed (record (c.stream) { rx_win = w }) c refl refl refl refl refl b in
      let c1 = put_stream (record (c.stream) { rx_win = w }) c in
      let b2 : Balanced others 0 owed (report_gap gap c1) =
        elim (ltb 0 gap)
          as (λ x. Balanced others 0 owed (if x then report (Event.skipped gap) c1 else c1)) [
            | true ↦ report-Balanced 0 owed (Event.skipped gap) c1 b1
            | false ↦ b1
          ] in
      deliver-Balanced owed aborted f _ (noted-Balanced 0 owed now _ b2)
  on_verdict-Balanced owed now aborted f RxVerdict.dup c b =
      noted-Balanced 0 _ now _ (credit_unbuffered-Balanced others 0 owed f c b)
  on_verdict-Balanced owed now aborted f RxVerdict.beyond c b =
      credit_unbuffered-Balanced others 0 owed f c b
  on_verdict-Balanced owed now aborted f RxVerdict.data_loss c b =
      cancel-Balanced 0 _ window_overrun _
        (report-Balanced 0 _ Event.data_loss _ (credit_unbuffered-Balanced others 0 owed f c b))
  on_verdict-Balanced owed now aborted f RxVerdict.protocol_error c b =
      cancel-Balanced 0 _ broken_transport _ (credit_unbuffered-Balanced others 0 owed f c b)

  is_open_no_data : (f : Frame) → is_open f ≡ true → is_data f ≡ false
  unfolding is_open is_data shape_of
  is_open_no_data f t = ground arith

  window_no_data : (f : Frame) → (shape_of f == flag_window) ≡ true → is_data f ≡ false
  unfolding is_data
  window_no_data f t = ground arith

  duplicate_open-Balanced :
      (owed now : ℕ) (f : Frame) (c : Call)
      → Balanced others 0 owed c
      → Balanced others 0 owed (duplicate_open now f c)
  unfolding duplicate_open
  duplicate_open-Balanced owed now f c b =
      let dropped_ =
        restream-Balanced 0 owed (record (c.stream) { rx_dropped = c.stream.rx_dropped + 1 }) c refl
          refl refl refl refl b in
      let broken = cancel-Balanced 0 owed broken_transport c b in
      let rel = is_reliable 0 owed c b in
      elim (Bool-cases (f.seq == 1)) [
        | inl one ↦ simp (one, rel) broken
        | inr other ↦ simp other dropped_
      ]

  -- Receiving a frame owes one credit more if it is a data frame, whatever becomes of it.
  pub handle_rx-Balanced :
      (owed now : ℕ) (aborted : Bool) (f : Frame) (c : Call)
      → Balanced others 0 owed c
      → Balanced others 0 (owed + frame_credit f) (handle_rx now aborted f c)
  unfolding handle_rx
  handle_rx-Balanced owed now aborted f c b =
      let w = (check c.stream.rx_win f.seq).0 in
      let refused =
        credit_unbuffered-Balanced others 0 owed f _
          (cancel-Balanced 0 owed unsupported_flags c b) in
      let granted_ : Balanced others 0 owed (stream_credit f c) =
        elim (c.stream.reliable)
          as (λ x. Balanced others 0 owed (
            if x
            then put_stream (record (c.stream) { flow_tx = grant f.window c.stream.flow_tx }) c
            else c)) [
              | true ↦
                  restream-Balanced 0 owed
                    (record (c.stream) { flow_tx = grant f.window c.stream.flow_tx }) c refl refl
                    refl refl refl b
              | false ↦ b
            ] in
      let b1 =
        restream-Balanced 0 owed (record (c.stream) { rx_win = w }) c refl refl refl refl refl b in
      elim (Bool-cases (has_unknown_flags f || not (legal_shape (shape_of f)))) [
        | inl bad ↦ simp bad refused
        | inr fine ↦ elim (Bool-cases (shape_of f == flag_window)) [
          | inl window_ ↦
              simp (fine, window_) (rw (no_credit owed f (window_no_data f window_)) granted_)
          | inr other ↦ elim (Bool-cases (is_open f)) [
            | inl again ↦
                simp (fine, other, again)
                  (rw (no_credit owed f (is_open_no_data f again))
                    (duplicate_open-Balanced owed now f c b))
            | inr sequenced ↦
                simp (fine, other, sequenced)
                  (on_verdict-Balanced owed now aborted f (check c.stream.rx_win f.seq).1 _ b1)
          ]
        ]
      ]

  taken_out-Balanced :
      (owed : ℕ) (c : Call) (r : FrameQueue Frame × Option Frame)
      → Balanced others 0 owed c
      → Balanced others 0 owed (taken_out c r).0
  unfolding taken_out
  taken_out-Balanced owed c (q, none) b = b
  taken_out-Balanced owed c (q, some f) b =
      let b1 =
        restream-Balanced 0 owed (record (c.stream) { rxq = q }) c refl refl refl refl refl b in
      elim (is_open f)
        as (λ x. Balanced others 0 owed (
          if x
          then put_stream (record (c.stream) { rxq = q }) c
          else unpin_and_retire (put_stream (record (c.stream) { rxq = q }) c))) [
            | true ↦ b1
            | false ↦ unpin_and_retire-Balanced others owed _ b1
          ]

  pub take_buffered-Balanced :
      (owed : ℕ) (c : Call) → Balanced others 0 owed c → Balanced others 0 owed (take_buffered c).0
  unfolding take_buffered
  take_buffered-Balanced owed c b = taken_out-Balanced owed c (try_take c.stream.rxq) b

  -- The stream's own grants are not the connection's.
  stream_grant :
      (e sid server g : ℕ)
      → sid ≢ 0
      → granted_to e (
          record frame {
            epoch = server;
            sid = sid;
            peer_epoch = e;
            flags = flag_window;
            window = g;
          }
          ∷ [])
        ≡ 0
  unfolding granted_to
  stream_grant e sid server g h = ground arith

  pub delivered-Balanced :
      (owed now : ℕ) (ok : Bool) (c : Call)
      → Balanced others 0 owed c
      → Balanced others 0 owed (delivered now ok c)
  unfolding delivered grant_window transmit consumed
  delivered-Balanced owed now ok c (l, a) =
      let e = c.stream.client_epoch in
      let g = (consumed 1 c.stream.flow_rx).1 in
      let sent = granted_to-append e c.host.sent (record frame {
        epoch = c.host.server_epoch;
        sid = c.stream.sid;
        peer_epoch = e;
        flags = flag_window;
        window = g;
      }) in
      (l, ground (arith, a.books, sent, stream_grant e c.stream.sid c.host.server_epoch g a.named))

  pub finish_stream-Balanced :
      (owed : ℕ) (c : Call) → Balanced others 0 owed c → Balanced others 0 owed (finish_stream c)
  unfolding finish_stream
  finish_stream-Balanced owed c b = cancel-Balanced 0 owed call_finished _ (
      release_pinned-Balanced others owed _ (
        restream-Balanced 0 owed (record (c.stream) { flow_tx = release c.stream.flow_tx }) c refl
          refl refl refl refl b))
