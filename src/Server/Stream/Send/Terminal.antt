-- ===== src/Server/Stream/Send/Terminal.antt =====
-- The terminal frame of ts/src/server.ts on an adapter that refuses frames for their size.
use grpc_dgram.Prelude.{ℕ, ◌≡◌, ◌≢◌, ◌⊎◌, true, false, [], ◌∷◌, ◌++◌, none, some, arith}
use grpc_dgram.Status.{set_frame_error}
use grpc_dgram.Status.Code
use grpc_dgram.Wire.Text.{Text}
use grpc_dgram.Wire.Flags.{Frame, is_terminal, shape_of}
use grpc_dgram.Server.Stream.{Call}
use grpc_dgram.Server.Stream.Header.{
  Answer, taken, too_large, transmit_or_throw, next_frame, advertise,
}
use grpc_dgram.Server.Stream.Send.{
  Ending, fails_with, replies, terminal_frame, try_transmit, transmit_terminal, minimal, last_try,
}

-- What a frame keeps while it is shrunk: its number, its addressee and the metadata that it carries.
unfoldable pub Kept : Frame → Frame → Type 0
Kept f g =
    (g.seq ≡ f.seq)
    × (g.sid ≡ f.sid)
    × (g.epoch ≡ f.epoch)
    × (g.peer_epoch ≡ f.peer_epoch)
    × (g.header ≡ f.header)
    × (g.trailer ≡ f.trailer)
    × (g.conn_window ≡ f.conn_window)

-- From `c` with the frame `f` to `c'` with the frame `f'`: at most one frame went out, and it is `f'`.
unfoldable pub Stored : Frame → Call → Call × Frame → Type 0
Stored f c (c', f') =
    Kept f f'
    × ((c'.host.sent ≡ c.host.sent) ⊎ (c'.host.sent ≡ c.host.sent ++ (f' ∷ [])))
    × (c'.stream.tx_seq ≡ c.stream.tx_seq)

try_transmit_lem :
    (now : ℕ) (ask : Frame → Answer) (f : Frame) (c : Call)
    → ((try_transmit now ask f c).0.stream.tx_seq ≡ c.stream.tx_seq)
      × ((((try_transmit now ask f c).1 ≡ true)
            × ((try_transmit now ask f c).0.host.sent ≡ c.host.sent)
            × (ask f ≡ too_large))
          ⊎ (((try_transmit now ask f c).1 ≡ false)
              × (((try_transmit now ask f c).0.host.sent ≡ c.host.sent ++ (f ∷ []))
                  ⊎ (((try_transmit now ask f c).0.host.sent ≡ c.host.sent) × (ask f ≢ taken)))
              × (ask f ≢ too_large)))
unfolding try_transmit transmit_or_throw
try_transmit_lem now ask f c = ground arith

-- A frame is taken or refused for its size, and one without passengers is taken.
abbrev pub TakesMinimal : (ℕ → Frame → Answer) → Type 0
TakesMinimal ask =
    (i : ℕ) (f : Frame)
    → ((ask i f ≡ taken) ⊎ (ask i f ≡ too_large))
      × (f.payload ≡ none → f.details ≡ [] → ask i f ≡ taken)

-- Whatever the adapter answers: at most one frame goes out, it is the one that is left for the
-- tombstone to replay, it keeps its number, addressee and metadata, and no further number is used up.
pub transmit_terminal-Stored :
    (now : ℕ) (ask : ℕ → Frame → Answer) (text : Text) (f : Frame) (c : Call)
    → Stored f c (transmit_terminal now ask text f c)
unfolding transmit_terminal last_try Stored Kept minimal set_frame_error
transmit_terminal-Stored now ask text f c =
    let g = record f { details = [] } in
    let c1 = (try_transmit now (ask 0) f c).0 in
    let c2 = (try_transmit now (ask 1) g c1).0 in
    ground (
      arith,
      try_transmit_lem now (ask 0) f c,
      try_transmit_lem now (ask 1) g c1,
      try_transmit_lem now (ask 2) (minimal text f) c1,
      try_transmit_lem now (ask 2) (minimal text g) c2,
    )

terminal_frame_terminal : (e : Ending) (c : Call) → is_terminal (terminal_frame e c).1 ≡ true
unfolding terminal_frame is_terminal shape_of next_frame advertise set_frame_error
terminal_frame_terminal (fails_with st details) c = ground arith
terminal_frame_terminal (replies none) c = ground arith
terminal_frame_terminal (replies (some enc)) c = ground arith

shrunk_terminal :
    (now : ℕ) (ask : ℕ → Frame → Answer) (text : Text) (f : Frame) (c : Call)
    → is_terminal f ≡ true
    → is_terminal (transmit_terminal now ask text f c).1 ≡ true
unfolding transmit_terminal last_try minimal set_frame_error is_terminal shape_of
shrunk_terminal now ask text f c h = ground arith

-- However a call ends, what its tombstone stores is a terminal frame.
pub terminal_frame-transmit_terminal :
    (now : ℕ) (ask : ℕ → Frame → Answer) (text : Text) (e : Ending) (c : Call)
    → is_terminal (transmit_terminal now ask text (terminal_frame e c).1 (terminal_frame e c).0).1
      ≡ true
terminal_frame-transmit_terminal now ask text e c =
    shrunk_terminal now ask text (terminal_frame e c).1 (terminal_frame e c).0
      (terminal_frame_terminal e c)
