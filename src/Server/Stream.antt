-- ===== src/Server/Stream.antt =====
-- `ServerStream` of ts/src/server.ts: one call at the server, with what it shares with its peer.
pub mod Credit
pub mod Receive
pub mod Header
pub mod Send
pub mod Books
pub mod Life
use grpc_dgram.Prelude.{
  ℕ, ◌+◌, ◌-◌, ◌≤◌, Bool, true, false, not, ◌&&◌, ◌||◌, List, [], ◌∷◌, ◌++◌, Option, none, some,
  ltb, leb, ◌==◌, if◌then◌else◌,
}
use grpc_dgram.Status.{Status}
use grpc_dgram.Seq.{TxSeq, RxWindow}
use grpc_dgram.Seq
use grpc_dgram.Queue.{FrameQueue, DropPolicy}
use grpc_dgram.Queue
use grpc_dgram.Flow.Sender.{FlowSender, fresh}
use grpc_dgram.Flow.Receiver.{FlowReceiver}
use grpc_dgram.Flow.Receiver
use grpc_dgram.Flow.Ledger.{PeerFlowRx}
use grpc_dgram.Wire.Flags.{Frame, frame, flag_window}
use grpc_dgram.Wire.MetadataCodec.{Metadata}
use grpc_dgram.Server.Replies.{Budgets}

-- What ts/src/stats.ts is told of, with the count that goes with it.
pub data Event : Type 0 where
  data_loss flow_stall peer_flow_stall flow_resume peer_flow_resume probe_sent off_shape : Event
  skipped dropped : ℕ → Event

-- The method's shape, `clientStreams` and `serverStreams` of its descriptor.
pub record Shape : Type 0 where
  pub client_streams : Bool
  pub server_streams : Bool

abbrev pub is_unary : Shape → Bool
is_unary d = not d.client_streams && not d.server_streams

-- What the call shares: the container's clocks and connection sender (`ps`), the ledger (`pf`), the
-- reply budget of the slot its peer has now, and the server's settings. `sent` is what was handed to
-- the adapter, in order; `events` what was reported.
pub record Host : Type 0 where
  pub server_epoch : ℕ
  pub closed : Bool
  pub max_peer_window : ℕ
  pub retransmit : ℕ
  pub last_rx : ℕ
  pub last_tx : ℕ
  pub conn_tx : FlowSender
  pub ledger : Option PeerFlowRx
  pub budgets : Option Budgets
  pub sent : List Frame
  pub events : List Event

-- `ended` is the cause that the call's signal was aborted with; the end latch trips with it. `response`
-- is the captured response, set or not.
pub record Stream : Type 0 where
  pub client_epoch : ℕ
  pub sid : ℕ
  pub shape : Shape
  pub reliable : Bool
  pub rx_size : ℕ
  pub rx_policy : DropPolicy
  pub suppress_term : Bool
  pub flow_tx : FlowSender
  pub flow_rx : FlowReceiver
  pub tx_seq : TxSeq
  pub tx_header : Option Metadata
  pub hdr_sent : Bool
  pub hdr_flushed : Bool
  pub hdr_frame : Option Frame
  pub trailer : Option Metadata
  pub response : Option (List ℕ)
  pub last_rx : ℕ
  pub last_tx : ℕ
  pub last_probe : ℕ
  pub h_replay_at : ℕ
  pub rx_win : RxWindow
  pub pinned : ℕ
  pub rx_released : Bool
  pub rxq : FrameQueue Frame
  pub rx_dropped : ℕ
  pub rx_eof : Bool
  pub ended : Option Status

pub record Call : Type 0 where
  pub stream : Stream
  pub host : Host

abbrev pub put_stream : Stream → Call → Call
put_stream s c = record c { stream = s }

abbrev pub put_host : Host → Call → Call
put_host h c = record c { host = h }

-- The constructor. The OPEN was accepted, so the window stands at 1.
unfoldable pub create : ℕ → ℕ → Shape → Bool → ℕ → DropPolicy → ℕ → Stream
create client_epoch sid shape reliable rx_size rx_policy now = record {
  client_epoch = client_epoch;
  sid = sid;
  shape = shape;
  reliable = reliable;
  rx_size = rx_size;
  rx_policy = rx_policy;
  suppress_term = false;
  flow_tx = fresh;
  flow_rx = if reliable then Receiver.enable rx_size Receiver.idle else Receiver.idle;
  tx_seq = record { v = 0 };
  tx_header = none;
  hdr_sent = false;
  hdr_flushed = false;
  hdr_frame = none;
  trailer = none;
  response = none;
  last_rx = now;
  last_tx = now;
  last_probe = 0;
  h_replay_at = 0;
  rx_win = record (Seq.init reliable) { l = 1 };
  pinned = 0;
  rx_released = false;
  rxq = Queue.init rx_size;
  rx_dropped = 0;
  rx_eof = false;
  ended = none;
}

abbrev pub first_cause : Option Status → Status → Option Status
first_cause none cause = some cause
first_cause (some st) cause = some st

-- The first abort wins.
unfoldable pub cancel : Status → Call → Call
cancel cause c = put_stream (record (c.stream) { ended = first_cause c.stream.ended cause }) c

abbrev pub is_ended : Call → Bool
is_ended c = elim c.stream.ended [ none ↦ false | some st ↦ true ]

unfoldable pub report : Event → Call → Call
report e c = put_host (record (c.host) { events = c.host.events ++ (e ∷ []) }) c

abbrev pub count_drop : Call → Call
count_drop c = put_stream (record (c.stream) { rx_dropped = c.stream.rx_dropped + 1 }) c

-- `noteValidatedRx`: both idle clocks.
unfoldable pub note_validated_rx : ℕ → Call → Call
note_validated_rx now c = record {
  stream = record (c.stream) { last_rx = now };
  host = record (c.host) { last_rx = now };
}

-- `Server.send`: the adapter takes the frame; what becomes of it is not this side's business.
abbrev pub send_out : Frame → Call → Call
send_out f c = put_host (record (c.host) { sent = c.host.sent ++ (f ∷ []) }) c

-- `transmit` feeds the tx idle clocks.
abbrev pub feed_clocks : ℕ → Call → Call
feed_clocks now c = record {
  stream = record (c.stream) { last_tx = now };
  host = record (c.host) { last_tx = now };
}

unfoldable pub transmit : ℕ → Frame → Call → Call
transmit now f c = send_out f (feed_clocks now c)

-- `Server.grantPeer`: a grant of the connection window, to one incarnation.
unfoldable pub grant_peer : ℕ → Call → Call
grant_peer n c =
    if c.host.closed
    then c
    else send_out
        (record frame {
          epoch = c.host.server_epoch;
          peer_epoch = c.stream.client_epoch;
          flags = flag_window;
          window = n;
        })
        c
