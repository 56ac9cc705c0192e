-- ===== src/Server/Cases.antt =====
-- Calls and desks at concrete inputs.
use grpc_dgram.Prelude.{◌+◌, ◌≡◌, refl, inl, true, false, List, [], ◌∷◌, none, some, arith}
use grpc_dgram.Status.{returns}
use grpc_dgram.Status.Code
use grpc_dgram.Config.Limits.{ResolvedLimits}
use grpc_dgram.Queue.{DropPolicy}
use grpc_dgram.Flow.Ledger.{PeerFlowRx}
use grpc_dgram.Flow.Receiver.{enable}
use grpc_dgram.OrderedMap.{get}
use grpc_dgram.Compression.{raw_payload}
use grpc_dgram.Wire.Flags.{Frame, frame, is_data, shape_of}
use grpc_dgram.Server.Stream.{Stream, Call, Shape, create}
use grpc_dgram.Server.Stream.Header.{Answer, taken, too_large}
use grpc_dgram.Server.Stream.Receive.{finish_stream}
use grpc_dgram.Server.Stream.Books.{granted_to}
use grpc_dgram.Server.Stream.Life.{
  Op, receives, takes, steps, data_frames, Settled, finish_stream-Settled,
}
use grpc_dgram.Server.Stream.Send.{send_begins, send_encoded, transmit_terminal}
use grpc_dgram.Server.Stream.Send.Refusal.{Holds, Exact, send_begins-Holds, send_encoded-Exact}
use grpc_dgram.Server.Stream.Send.Terminal.{Stored, transmit_terminal-Stored}
use grpc_dgram.Server.Table.{Config, Desk, slot_of}
use grpc_dgram.Server.Table.Counted.{Counted}
use grpc_dgram.Server.Dispatch.{handle, on_reset, silenced, reset_by_peer}
use grpc_dgram.Server.Dispatch.Started.{Opens, handle-Opens}
use grpc_dgram.Server.Dispatch.Bounded.{own_epoch}
use grpc_dgram.Server.Dispatch.Caps
use grpc_dgram.Server.Dispatch.Caps.{frame_in, call_ends, sweeps, disconnects, steps-Counted}
use grpc_dgram.Server.Dispatch.Isolation.{call_of, through, on_reset_exact}

abbrev bidi : Shape
bidi = record { client_streams = true; server_streams = true }

-- A call in reliable mode whose one credit of each window is spent.
abbrev stream : Stream
stream = record (create 7 1 bidi true 8 DropPolicy.newest 100) {
  flow_tx = record {
    position = record { on = true; observed = true; granted = 8; sent = 1 };
    waiters = [];
  };
}

abbrev ledger : PeerFlowRx
ledger = record { window = 16; outstanding = 0; pending = []; evicted = []; evict_cap = 4 }

abbrev call : Call
call = record {
  stream = stream;
  host = record {
    server_epoch = 9;
    closed = false;
    max_peer_window = 16;
    retransmit = 100;
    last_rx = 100;
    last_tx = 100;
    conn_tx = record {
      position = record { on = true; observed = true; granted = 16; sent = 1 };
      waiters = [];
    };
    ledger = some ledger;
    budgets = none;
    sent = [];
    events = [];
  };
}

abbrev message : Frame
message = record frame { epoch = 7; sid = 1; seq = 2; peer_epoch = 9; payload = some (5 ∷ []) }

abbrev one_read : List Op
one_read = receives 110 false message ∷ takes ∷ []

finish_stream-Settled_example :
    Settled 0 (0 + data_frames one_read) (finish_stream (steps call one_read))
unfolding enable get data_frames granted_to is_data shape_of create
finish_stream-Settled_example = finish_stream-Settled 0 0 one_read call (
  ledger,
  record {
    has_ledger = refl;
    reliable = refl;
    running = refl;
    named = λ e. (ground (arith, e));
    active = refl;
    books = record {
      charged = refl;
      balance = refl;
      small = inl refl;
      bounded = omega arith;
      open_window = omega arith;
      narrow = omega arith;
      apart = tt;
    };
  },
)

-- The adapter that takes no payload.
abbrev narrow_channel : Frame → Answer
narrow_channel f = elim f.payload [ none ↦ taken | some p ↦ too_large ]

send_begins-Holds_example : Holds call (send_begins 3 (returns (5 ∷ [])) call)
send_begins-Holds_example = send_begins-Holds 3 (returns (5 ∷ [])) call

send_encoded-Exact_example :
    Exact
      (λ f. too_large)
      (returns (raw_payload (5 ∷ [])))
      call
      (send_encoded 110 (λ f. too_large) (returns (raw_payload (5 ∷ []))) call)
send_encoded-Exact_example =
    send_encoded-Exact 110 (λ f. too_large) (returns (raw_payload (5 ∷ []))) call (omega arith)
      (λ r. omega arith) (unfold create in omega arith)

abbrev terminal : Frame
terminal = record frame {
  epoch = 9;
  sid = 1;
  seq = 4;
  flags = 2;
  payload = some (5 ∷ []);
  code = some 0;
}

transmit_terminal-Stored_example :
    Stored terminal call (transmit_terminal 110 (λ i f. too_large) [] terminal call)
transmit_terminal-Stored_example = transmit_terminal-Stored 110 (λ i f. too_large) [] terminal call

abbrev limits : ResolvedLimits
limits = record {
  max_tombstones = 4;
  max_tombstone_bytes = 100;
  max_dead_peers = 2;
  max_pending_resets = 4;
  max_live_calls = 3;
  max_replies_per_rti = 2;
  max_peer_window = 16;
}

abbrev config : Config
config = record {
  epoch = 9;
  limits = limits;
  retransmit = 100;
  hold = 50;
  tombstone = 1000;
  liveness = 500;
  probe = 80;
  max_handler_timeout = 0;
  services = λ name. some (bidi, record { size = 8; policy = DropPolicy.newest });
  codecs = λ name. false;
  compressors = λ name. false;
}

abbrev desk : Desk
desk = record {
  slot = none;
  pending_reset_total = 0;
  reset_at_total = 0;
  reply_budget_total = 0;
  drain = false;
  closed = false;
  live_tasks = 0;
  saw_unreliable = false;
  sent = [];
  started = [];
  events = [];
  stream_events = [];
}

abbrev opening : Frame
opening = record frame { epoch = 7; sid = 1; seq = 1; flags = 1; window = 8; conn_window = 16 }

handle-Opens_example : Opens config 100 opening desk (handle config 100 true false opening desk)
handle-Opens_example = handle-Opens config 100 true false opening desk

abbrev open_and_end : List Caps.Op
open_and_end =
    frame_in 100 true false opening ∷ call_ends 120 7 1 none ∷ sweeps 200 ∷ disconnects none ∷ []

steps-Counted_example : Counted config (slot_of (Caps.steps config open_and_end desk).slot)
steps-Counted_example = steps-Counted config open_and_end desk (omega arith) refl

-- The peer disowns its call.
abbrev reset : Frame
reset = record frame { epoch = 9; sid = 1; flags = 4; peer_epoch = 7 }

abbrev opened : Desk
opened = Caps.steps config (frame_in 100 true false opening ∷ []) desk

on_reset_exact_example :
    call_of 7 1 (on_reset config reset opened).slot
    ≡ through (silenced reset_by_peer) (call_of 7 1 opened.slot)
on_reset_exact_example = on_reset_exact config reset opened 7 1 (λ e ps h.
    (own_epoch config e ps opened
      (steps-Counted config (frame_in 100 true false opening ∷ []) desk (omega arith) refl) h).0)
