-- ===== src/Server/Shutdown.antt =====
-- `disconnectPeer` and `stop` of ts/src/server.ts, at the desk of one peer. What waits for the handlers is
-- the scheduler's.
pub mod Refusing
use grpc_dgram.Prelude.{ℕ, ◌+◌, ◌-◌, Bool, true, List, [], ◌∷◌, ◌++◌, Option, none, some, length}
use grpc_dgram.OrderedMap.{OrderedMap}
use grpc_dgram.Status.{Status}
use grpc_dgram.Status.Code
use grpc_dgram.Metadata.Base64.{codes}
use grpc_dgram.Wire.Text.{Text}
use grpc_dgram.Flow.Sender.{FlowSender, release}
use grpc_dgram.Server.Replies.{ReplyBudget}
use grpc_dgram.Server.Stream.{Stream, first_cause}
use grpc_dgram.Server.Table.{Desk, Slot, Container, Live, slot_of, put_slot}

-- The text of the error that the adapter gives, if it gives one, stands in `detail`.
abbrev pub transport_closed : Option Text → Status
transport_closed none = record { code = Code.unavailable; desc = codes "transport closed" }
transport_closed (some detail) = record {
  code = Code.unavailable;
  desc = codes "transport closed: " ++ detail;
}

abbrev server_stopped : Status
server_stopped = record { code = Code.unavailable; desc = codes "server stopped" }

unfoldable pub cancelled : Status → Live → Live
cancelled cause v = record v {
  stream = record (v.stream) { ended = first_cause v.stream.ended cause };
}

unfoldable pub cancel_calls : Status → OrderedMap Live → OrderedMap Live
cancel_calls cause [] = []
cancel_calls cause ((sid, v) ∷ m) = (sid, cancelled cause v) ∷ cancel_calls cause m

-- The containers that go with their slot: their calls are cancelled and their senders released.
unfoldable pub close_containers : Status → OrderedMap Container → OrderedMap Container
close_containers cause [] = []
close_containers cause ((e, ps) ∷ m) =
    (e, record ps { calls = cancel_calls cause ps.calls; conn_tx = release ps.conn_tx })
    ∷ close_containers cause m

abbrev count_budget : Option ReplyBudget → ℕ
count_budget none = 0
count_budget (some b) = 1

unfoldable pub disconnected : Status → Option Slot → Desk → Desk × OrderedMap Container
disconnected cause none d = (d, [])
disconnected cause (some s) d = (
  record d {
    slot = none;
    pending_reset_total = d.pending_reset_total - length s.pending_resets;
    reset_at_total = d.reset_at_total - length s.reset_at;
    reply_budget_total = d.reply_budget_total - count_budget s.reply_budget;
  },
  close_containers cause s.epochs,
)

-- The desk without the slot, and what the handlers that still run hold of it.
unfoldable pub disconnect_peer : Option Text → Desk → Desk × OrderedMap Container
disconnect_peer detail d = disconnected (transport_closed detail) d.slot d

unfoldable pub stop_containers : Status → OrderedMap Container → OrderedMap Container
stop_containers cause [] = []
stop_containers cause ((e, ps) ∷ m) =
    (e, record ps { calls = cancel_calls cause ps.calls }) ∷ stop_containers cause m

abbrev stopped_slot : Option Slot → Option Slot
stopped_slot none = none
stopped_slot (some s) = some (record s { epochs = stop_containers server_stopped s.epochs })

unfoldable pub stop : Desk → Desk
stop d = record d { drain = true; closed = true; slot = stopped_slot d.slot }
