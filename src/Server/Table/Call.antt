-- ===== src/Server/Table/Call.antt =====
-- A step of one call, taken where the table holds it: `ServerStream` reaches its container (`ps`), the
-- peer's ledger (`pf`), its slot's reply budget and the server through references.
use grpc_dgram.Prelude.{ℕ, Bool, [], ◌++◌, Option, none, some, if◌then◌else◌}
use grpc_dgram.OrderedMap.{set}
use grpc_dgram.Server.Replies.{Budgets}
use grpc_dgram.Server.Stream.{Host, Call}
use grpc_dgram.Server.Table.{
  Config, Desk, Slot, Container, Live, put_slot, put_container, budgets_of,
}

unfoldable pub host_of : Config → Bool → Container → Slot → Desk → Host
host_of cfg reliable ps s d = record {
  server_epoch = cfg.epoch;
  closed = d.closed;
  max_peer_window = cfg.limits.max_peer_window;
  retransmit = cfg.retransmit;
  last_rx = ps.last_rx;
  last_tx = ps.state.last_tx;
  conn_tx = ps.conn_tx;
  ledger = if reliable then s.flow else none;
  budgets = some (budgets_of cfg s d);
  sent = [];
  events = [];
}

abbrev pub call_at : Config → Live → Container → Slot → Desk → Call
call_at cfg v ps s d = record { stream = v.stream; host = host_of cfg v.stream.reliable ps s d }

-- What the call changed in its container.
unfoldable pub container_after : Host → Container → Container
container_after h ps = record ps {
  conn_tx = h.conn_tx;
  last_rx = h.last_rx;
  state = record (ps.state) { last_tx = h.last_tx };
}

after_budgets : Option Budgets → Slot → Desk → Slot × Desk
after_budgets none s d = (s, d)
after_budgets (some b) s d = (
  record s { reply_budget = b.reply_budget },
  record d { reply_budget_total = b.reply_budget_total },
)

-- The desk with the container, and what the call changed elsewhere.
unfoldable pub put_back : Bool → Host → Container → Slot → Desk → Desk
unfolding after_budgets
put_back reliable h ps s d =
    let (s1, d1) = after_budgets h.budgets s d in
    let s2 = record s1 { flow = if reliable then h.ledger else s1.flow } in
    record (put_slot (put_container ps s2) d1) {
      sent = d1.sent ++ h.sent;
      stream_events = d1.stream_events ++ h.events;
    }

-- `op` on the call that the container holds under `sid`.
unfoldable pub on_call : Config → (Call → Call) → ℕ → Live → Container → Slot → Desk → Desk
on_call cfg op sid v ps s d =
    let c = op (call_at cfg v ps s d) in
    let ps1 = container_after c.host ps in
    put_back v.stream.reliable c.host
      (record ps1 { calls = set sid (record v { stream = c.stream }) ps1.calls }) s d
