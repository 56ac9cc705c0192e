-- ===== src/Flow/Sender.antt =====
-- `FlowSender` of ts/src/util.ts: what the peer allows and what was sent. `waiters` names the sends
-- that are parked; resolving their promises empties it. Windows and grants are message counts, so
-- the code's `<= 0` is a test for 0.
use grpc_dgram.Prelude.{
  ℕ, ◌+◌, ◌-◌, Bool, true, false, not, ◌&&◌, ◌||◌, List, [], ◌∷◌, ◌++◌, min, ltb, leb, ◌==◌,
  if◌then◌else◌,
}

abbrev pub w_init : ℕ
w_init = 32

abbrev pub w_conn : ℕ
w_conn = 1024

abbrev pub max_safe_integer : ℕ
max_safe_integer = 9007199254740991

unfoldable pub reliable_rx_size : ℕ → Bool → ℕ
reliable_rx_size size reliable = if reliable && ltb size w_init then w_init else size

pub record SenderState : Type 0 where
  pub on : Bool
  pub observed : Bool
  pub granted : ℕ
  pub sent : ℕ

pub record FlowSender : Type 0 where
  pub position : SenderState
  pub open position use *
  pub waiters : List ℕ

unfoldable pub fresh : FlowSender
fresh = record {
  position = record { on = false; observed = false; granted = 0; sent = 0 };
  waiters = [];
}

-- `wake(this.waiters)`
abbrev pub wake : SenderState → FlowSender
wake p = record { position = p; waiters = [] }

unfoldable pub assume : ℕ → FlowSender → FlowSender
assume window s =
    if window == 0 || (s.observed || s.on)
    then s
    else record s { position = record (s.position) { on = true; granted = window } }

unfoldable pub observe : ℕ → FlowSender → FlowSender
observe window s =
    if s.observed
    then s
    else if window == 0
    then wake (record (s.position) { observed = true; on = false })
    else wake (record (s.position) { observed = true; on = true; granted = window })

unfoldable pub reassume : ℕ → FlowSender → FlowSender
reassume window s =
    wake (record { on = ltb 0 window; observed = false; granted = window; sent = 0 })

unfoldable pub grant : ℕ → FlowSender → FlowSender
grant n s =
    if n == 0 || not s.on
    then s
    else wake (record (s.position) { granted = min (s.granted + n) max_safe_integer })

unfoldable pub refund : ℕ → FlowSender → FlowSender × ℕ
refund n s = let r = min n s.sent in (wake (record (s.position) { sent = s.sent - r }), r)

unfoldable pub undo : FlowSender → FlowSender × Bool
unfolding refund
undo s = let (s', r) = refund 1 s in (s', r == 1)

unfoldable pub drain : FlowSender → FlowSender × ℕ
drain s = (record s { position = record (s.position) { sent = 0 } }, s.sent)

unfoldable pub release : FlowSender → FlowSender
release s = wake (record (s.position) { on = false })

unfoldable pub empty : FlowSender → Bool
empty s = s.on && leb s.granted s.sent

unfoldable pub try_acquire : FlowSender → FlowSender × Bool
try_acquire s =
    if s.on && leb s.granted s.sent
    then (s, false)
    else (record s { position = record (s.position) { sent = s.sent + 1 } }, true)

unfoldable pub state : FlowSender → SenderState
state s = s.position

unfoldable pub restore : SenderState → FlowSender → FlowSender
restore st s = record s { position = st }

-- `parked()`: the send named `id` waits for the next wake.
unfoldable pub parked : ℕ → FlowSender → FlowSender
parked id s = record s { waiters = s.waiters ++ (id ∷ []) }
