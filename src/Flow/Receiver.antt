-- ===== src/Flow/Receiver.antt =====
-- `FlowReceiver` of ts/src/util.ts: consumed messages, and the credit to return for them.
use grpc_dgram.Prelude.{
  ℕ, ◌+◌, ◌*◌, ◌<◌, ◌≡◌, Bool, true, false, not, ◌||◌, arith, ltb, ◌==◌, if◌then◌else◌,
}

pub record FlowReceiver : Type 0 where
  pub on : Bool
  pub window : ℕ
  pub pending : ℕ

unfoldable pub idle : FlowReceiver
idle = record { on = false; window = 0; pending = 0 }

unfoldable pub enable : ℕ → FlowReceiver → FlowReceiver
enable window r = record r { on = ltb 0 window; window = window }

-- `n` messages left the buffer; the number is the credit to grant now.
unfoldable pub consumed : ℕ → FlowReceiver → FlowReceiver × ℕ
consumed n r =
    let pending = r.pending + n in
    if not r.on || n == 0
    then (r, 0)
    else if ltb (pending * 2) r.window
    then (record r { pending = pending }, 0)
    else (record r { pending = 0 }, pending)

-- Less than half a window is held back.
pub record Batched (r : FlowReceiver) : Type 0 where
  pub is_on : r.on ≡ true
  pub open_window : 0 < r.window
  pub held : r.pending * 2 < r.window

pub enable-Batched : (w : ℕ) → 0 < w → Batched (enable w idle)
unfolding enable idle
enable-Batched w h = ground arith

-- No credit is made up or lost, and the batch never grows to half a window.
pub consumed-Batched :
    (n : ℕ) (r : FlowReceiver)
    → Batched r
    → Batched (consumed n r).0
      × ((consumed n r).0.window ≡ r.window)
      × ((consumed n r).0.pending + (consumed n r).1 ≡ r.pending + n)
unfolding consumed
consumed-Batched n r b = ground arith
