-- ===== src/Flow/Channel/Connection.antt =====
-- The connection window: a `FlowSender` that has heard the advertisement, and the `PeerFlowRx` that
-- advertised it, on behalf of one incarnation.
use grpc_dgram.Prelude.{ℕ, ◌+◌, ◌-◌, ◌*◌, ◌≤◌, ◌<◌, ◌≡◌, ◌∙◌, ◌⊎◌, true, arith}
use grpc_dgram.OrderedMap.{Distinct, get}
use grpc_dgram.Flow.Sender.{FlowSender, fresh, observe, try_acquire, grant, empty, max_safe_integer}
use grpc_dgram.Flow.Ledger.{PeerFlowRx, idle, enable, admit, retire, unadmitted, held, u32_max}
use grpc_dgram.Flow.Ledger.Credit.{retire-Returned, unadmitted-Returned}

-- `data` frames and `credit` messages of grants are in flight.
pub record Channel : Type 0 where
  pub tx : FlowSender
  pub rx : PeerFlowRx
  pub frames : ℕ
  pub credit : ℕ

unfoldable pub start : ℕ → Channel
start window = record {
  tx = observe window fresh;
  rx = enable window 0 idle;
  frames = 0;
  credit = 0;
}

-- What can happen: a send with credit, the arrival of a frame that the ledger admits, the application
-- consuming `n` of the buffered frames, the arrival of a frame that is never buffered, the arrival of
-- a grant (of fewer than 2 ^ 53 messages in all).
pub data Step (e : ℕ) (c : Channel) : Channel → Type 0 where
  sends :
      (try_acquire c.tx).1 ≡ true
      → Step e c (record c { tx = (try_acquire c.tx).0; frames = c.frames + 1 })
  arrives :
      0 < c.frames
      → (admit c.rx).1 ≡ true
      → Step e c (record c { rx = (admit c.rx).0; frames = c.frames - 1 })
  consumes :
      (n : ℕ)
      → n ≤ c.rx.outstanding
      → Step e c
          (record c { rx = (retire e n true c.rx).0; credit = c.credit + (retire e n true c.rx).1 })
  discards :
      0 < c.frames
      → Step e c (record c {
        rx = (unadmitted e 1 c.rx).0;
        frames = c.frames - 1;
        credit = c.credit + (unadmitted e 1 c.rx).1;
      })
  grants :
      (n : ℕ)
      → n ≤ c.credit
      → c.tx.granted + n ≤ max_safe_integer
      → Step e c (record c { tx = grant n c.tx; credit = c.credit - n })

pub data Reach (e : ℕ) (c : Channel) : Channel → Type 0 where
  here : Reach e c c
  next : {d f : Channel} → Reach e c d → Step e d f → Reach e c f

-- Every message of credit is at exactly one place: the sender may still spend it, its frame is in
-- flight or in a buffer, or it is on its way back.
pub record Balanced (e window : ℕ) (c : Channel) : Type 0 where
  pub balance :
      c.tx.granted + c.credit + held e c.rx + c.rx.outstanding + c.frames ≡ c.tx.sent + window
  pub is_on : c.tx.on ≡ true
  pub within : c.tx.sent ≤ c.tx.granted
  pub sized : c.rx.window ≡ window
  pub apart : Distinct c.rx.pending
  pub small : (held e c.rx ≡ 0) ⊎ (held e c.rx * 2 < window)

Balanced-start : (e window : ℕ) → 0 < window → window ≤ u32_max → Balanced e window (start window)
unfolding start observe fresh enable idle get
Balanced-start e window pos fits = ground arith

module _ (e window : ℕ) (pos : 0 < window) (fits : window ≤ u32_max) where
  consume-Balanced :
      (n : ℕ) (c : Channel)
      → Balanced e window c
      → n ≤ c.rx.outstanding
      → Balanced e window
          (record c { rx = (retire e n true c.rx).0; credit = c.credit + (retire e n true c.rx).1 })
  consume-Balanced n c b h =
      let (r, out) = retire-Returned e n c.rx b.apart (omega (arith, b)) (omega (arith, b)) in
      record {
        balance = omega (arith, b, r, out);
        is_on = b.is_on;
        within = b.within;
        sized = r.window_same ∙ b.sized;
        apart = r.distinct;
        small = ground (arith, r, b);
      }

  discard-Balanced :
      (c : Channel)
      → Balanced e window c
      → 0 < c.frames
      → Balanced e window (record c {
        rx = (unadmitted e 1 c.rx).0;
        frames = c.frames - 1;
        credit = c.credit + (unadmitted e 1 c.rx).1;
      })
  discard-Balanced c b h =
      let (r, out) = unadmitted-Returned e 1 c.rx b.apart (omega (arith, b)) (omega (arith, b)) in
      record {
        balance = omega (arith, b, r, out);
        is_on = b.is_on;
        within = b.within;
        sized = r.window_same ∙ b.sized;
        apart = r.distinct;
        small = ground (arith, r, b);
      }

  Step-Balanced : {c d : Channel} → Step e c d → Balanced e window c → Balanced e window d
  Step-Balanced (sends h) b = unfold try_acquire in ground arith
  Step-Balanced (arrives h k) b = unfold admit in ground arith
  Step-Balanced (consumes n h) b = consume-Balanced n _ b h
  Step-Balanced (discards h) b = discard-Balanced _ b h
  Step-Balanced (grants n h k) b = unfold grant in ground arith

  -- In every state that the two ends can reach, no message of credit is lost or made up.
  pub Reach-Balanced : {c : Channel} → Reach e (start window) c → Balanced e window c
  Reach-Balanced here = Balanced-start e window pos fits
  Reach-Balanced (next r st) = Step-Balanced st (Reach-Balanced r)

  -- A sender that keeps to its credit never overruns the receiver: whenever a frame is in flight,
  -- the ledger has room for it.
  pub never_overruns :
      {c : Channel} → Reach e (start window) c → 0 < c.frames → (admit c.rx).1 ≡ true
  never_overruns r h = let b = Reach-Balanced r in unfold admit in ground (arith, b)

  -- A sender that is parked with nothing in flight waits for frames in the receiver's buffers, and
  -- for most of a window of them.
  pub parked_has_buffered :
      {c : Channel}
      → Reach e (start window) c
      → empty c.tx ≡ true
      → c.frames ≡ 0
      → c.credit ≡ 0
      → window < c.rx.outstanding * 2
  parked_has_buffered r spent quiet none_back =
      let b = Reach-Balanced r in unfold empty in ground (arith, b)

  -- When a sender is parked with nothing in flight, consuming any of the buffered frames grants at once
  -- all the credit that is held back.
  pub never_starves :
      {c : Channel} (n : ℕ)
      → Reach e (start window) c
      → empty c.tx ≡ true
      → c.frames ≡ 0
      → c.credit ≡ 0
      → 0 < n
      → n ≤ c.rx.outstanding
      → (retire e n true c.rx).1 ≡ held e c.rx + n
  never_starves {c} n r spent quiet none_back pos_n le =
      let b = Reach-Balanced r in
      let (t, out) = retire-Returned e n c.rx b.apart (omega (arith, b)) (omega (arith, b)) in
      unfold empty in ground (arith, b, t, out)
