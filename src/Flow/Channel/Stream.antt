-- ===== src/Flow/Channel/Stream.antt =====
-- The window of one stream: a `FlowSender` that has heard the advertisement, the `FlowReceiver` that
-- advertised it, and the receive queue between the channel and the application.
use grpc_dgram.Prelude.{ℕ, ◌+◌, ◌-◌, ◌≤◌, ◌<◌, ◌≡◌, ◌∙◌, true, arith}
use grpc_dgram.Flow.Sender.{FlowSender, fresh, observe, try_acquire, grant, max_safe_integer}
use grpc_dgram.Flow.Receiver.{
  FlowReceiver, idle, enable, consumed, Batched, enable-Batched, consumed-Batched,
}

-- `frames` data frames and `credit` messages of grants are in flight; `buffered` frames are queued.
pub record Channel : Type 0 where
  pub tx : FlowSender
  pub rx : FlowReceiver
  pub buffered : ℕ
  pub frames : ℕ
  pub credit : ℕ

unfoldable pub start : ℕ → Channel
start window = record {
  tx = observe window fresh;
  rx = enable window idle;
  buffered = 0;
  frames = 0;
  credit = 0;
}

-- A send with credit, the arrival of a frame, the application consuming `n` frames, the arrival of a
-- grant (of fewer than 2 ^ 53 messages in all).
pub data Step (c : Channel) : Channel → Type 0 where
  sends :
      (try_acquire c.tx).1 ≡ true
      → Step c (record c { tx = (try_acquire c.tx).0; frames = c.frames + 1 })
  arrives : 0 < c.frames → Step c (record c { buffered = c.buffered + 1; frames = c.frames - 1 })
  consumes :
      (n : ℕ)
      → n ≤ c.buffered
      → Step c (record c {
        rx = (consumed n c.rx).0;
        buffered = c.buffered - n;
        credit = c.credit + (consumed n c.rx).1;
      })
  grants :
      (n : ℕ)
      → n ≤ c.credit
      → c.tx.granted + n ≤ max_safe_integer
      → Step c (record c { tx = grant n c.tx; credit = c.credit - n })

pub data Reach (c : Channel) : Channel → Type 0 where
  here : Reach c c
  next : {d f : Channel} → Reach c d → Step d f → Reach c f

-- Every message of credit is at exactly one place.
pub record Balanced (window : ℕ) (c : Channel) : Type 0 where
  pub balance : c.tx.granted + c.credit + c.rx.pending + c.buffered + c.frames ≡ c.tx.sent + window
  pub is_on : c.tx.on ≡ true
  pub within : c.tx.sent ≤ c.tx.granted
  pub sized : c.rx.window ≡ window
  pub batched : Batched c.rx

module _ (window : ℕ) (pos : 0 < window) where
  Balanced-start : Balanced window (start window)
  unfolding start observe fresh enable idle
  Balanced-start = ground (arith, enable-Batched window pos)

  consume-Balanced :
      (n : ℕ) (c : Channel)
      → Balanced window c
      → n ≤ c.buffered
      → Balanced window (record c {
        rx = (consumed n c.rx).0;
        buffered = c.buffered - n;
        credit = c.credit + (consumed n c.rx).1;
      })
  consume-Balanced n c b h =
      let (held, same, kept) = consumed-Batched n c.rx b.batched in
      record {
        balance = omega (arith, b, kept);
        is_on = b.is_on;
        within = b.within;
        sized = same ∙ b.sized;
        batched = held;
      }

  Step-Balanced : {c d : Channel} → Step c d → Balanced window c → Balanced window d
  Step-Balanced (sends h) b = unfold try_acquire in ground arith
  Step-Balanced (arrives h) b = ground arith
  Step-Balanced (consumes n h) b = consume-Balanced n _ b h
  Step-Balanced (grants n h k) b = unfold grant in ground arith

  -- In every state that the two ends can reach, no message of credit is lost or made up.
  pub Reach-Balanced : {c : Channel} → Reach (start window) c → Balanced window c
  Reach-Balanced here = Balanced-start
  Reach-Balanced (next r st) = Step-Balanced st (Reach-Balanced r)

  -- A queue of the advertised size never overflows: what is buffered and in flight fits the window.
  pub never_overflows : {c : Channel} → Reach (start window) c → c.buffered + c.frames ≤ window
  never_overflows r = let b = Reach-Balanced r in omega (arith, b)
