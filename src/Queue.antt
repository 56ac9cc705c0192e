-- ===== src/Queue.antt =====
-- `FrameQueue` of ts/src/util.ts: the bounded receive queue of one stream, with the drop policies of
-- ts/src/limits.ts. Puts that wait for space
-- are in Queue/Blocking.
pub mod Order
pub mod Blocking
mod Examples
use grpc_dgram.Prelude.{
  ℕ, suc, ◌+◌, ◌≤◌, ◌≡◌, Bool, true, false, List, [], ◌∷◌, ◌++◌, Option, none, some, leb, ltb,
  length, if◌then◌else◌,
}

pub data DropPolicy : Type 0 where
  newest oldest : DropPolicy

-- The buffer, oldest frame first.
pub record FrameQueue {ℓ} (A : Type ℓ) : Type ℓ where
  pub cap : ℕ
  pub buf : List A
  pub dropped : ℕ

module _ {ℓ} {A : Type ℓ} where
  unfoldable pub init : ℕ → FrameQueue A
  init cap = record { cap = cap; buf = []; dropped = 0 }

  take_front : FrameQueue A → List A → FrameQueue A × Option A
  take_front q [] = (q, none)
  take_front q (f ∷ rest) = (record q { buf = rest }, some f)

  unfoldable pub try_take : FrameQueue A → FrameQueue A × Option A
  unfolding take_front
  try_take q = take_front q q.buf

  unfoldable pub try_put : A → FrameQueue A → FrameQueue A × Bool
  try_put f q =
      if leb q.cap (length q.buf) then (q, false) else (record q { buf = q.buf ++ (f ∷ []) }, true)

  abbrev count_drop : FrameQueue A → FrameQueue A
  count_drop q = record q { dropped = q.dropped + 1 }

  -- `if (this.buf.shift() !== undefined) this.dropped++`
  evict : FrameQueue A → List A → FrameQueue A
  evict q [] = q
  evict q (f ∷ rest) = record q { buf = rest; dropped = q.dropped + 1 }

  put_oldest : A → FrameQueue A → FrameQueue A × ℕ
  unfolding evict
  put_oldest f q =
      let (q', admitted) = try_put f (evict q q.buf) in
      if admitted then (q', 1) else (count_drop q', 1)

  put_full : A → DropPolicy → FrameQueue A → FrameQueue A × ℕ
  unfolding put_oldest
  put_full f newest q = (count_drop q, 1)
  put_full f oldest q = put_oldest f q

  unfoldable pub put_drop : A → DropPolicy → FrameQueue A → FrameQueue A × ℕ
  unfolding put_full
  put_drop f policy q =
      let (q', admitted) = try_put f q in if admitted then (q', 0) else put_full f policy q
