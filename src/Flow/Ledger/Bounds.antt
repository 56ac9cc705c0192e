-- ===== src/Flow/Ledger/Bounds.antt =====
-- The bound that the ledger enforces on what one peer has buffered here.
use grpc_dgram.Prelude.{
  ℕ, ◌+◌, ◌-◌, ◌≤◌, Bool, inl, inr, Option-cases, List, [], ◌∷◌, arith, min, length,
}
use grpc_dgram.OrderedMap.{
  OrderedMap, Distinct, set-Distinct, delete-Distinct, length-set, length-delete, get, has, set,
  delete,
}
use grpc_dgram.Flow.Sender.{SenderState, max_safe_integer}
use grpc_dgram.Flow.Ledger.{
  PeerFlowRx, idle, enable, admit, hold, due, retire, unadmitted, unadmitted_evicted, renew, trim,
  stash, unstash, credit_evicted, held, u32_max,
}

pub data Op : Type 0 where
  admits renews : Op
  retires : ℕ → ℕ → Bool → Op
  unadmits unadmits_evicted credits : ℕ → ℕ → Op
  stashes : ℕ → SenderState → Op
  unstashes : ℕ → Op

unfoldable pub step : PeerFlowRx → Op → PeerFlowRx
step l admits = (admit l).0
step l renews = renew l
step l (retires e n c) = (retire e n c l).0
step l (unadmits e n) = (unadmitted e n l).0
step l (unadmits_evicted e n) = (unadmitted_evicted e n l).0
step l (credits e n) = credit_evicted e n l
step l (stashes e st) = stash e st l
step l (unstashes e) = (unstash e l).0

pub record IsSound (l : PeerFlowRx) : Type 0 where
  pub bounded : l.outstanding ≤ l.window
  pub wire : l.window ≤ u32_max
  pub few : length l.evicted ≤ l.evict_cap
  pub once : Distinct l.evicted
  pub apart : Distinct l.pending

pub idle-IsSound : (window cap : ℕ) → IsSound (enable window cap idle)
unfolding idle enable
idle-IsSound window cap = ground arith

due-IsSound : (e : ℕ) (l : PeerFlowRx) → IsSound l → IsSound (due e l).0
unfolding due
due-IsSound e l v = ground (arith, delete-Distinct e l.pending)

hold-IsSound : (e n : ℕ) (l : PeerFlowRx) → IsSound l → IsSound (hold e n l)
unfolding hold
hold-IsSound e n l v = ground (arith, set-Distinct e (min (held e l + n) u32_max) l.pending v.apart)

trim-length :
    (cap : ℕ) (m : OrderedMap SenderState) (p : OrderedMap ℕ) → length (trim cap m p).0 ≤ cap
unfolding trim
trim-length cap [] p = omega arith
trim-length cap ((k, st) ∷ m) p = ground (arith, trim-length cap m (delete k p))

trim-Distinct :
    (cap : ℕ) (m : OrderedMap SenderState) (p : OrderedMap ℕ)
    → Distinct m
    → Distinct p
    → Distinct (trim cap m p).0 × Distinct (trim cap m p).1
unfolding trim
trim-Distinct cap [] p d q = (tt, q)
trim-Distinct cap ((k, st) ∷ m) p d q =
    ground (arith, trim-Distinct cap m (delete k p) d.1 (delete-Distinct k p q))

retire-IsSound : (e n : ℕ) (c : Bool) (l : PeerFlowRx) → IsSound l → IsSound (retire e n c l).0
unfolding retire
retire-IsSound e n c l v =
    let l' = record l { outstanding = l.outstanding - min n l.outstanding } in
    let v' : IsSound l' = ground arith in
    ground (arith, v', due-IsSound e (hold e n l') (hold-IsSound e n l' v'))

stash-IsSound : (e : ℕ) (st : SenderState) (l : PeerFlowRx) → IsSound l → IsSound (stash e st l)
unfolding stash
stash-IsSound e st l v = ground (
  arith,
  delete-Distinct e l.pending v.apart,
  trim-length l.evict_cap (set e st l.evicted) l.pending,
  trim-Distinct l.evict_cap (set e st l.evicted) l.pending (set-Distinct e st l.evicted v.once)
      v.apart,
)

unstash-IsSound : (e : ℕ) (l : PeerFlowRx) → IsSound l → IsSound (unstash e l).0
unfolding unstash
unstash-IsSound e l v =
    ground (arith, delete-Distinct e l.evicted v.once, length-delete e l.evicted)

credit-IsSound : (e n : ℕ) (l : PeerFlowRx) → IsSound l → IsSound (credit_evicted e n l)
unfolding credit_evicted has
credit-IsSound e n l v = elim (Option-cases (get e l.evicted)) [
  | inl gone ↦ ground arith
  | inr (st, found) ↦
      let st' = record st { granted = min (st.granted + n) max_safe_integer } in
      ground (arith, set-Distinct e st' l.evicted v.once, length-set e st' l.evicted)
]

-- Whatever a peer makes this endpoint do, the frames it has buffered here stay within the window,
-- and the evicted positions that are kept within their cap.
pub step-IsSound : (l : PeerFlowRx) (o : Op) → IsSound l → IsSound (step l o)
unfolding step
step-IsSound l admits v = unfold admit in (ground arith)
step-IsSound l renews v = unfold renew in (ground arith)
step-IsSound l (retires e n c) v = retire-IsSound e n c l v
step-IsSound l (unadmits e n) v =
    unfold unadmitted in (ground (arith, due-IsSound e (hold e n l) (hold-IsSound e n l v)))
step-IsSound l (unadmits_evicted e n) v =
    unfold unadmitted_evicted in (ground (arith, due-IsSound e (hold e n l) (hold-IsSound e n l v)))
step-IsSound l (credits e n) v = credit-IsSound e n l v
step-IsSound l (stashes e st) v = stash-IsSound e st l v
step-IsSound l (unstashes e) v = unstash-IsSound e l v

unfoldable pub steps : PeerFlowRx → List Op → PeerFlowRx
steps l [] = l
steps l (o ∷ os) = steps (step l o) os

steps_keep : (l : PeerFlowRx) (os : List Op) → IsSound l → IsSound (steps l os)
unfolding steps
steps_keep l [] v = v
steps_keep l (o ∷ os) v = steps_keep (step l o) os (step-IsSound l o v)

-- After any history of a new ledger, the frames that a peer has buffered here are within the window, the
-- window fits the wire, and the positions kept for evicted senders are within their cap, one for each.
pub steps-IsSound : (window cap : ℕ) (os : List Op) → IsSound (steps (enable window cap idle) os)
steps-IsSound window cap os = steps_keep _ os (idle-IsSound window cap)
