-- ===== src/Flow/Ledger/Evicted.antt =====
-- The positions of evicted senders: what comes back is what was put away, with the grants that
-- arrived meanwhile.
use grpc_dgram.Prelude.{
  ℕ, ◌+◌, ◌≤◌, ◌<◌, ◌≡◌, refl, [], ◌∷◌, some, arith, min, length, if◌then◌else◌,
}
use grpc_dgram.OrderedMap.{OrderedMap, get, set, delete, length-set, get-set_self}
use grpc_dgram.Flow.Sender.{SenderState, FlowSender, grant, state, max_safe_integer}
use grpc_dgram.Flow.Ledger.{PeerFlowRx, stash, unstash, credit_evicted, trim}
use grpc_dgram.Flow.Ledger.Bounds.{IsSound}

trim_noop :
    (cap : ℕ) (m : OrderedMap SenderState) (p : OrderedMap ℕ)
    → length m ≤ cap
    → trim cap m p ≡ (m, p)
unfolding trim
trim_noop cap [] p h = refl
trim_noop cap ((k, st) ∷ m) p h = ground arith

-- The entry that was just set is not the one to go.
trim-set :
    (cap e : ℕ) (st : SenderState) (m : OrderedMap SenderState) (p : OrderedMap ℕ)
    → 0 < cap
    → length m ≤ cap
    → get e (trim cap (set e st m) p).0 ≡ some st
unfolding trim set get
trim-set cap e st [] p pos few = ground arith
trim-set cap e st ((k, x) ∷ m) p pos few = ground (
  arith,
  length-set e st m,
  get-set_self e st m,
  trim_noop cap (set e st m) (delete k p),
  trim_noop cap ((e, st) ∷ m) p,
)

get-stash :
    (e : ℕ) (st : SenderState) (l : PeerFlowRx)
    → IsSound l
    → 0 < l.evict_cap
    → get e (stash e st l).evicted ≡ some st
unfolding stash
get-stash e st l v pos = ground (arith, trim-set l.evict_cap e st l.evicted l.pending)

get-credit_evicted :
    (e n : ℕ) (st : SenderState) (l : PeerFlowRx)
    → get e l.evicted ≡ some st
    → st.granted ≤ max_safe_integer
    → get e (credit_evicted e n l).evicted
      ≡ some (if st.on then record st { granted = min (st.granted + n) max_safe_integer } else st)
unfolding credit_evicted
get-credit_evicted e n st l found fits = ground (
  arith,
  get-set_self e (record st { granted = min (st.granted + n) max_safe_integer }) l.evicted,
)

-- In a sound ledger with room for an evicted position, evicting a sender, crediting its incarnation and
-- recreating the sender gives the position that crediting the sender gives.
pub unstash-credit-stash :
    (e n : ℕ) (s : FlowSender) (l : PeerFlowRx)
    → IsSound l
    → 0 < l.evict_cap
    → s.granted ≤ max_safe_integer
    → (unstash e (credit_evicted e n (stash e (state s) l))).1 ≡ some (state (grant n s))
unfolding unstash state grant
unstash-credit-stash e n s l v pos fits = ground (
  arith,
  get-stash e s.position l v pos,
  get-credit_evicted e n s.position (stash e s.position l),
)
