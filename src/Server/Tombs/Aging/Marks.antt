-- ===== src/Server/Tombs/Aging/Marks.antt =====
-- What leaves the high-water mark and its checkpoints as they are.
use grpc_dgram.Prelude.{
  ℕ, zero, suc, ◌≡◌, refl, List, [], ◌∷◌, Option, ltb, leb, length, ◌&&◌, if◌then◌else◌, arith, ◌∙◌,
}
use grpc_dgram.OrderedMap.{OrderedMap}
use grpc_dgram.Wire.Flags.{Frame}
use grpc_dgram.Server.Tombs.{
  SrvTomb, PeerState, hwm_aged, key_only, degrade_one, degrade, evict_lowest, evict, cap_tombs,
  insert_tomb, replace_tomb, add_tomb, remove_tomb, expire_tombs, compact, sweep_tombs, replay_tomb,
}

-- The second state has the first one's mode, mark and checkpoints.
abbrev pub SameMarks : PeerState → PeerState → Type 0
SameMarks p q = (q.reliable ≡ p.reliable) × (q.hwm ≡ p.hwm) × (q.cps ≡ p.cps)

abbrev then_SameMarks : (p q r : PeerState) → SameMarks p q → SameMarks q r → SameMarks p r
then_SameMarks p q r (a, b, c) (a', b', c') = (a' ∙ a, b' ∙ b, c' ∙ c)

degrade_marks : (order : List ℕ) (p : PeerState) → SameMarks p (degrade order p)
unfolding degrade degrade_one key_only
degrade_marks [] p = (refl, refl, refl)
degrade_marks (sid ∷ order) p =
    ground (arith, degrade_marks order (degrade_one sid p), degrade_one_marks sid p)
  where
    degrade_one_marks : (sid : ℕ) (p : PeerState) → SameMarks p (degrade_one sid p)
    degrade_one_marks sid p = ground arith

evict_marks : (rounds : ℕ) (p : PeerState) → SameMarks p (evict rounds p)
unfolding evict evict_lowest
evict_marks zero p = (refl, refl, refl)
evict_marks (suc rounds) p = ground (arith, evict_marks rounds (evict_lowest p))

cap_tombs_marks : (p : PeerState) → SameMarks p (cap_tombs p)
unfolding cap_tombs
cap_tombs_marks p =
    let q = degrade p.tomb_order p in
    let n = length q.tombs in
    then_SameMarks p q (evict n q) (degrade_marks p.tomb_order p) (evict_marks n q)

pub add_tomb_marks :
    (sid : ℕ) (term : Option Frame) (e : ℕ) (p : PeerState) → SameMarks p (add_tomb sid term e p)
unfolding add_tomb replace_tomb insert_tomb
add_tomb_marks sid term e p = ground (arith, cap_tombs_marks (insert_tomb sid term e p))

remove_tomb_marks : (sid : ℕ) (p : PeerState) → SameMarks p (remove_tomb sid p)
unfolding remove_tomb
remove_tomb_marks sid p = ground arith

expire_tombs_marks :
    (now aged : ℕ) (m : OrderedMap SrvTomb) (p : PeerState)
    → SameMarks p (expire_tombs now aged m p)
unfolding expire_tombs
expire_tombs_marks now aged [] p = (refl, refl, refl)
expire_tombs_marks now aged ((sid, tb) ∷ m) p =
    let p' = if ltb tb.expire_at now && leb sid aged then remove_tomb sid p else p in
    then_SameMarks p p' (expire_tombs now aged m p') (ground (arith, remove_tomb_marks sid p))
      (expire_tombs_marks now aged m p')

pub sweep_tombs_marks : (now ttl : ℕ) (p : PeerState) → SameMarks p (sweep_tombs now ttl p)
unfolding sweep_tombs compact
sweep_tombs_marks now ttl p = ground (arith, expire_tombs_marks now (hwm_aged now ttl p) p.tombs p)

pub replay_tomb_marks :
    (tb : SrvTomb) (now rti : ℕ) (p : PeerState) → SameMarks p (replay_tomb tb now rti p).0
unfolding replay_tomb
replay_tomb_marks tb now rti p = ground arith
