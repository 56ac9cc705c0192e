-- ===== src/Server/Tombs/Dedup.antt =====
-- What the tombstones are for: to answer for the calls that finished.
use grpc_dgram.Prelude.{
  ℕ, zero, suc, ◌≤◌, ◌<◌, ◌≡◌, ◌≢◌, refl, Bool, true, ◌⊎◌, inl, inr, List, [], ◌∷◌, Option,
  Option-cases, Bool-cases, if_both, ◌+◌, ◌&&◌, leb, arith,
}
use grpc_dgram.OrderedMap.{OrderedMap, get, set, has, get-set, get-delete_ne}
use grpc_dgram.Wire.Flags.{Frame}
use grpc_dgram.Server.Tombs.{
  SrvTomb, PeerState, degrade, lowest_from, evict_lowest, evict, insert_tomb, replace_tomb,
  cap_tombs, add_tomb, remove_tomb, expire_tombs, compact, sweep_tombs, hwm_aged, replay_tomb,
  stored, create,
}
use grpc_dgram.Server.Tombs.Watermark.{
  Op, opens, finishes, replays, sweeps, loses, step, steps, checkpoint, sweep_state, lose_tombs,
  degrade_all,
}
use grpc_dgram.Server.Tombs.Aging.{Rising, step-Rising, step_aged, sweep_aged, aged_later}
use grpc_dgram.Server.Tombs.Bounds.{degrade-keeps}

-- A call is answered for: by its own entry, or by the floor.
abbrev pub Covered : ℕ → PeerState → Type 0
Covered sid p = (sid ≤ p.tomb_floor) ⊎ (has sid p.tombs ≡ true)

evict_lowest-Covered : (j : ℕ) (p : PeerState) → Covered j p → Covered j (evict_lowest p)
unfolding evict_lowest has
evict_lowest-Covered j p c =
    let l = lowest_from 0 p.tombs in ground (arith, c, get-delete_ne l j p.tombs)

evict-Covered : (rounds j : ℕ) (p : PeerState) → Covered j p → Covered j (evict rounds p)
unfolding evict
evict-Covered zero j p c = c
evict-Covered (suc rounds) j p c =
    let w = evict-Covered rounds j (evict_lowest p) (evict_lowest-Covered j p c) in
    ground (arith, c, w)

cap_tombs-Covered : (j : ℕ) (p : PeerState) → Covered j p → Covered j (cap_tombs p)
unfolding cap_tombs
cap_tombs-Covered j p c =
    let k = degrade-keeps p.tomb_order j p in
    evict-Covered _ j (degrade p.tomb_order p) (ground (arith, k, c))

set-Covered :
    (sid j b : ℕ) (order : List ℕ) (tb : SrvTomb) (p : PeerState)
    → (j ≡ sid) ⊎ Covered j p
    → Covered j (record p { tombs = set sid tb p.tombs; tomb_order = order; tomb_bytes = b })
unfolding has
set-Covered sid j b order tb p c = ground (arith, get-set sid j tb p.tombs, c)

insert-Covered :
    (sid : ℕ) (term : Option Frame) (e j : ℕ) (p : PeerState)
    → (j ≡ sid) ⊎ Covered j p
    → Covered j (insert_tomb sid term e p)
unfolding insert_tomb
insert-Covered sid term e j p c = set-Covered sid j p.tomb_bytes p.tomb_order _ p c

replace-Covered :
    (sid : ℕ) (term : Option Frame) (e : ℕ) (old : SrvTomb) (j : ℕ) (p : PeerState)
    → (j ≡ sid) ⊎ Covered j p
    → Covered j (replace_tomb sid term e old p)
unfolding replace_tomb
replace-Covered sid term e old j p c = set-Covered sid j p.tomb_bytes p.tomb_order _ p c

add_tomb-Covered :
    (sid : ℕ) (term : Option Frame) (e j : ℕ) (p : PeerState)
    → (j ≡ sid) ⊎ Covered j p
    → Covered j (add_tomb sid term e p)
unfolding add_tomb
add_tomb-Covered sid term e j p c = elim (Option-cases (get sid p.tombs)) [
  | inl gone ↦ ground (
    arith,
    gone,
    c,
    cap_tombs-Covered j (insert_tomb sid term e p) (insert-Covered sid term e j p c),
  )
  | inr (old, found) ↦ ground (arith, found, c, replace-Covered sid term e old j p c)
]

remove_tomb-Covered :
    (sid j : ℕ) (p : PeerState) → Covered j p → j ≢ sid → Covered j (remove_tomb sid p)
unfolding remove_tomb has
remove_tomb-Covered sid j p c h = elim (Option-cases (get sid p.tombs)) [
  | inl gone ↦ rw (gone, remove_tomb) c
  | inr (tb, found) ↦ rw (found, remove_tomb) (ground (arith, c, get-delete_ne sid j p.tombs))
]

expire_tombs-Covered :
    (now aged j : ℕ) (m : OrderedMap SrvTomb) (p : PeerState)
    → Covered j p
    → aged < j
    → Covered j (expire_tombs now aged m p)
unfolding expire_tombs
expire_tombs-Covered now aged j [] p c h = c
expire_tombs-Covered now aged j ((sid, tb) ∷ m) p c h =
    expire_tombs-Covered now aged j m _ (ground (arith, c, remove_tomb-Covered sid j p c)) h

compact-Covered : (j : ℕ) (p : PeerState) → Covered j p → Covered j (compact p)
unfolding compact
compact-Covered j p c = ground (arith, c)

degrade_all-has : (j : ℕ) (m : OrderedMap SrvTomb) → has j (degrade_all m) ≡ has j m
unfolding degrade_all has get
degrade_all-has j [] = refl
degrade_all-has j ((k, tb) ∷ m) = ground (arith, degrade_all-has j m)

-- A call is answered for: by its own entry, by the floor, or by the aged high-water mark of the moment.
unfoldable pub Answered : ℕ → ℕ → ℕ → PeerState → Type 0
Answered ttl now sid p = Covered sid p ⊎ (sid ≤ hwm_aged now ttl p)

-- What one step does to the mark and to the entries of the other calls.
step-Covered :
    (ttl sid : ℕ) (p : PeerState) (o : Op)
    → ((now : ℕ) → o ≡ sweeps now → hwm_aged now ttl (checkpoint now ttl p) < sid)
    → Covered sid p
    → Covered sid (step ttl p o)
unfolding step sweep_state sweep_tombs lose_tombs replay_tomb
step-Covered ttl sid p (opens s) young c = c
step-Covered ttl sid p (finishes s term e) young c = add_tomb-Covered s term e sid p (inr c)
step-Covered ttl sid p (replays s now rti) young c = elim (Option-cases (get s p.tombs)) [
  | inl gone ↦ rw (gone, step) c
  | inr (tb, found) ↦
      let w =
        set-Covered tb.sid sid p.tomb_bytes p.tomb_order (record tb { last_replay = now }) p
          (inr c) in
      rw (found, step, replay_tomb)
        (if_both (λ (r : PeerState × Option Frame). Covered sid r.0)
          (stored tb && leb (tb.last_replay + rti) now) w c)
]
step-Covered ttl sid p (sweeps now) young c =
    let q = checkpoint now ttl p in
    if_both (Covered sid) p.reliable c (
      compact-Covered sid _ (
        expire_tombs-Covered now (hwm_aged now ttl q) sid q.tombs q (unfold checkpoint in c)
          (young now refl)))
step-Covered ttl sid p loses young c = rw (degrade_all-has sid p.tombs) c

-- The times of the sweeps, from one time on up to another.
abbrev pub InOrder : ℕ → List Op → ℕ → Type 0
InOrder t [] now = t ≤ now
InOrder t (sweeps at ∷ os) now = (t ≤ at) × InOrder at os now
InOrder t (_ ∷ os) now = InOrder t os now

later-Answered :
    (ttl t now sid : ℕ) (p : PeerState)
    → Rising p
    → t ≤ now
    → Answered ttl t sid p
    → Answered ttl now sid p
unfolding Answered
later-Answered ttl t now sid p r h (inl c) = inl c
later-Answered ttl t now sid p r h (inr a) = inr (aged_later ttl t now sid p r h a)

sweep_or_not : (o : Op) → ((at : ℕ) × (o ≡ sweeps at)) ⊎ ((at : ℕ) → o ≢ sweeps at)
sweep_or_not (sweeps at) = inl (at, refl)
sweep_or_not (opens s) = inr (λ at e. ground (arith, e))
sweep_or_not (finishes s term x) = inr (λ at e. ground (arith, e))
sweep_or_not (replays s t rti) = inr (λ at e. ground (arith, e))
sweep_or_not loses = inr (λ at e. ground (arith, e))

time_eq : (at n : ℕ) → sweeps at ≡ sweeps n → n ≡ at
time_eq at n e = ground (arith, e)

-- A step keeps an answer, at the time of the step if it is a sweep.
step-Answered :
    (ttl now sid : ℕ) (p : PeerState) (o : Op)
    → Rising p
    → ((at : ℕ) → o ≡ sweeps at → at ≡ now)
    → Answered ttl now sid p
    → Answered ttl now sid (step ttl p o)
unfolding Answered
step-Answered ttl now sid p o r e (inr old) = inr (step_aged ttl now sid p o r e old)
step-Answered ttl now sid p o r e (inl c) =
    elim (Bool-cases (leb sid (hwm_aged now ttl (checkpoint now ttl p)))) [
      | inl old ↦ elim (sweep_or_not o) [
        | inl (at, s) ↦
            let h : sid ≤ hwm_aged now ttl (sweep_state now ttl p) =
              sweep_aged ttl now sid p (ground (arith, old)) in
            rw (s, e at s) (inr (unfold step in h))
        | inr n ↦ inl (step-Covered ttl sid p o (λ at s. absurd (n at s)) c)
      ]
      | inr young ↦ inl (
          step-Covered ttl sid p o (λ at s. let same = e at s in rw same (ground (arith, young))) c)
    ]

steps-Answered :
    (ttl t now sid : ℕ) (p : PeerState) (os : List Op)
    → Rising p
    → InOrder t os now
    → Answered ttl t sid p
    → Answered ttl now sid (steps ttl p os)
unfolding steps
steps-Answered ttl t now sid p [] r h a = later-Answered ttl t now sid p r h a
steps-Answered ttl t now sid p (sweeps at ∷ os) r h a =
    let b =
      step-Answered ttl at sid p (sweeps at) r (λ n s. time_eq at n s)
        (later-Answered ttl t at sid p r h.0 a) in
    steps-Answered ttl at now sid _ os (step-Rising ttl p (sweeps at) r) h.1 b
steps-Answered ttl t now sid p (opens s ∷ os) r h a =
    steps-Answered ttl t now sid _ os (step-Rising ttl p (opens s) r) h
      (step-Answered ttl t sid p (opens s) r (λ n s. absurd (ground (arith, s))) a)
steps-Answered ttl t now sid p (finishes s term x ∷ os) r h a =
    steps-Answered ttl t now sid _ os (step-Rising ttl p (finishes s term x) r) h
      (step-Answered ttl t sid p (finishes s term x) r (λ n s. absurd (ground (arith, s))) a)
steps-Answered ttl t now sid p (replays s at rti ∷ os) r h a =
    steps-Answered ttl t now sid _ os (step-Rising ttl p (replays s at rti) r) h
      (step-Answered ttl t sid p (replays s at rti) r (λ n s. absurd (ground (arith, s))) a)
steps-Answered ttl t now sid p (loses ∷ os) r h a =
    steps-Answered ttl t now sid _ os (step-Rising ttl p loses r) h
      (step-Answered ttl t sid p loses r (λ n s. absurd (ground (arith, s))) a)

steps-Rising : (ttl : ℕ) (p : PeerState) (os : List Op) → Rising p → Rising (steps ttl p os)
unfolding steps
steps-Rising ttl p [] r = r
steps-Rising ttl p (o ∷ os) r = steps-Rising ttl (step ttl p o) os (step-Rising ttl p o r)

-- A call that finishes in a container is answered for at every later time that the container stands,
-- whatever calls open, finish or are replayed before and after it, whatever the caps evict, however
-- often the sweep runs and trims the checkpoints, and even if the peer is lost: by its tombstone, by the
-- floor, or by the high-water mark as it has aged by that time. The sweeps after it come in the order of
-- their times.
pub finished_is_Answered :
    (reliable : Bool) (created max_tombs max_bytes ttl : ℕ) (before : List Op) (sid : ℕ)
    (term : Option Frame) (expire_at : ℕ) (after : List Op) (now : ℕ)
    → InOrder 0 after now
    → let p = steps ttl (create reliable created max_tombs max_bytes) before in
      Answered ttl now sid (steps ttl (add_tomb sid term expire_at p) after)
unfolding step
finished_is_Answered reliable created max_tombs max_bytes ttl before sid term e after now h =
    let p = steps ttl (create reliable created max_tombs max_bytes) before in
    let r : Rising p = steps-Rising ttl _ before (unfold create Rising in omega arith) in
    steps-Answered ttl 0 now sid (add_tomb sid term e p) after
      (step-Rising ttl p (finishes sid term e) r) h
      (unfold Answered in inl (add_tomb-Covered sid term e sid p (inl refl)))
