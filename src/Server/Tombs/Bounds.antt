-- ===== src/Server/Tombs/Bounds.antt =====
-- The caps of the tombstones, and the calls they still answer for.
pub mod Entries
use grpc_dgram.Prelude.{
  ℕ, zero, suc, ◌+◌, ◌-◌, ◌≤◌, ◌<◌, ◌≡◌, refl, Bool, true, false, ◌⊎◌, inl, inr, List, [], ◌∷◌,
  Option, none, some, Option-cases, ltb, ◌==◌, ◌||◌, if◌then◌else◌, length, arith, All, if_both,
}
use grpc_dgram.OrderedMap.{
  OrderedMap, get, set, delete, has, Distinct, Fresh, set-Distinct, delete-Distinct, length-set,
  length-delete, get-set, All-set, All-delete, All-get,
}
use grpc_dgram.Wire.Flags.{Frame}
use grpc_dgram.Server.Tombs.{
  SrvTomb, PeerState, term_size, degrade_one, degrade, lowest_from, size_of, evict_lowest, evict,
  insert_tomb, replace_tomb, cap_tombs, add_tomb, remove_tomb, key_only, expire_tombs, compact,
  sweep_tombs, hwm_aged, create, replay_tomb,
}
use grpc_dgram.Server.Tombs.Watermark.{
  Op, opens, finishes, replays, sweeps, loses, step, steps, checkpoint, sweep_state, lose_tombs,
  degrade_all, sizes,
}
use grpc_dgram.Server.Tombs.Bounds.Entries.{
  total, set-total, delete-total, stored_bytes, IsMeasured, term_size_lem, total_bytes, Above,
  set-Above, delete-Above, lowest-AtLeast, Fresh-Above, delete-Fresh_self, delete-AtLeast,
}

pub record IsSound (p : PeerState) : Type 0 where
  pub few : length p.tombs ≤ p.max_tombs
  pub counted : p.tomb_bytes ≡ total p.tombs
  pub once : Distinct p.tombs
  pub above : Above p.tomb_floor p.tombs
  pub measured : All IsMeasured p.tombs

-- The same while the entry cap may be exceeded.
record IsCounted (p : PeerState) : Type 0 where
  counted : p.tomb_bytes ≡ total p.tombs
  once : Distinct p.tombs
  above : Above p.tomb_floor p.tombs
  measured : All IsMeasured p.tombs

set-IsCounted :
    (sid b : ℕ) (order : List ℕ) (tb : SrvTomb) (p : PeerState)
    → IsCounted p
    → p.tomb_floor < sid
    → IsMeasured (sid, tb)
    → b + size_of (get sid p.tombs) ≡ p.tomb_bytes + tb.size
    → IsCounted (record p { tombs = set sid tb p.tombs; tomb_order = order; tomb_bytes = b })
set-IsCounted sid b order tb p v h g e =
    let a = set-total sid tb p.tombs in
    let d = set-Distinct sid tb p.tombs v.once in
    let u = set-Above p.tomb_floor sid tb p.tombs h v.above in
    record {
      counted = omega (arith, a, e, v.counted);
      once = d;
      above = u;
      measured = All-set IsMeasured sid tb p.tombs g v.measured;
    }

Above-get :
    (f k : ℕ) (tb : SrvTomb) (m : OrderedMap SrvTomb) → Above f m → get k m ≡ some tb → f < k
unfolding get
Above-get f k tb [] a h = ground arith
Above-get f k tb ((j, w) ∷ m) a h = ground (arith, Above-get f k tb m a.1)

size-total : (k : ℕ) (m : OrderedMap SrvTomb) → size_of (get k m) ≤ total m
size-total k m = omega (arith, delete-total k m)

degrade_one-IsCounted : (sid : ℕ) (p : PeerState) → IsCounted p → IsCounted (degrade_one sid p)
unfolding degrade_one key_only
degrade_one-IsCounted sid p v = elim (Option-cases (get sid p.tombs)) [
  | inl gone ↦ rw (gone, degrade_one) v
  | inr (tb, found) ↦
      let h = Above-get p.tomb_floor sid tb p.tombs v.above found in
      let e = size-total sid p.tombs in
      let g = All-get IsMeasured sid p.tombs tb v.measured found in
      let w =
        set-IsCounted sid (p.tomb_bytes - tb.size) p.tomb_order
          (record tb { term = none; size = 0 }) p v h (g.0, refl)
          (ground (arith, e, v.counted, found)) in
      elim (Option-cases tb.term) [
        | inl t ↦ rw (found, degrade_one, t, key_only) v
        | inr (f, t) ↦ rw (found, degrade_one, t, key_only) w
      ]
]

degrade-IsCounted : (order : List ℕ) (p : PeerState) → IsCounted p → IsCounted (degrade order p)
unfolding degrade
degrade-IsCounted [] p v = v
degrade-IsCounted (sid ∷ order) p v =
    let w = degrade-IsCounted order (degrade_one sid p) (degrade_one-IsCounted sid p v) in
    ground (arith, v, w)

-- The caps are the container's own, and degrading keeps every key.
degrade_one-keeps :
    (sid j : ℕ) (p : PeerState)
    → (has j (degrade_one sid p).tombs ≡ has j p.tombs)
      × (length (degrade_one sid p).tombs ≡ length p.tombs)
      × ((degrade_one sid p).max_tombs ≡ p.max_tombs)
      × ((degrade_one sid p).tomb_floor ≡ p.tomb_floor)
      × ((degrade_one sid p).max_tomb_bytes ≡ p.max_tomb_bytes)
unfolding degrade_one key_only has
degrade_one-keeps sid j p = elim (Option-cases (get sid p.tombs)) [
  | inl gone ↦ rw (gone, degrade_one) (refl, refl, refl, refl, refl)
  | inr (tb, found) ↦
      let tb' = record tb { term = none; size = 0 } in
      let a = get-set sid j tb' p.tombs in
      let b = length-set sid tb' p.tombs in
      elim (Option-cases tb.term) [
        | inl t ↦ rw (found, degrade_one, t, key_only) (refl, refl, refl, refl, refl)
        | inr (f, t) ↦ rw (found, degrade_one, t, key_only) (ground (arith, a, b, found))
      ]
]

pub degrade-keeps :
    (order : List ℕ) (j : ℕ) (p : PeerState)
    → (has j (degrade order p).tombs ≡ has j p.tombs)
      × (length (degrade order p).tombs ≡ length p.tombs)
      × ((degrade order p).max_tombs ≡ p.max_tombs)
      × ((degrade order p).tomb_floor ≡ p.tomb_floor)
      × ((degrade order p).max_tomb_bytes ≡ p.max_tomb_bytes)
unfolding degrade
degrade-keeps [] j p = (refl, refl, refl, refl, refl)
degrade-keeps (sid ∷ order) j p =
    ground (arith, degrade-keeps order j (degrade_one sid p), degrade_one-keeps sid j p)

Above-le : (f g : ℕ) (m : OrderedMap SrvTomb) → f ≤ g → Above g m → Above f m
Above-le f g [] h a = tt
Above-le f g ((k, tb) ∷ m) h a = (omega (arith, h, a.0), Above-le f g m h a.1)

lowest-has : (m : OrderedMap SrvTomb) → Above 0 m → 0 < length m → has (lowest_from 0 m) m ≡ true
unfolding lowest_from has get
lowest-has [] a h = ground arith
lowest-has ((k, tb) ∷ m) a h = ground (arith, lowest-AtLeast k m a.1)

evict_lowest-IsCounted : (p : PeerState) → IsCounted p → IsCounted (evict_lowest p)
unfolding evict_lowest
evict_lowest-IsCounted p v =
    let l = lowest_from 0 p.tombs in
    let low =
      (lowest-AtLeast 0 p.tombs (Above-le 0 p.tomb_floor p.tombs (omega arith) v.above)).0 in
    let rest =
      Fresh-Above l (delete l p.tombs) (delete-Fresh_self l p.tombs v.once)
        (delete-AtLeast l l p.tombs low) in
    let kept = delete-Above p.tomb_floor l p.tombs v.above in
    let d = delete-Distinct l p.tombs v.once in
    let t = delete-total l p.tombs in
    let g = All-delete IsMeasured l p.tombs v.measured in
    ground (arith, rest, kept, d, t, v.counted, g)

evict_lowest-length :
    (p : PeerState)
    → IsCounted p
    → 0 < length p.tombs
    → suc (length (evict_lowest p).tombs) ≡ length p.tombs
unfolding evict_lowest
evict_lowest-length p v h =
    let a = lowest-has p.tombs (Above-le 0 p.tomb_floor p.tombs (omega arith) v.above) h in
    let b = length-delete (lowest_from 0 p.tombs) p.tombs in ground (arith, a, b)

evict-IsSound :
    (rounds : ℕ) (p : PeerState) → IsCounted p → length p.tombs ≤ rounds → IsSound (evict rounds p)
unfolding evict
evict-IsSound zero p v h = record {
  few = omega (arith, h);
  counted = v.counted;
  once = v.once;
  above = v.above;
  measured = v.measured;
}
evict-IsSound (suc rounds) p v h =
    elim (ltb p.max_tombs (length p.tombs))
        as (λ b.
          (ltb p.max_tombs (length p.tombs) ≡ b)
          → IsSound (if b then evict rounds (evict_lowest p) else p)) [
            | true ↦ λ e.
                evict-IsSound rounds (evict_lowest p) (evict_lowest-IsCounted p v)
                  (ground (arith, evict_lowest-length p v, e, h))
            | false ↦ λ e. record {
              few = ground (arith, e);
              counted = v.counted;
              once = v.once;
              above = v.above;
              measured = v.measured;
            }
          ]
      refl

cap_tombs-IsSound : (p : PeerState) → IsCounted p → IsSound (cap_tombs p)
unfolding cap_tombs
cap_tombs-IsSound p v =
    evict-IsSound _ (degrade p.tomb_order p) (degrade-IsCounted p.tomb_order p v) (omega arith)

weaken : (p : PeerState) → IsSound p → IsCounted p
weaken p v = record { counted = v.counted; once = v.once; above = v.above; measured = v.measured }

insert-IsCounted :
    (sid : ℕ) (term : Option Frame) (e : ℕ) (p : PeerState)
    → IsSound p
    → p.tomb_floor < sid
    → get sid p.tombs ≡ none
    → IsCounted (insert_tomb sid term e p)
unfolding insert_tomb
insert-IsCounted sid term e p v h gone =
    set-IsCounted sid _ _ _ p (weaken p v) h (refl, term_size_lem term) (ground (arith, gone))

replace-IsSound :
    (sid : ℕ) (term : Option Frame) (e : ℕ) (old : SrvTomb) (p : PeerState)
    → IsSound p
    → p.tomb_floor < sid
    → get sid p.tombs ≡ some old
    → IsSound (replace_tomb sid term e old p)
unfolding replace_tomb has
replace-IsSound sid term e old p v h found =
    let t = size-total sid p.tombs in
    let tb = record old {
      term = term;
      size = term_size term;
      expire_at = if ltb old.expire_at e then e else old.expire_at;
    } in
    let w =
      set-IsCounted sid (p.tomb_bytes + term_size term - old.size) p.tomb_order tb p (weaken p v) h
        ((All-get IsMeasured sid p.tombs old v.measured found).0, term_size_lem term)
        (ground (arith, t, found, v.counted)) in
    let l = length-set sid tb p.tombs in
    record {
      few = ground (arith, l, found, v.few);
      counted = w.counted;
      once = w.once;
      above = w.above;
      measured = w.measured;
    }

-- Recording a finished call keeps the entry cap, the byte count that the byte cap is measured by, one
-- entry for a call, and every entry above the floor.
pub add_tomb-IsSound :
    (sid : ℕ) (term : Option Frame) (expire_at : ℕ) (p : PeerState)
    → IsSound p
    → IsSound (add_tomb sid term expire_at p)
unfolding add_tomb
add_tomb-IsSound sid term e p v = elim (Option-cases (get sid p.tombs)) [
  | inl gone ↦ ground (
    arith,
    gone,
    λ (h : p.tomb_floor < sid).
        cap_tombs-IsSound (insert_tomb sid term e p) (insert-IsCounted sid term e p v h gone),
  )
  | inr (old, found) ↦
      ground (arith, found, λ (h : p.tomb_floor < sid). replace-IsSound sid term e old p v h found)
]

remove_tomb-IsSound : (sid : ℕ) (p : PeerState) → IsSound p → IsSound (remove_tomb sid p)
unfolding remove_tomb
remove_tomb-IsSound sid p v = elim (Option-cases (get sid p.tombs)) [
  | inl gone ↦ rw (gone, remove_tomb) v
  | inr (tb, found) ↦
      let d = delete-Distinct sid p.tombs v.once in
      let a = delete-Above p.tomb_floor sid p.tombs v.above in
      let t = delete-total sid p.tombs in
      let l = length-delete sid p.tombs in
      let g = All-delete IsMeasured sid p.tombs v.measured in
      rw (found, remove_tomb) (ground (arith, d, a, t, l, found, v.counted, v.few, g))
]

expire_tombs-IsSound :
    (now aged : ℕ) (m : OrderedMap SrvTomb) (p : PeerState)
    → IsSound p
    → IsSound (expire_tombs now aged m p)
unfolding expire_tombs
expire_tombs-IsSound now aged [] p v = v
expire_tombs-IsSound now aged ((sid, tb) ∷ m) p v =
    let w = remove_tomb-IsSound sid p v in expire_tombs-IsSound now aged m _ (ground (arith, v, w))

compact-IsSound : (p : PeerState) → IsSound p → IsSound (compact p)
unfolding compact
compact-IsSound p v = ground arith

-- A replay marks its tombstone.
replays-IsSound :
    (tb : SrvTomb) (sid now rti : ℕ) (p : PeerState)
    → IsSound p
    → get sid p.tombs ≡ some tb
    → IsSound (replay_tomb tb now rti p).0
unfolding replay_tomb has
replays-IsSound tb sid now rti p v found =
    let g = All-get IsMeasured sid p.tombs tb v.measured found in
    let tb' = record tb { last_replay = now } in
    let h = Above-get p.tomb_floor sid tb p.tombs v.above found in
    let w =
      set-IsCounted sid p.tomb_bytes p.tomb_order tb' p (weaken p v) h g (ground (arith, found)) in
    let l = length-set sid tb' p.tombs in
    let few' : length (set sid tb' p.tombs) ≤ p.max_tombs = ground (arith, l, found, v.few) in
    rw g.0 (ground (arith, v, w, few'))

degrade_all-Fresh : (k : ℕ) (m : OrderedMap SrvTomb) → Fresh k m → Fresh k (degrade_all m)
unfolding degrade_all
degrade_all-Fresh k [] f = tt
degrade_all-Fresh k ((j, tb) ∷ m) f = (f.0, degrade_all-Fresh k m f.1)

degrade_all_lem :
    (f : ℕ) (m : OrderedMap SrvTomb)
    → (length (degrade_all m) ≡ length m)
      × (total (degrade_all m) ≡ 0)
      × (sizes m ≡ total m)
      × (Above f m → Above f (degrade_all m))
      × (Distinct m → Distinct (degrade_all m))
      × (All IsMeasured m → All IsMeasured (degrade_all m))
unfolding degrade_all total sizes
degrade_all_lem f [] = (refl, refl, refl, λ a. a, λ d. d, λ g. g)
degrade_all_lem f ((k, tb) ∷ m) =
    let (l, t, s, a, d, g) = degrade_all_lem f m in
    (
      omega (arith, l),
      omega (arith, t),
      omega (arith, s),
      λ h. (h.0, a h.1),
      λ h. (degrade_all-Fresh k m h.0, d h.1),
      λ h. ((h.0.0, refl), g h.1),
    )

lose_tombs-IsSound : (p : PeerState) → IsSound p → IsSound (lose_tombs p)
unfolding lose_tombs
lose_tombs-IsSound p v =
    let (l, t, s, a, d, g) = degrade_all_lem p.tomb_floor p.tombs in
    record {
      few = omega (arith, l, v.few);
      counted = omega (arith, t, s, v.counted);
      once = d v.once;
      above = a v.above;
      measured = g v.measured;
    }

sweep_state-IsSound : (now ttl : ℕ) (p : PeerState) → IsSound p → IsSound (sweep_state now ttl p)
unfolding sweep_state sweep_tombs
sweep_state-IsSound now ttl p v =
    let q = checkpoint now ttl p in
    let w : IsSound q =
      unfold checkpoint in
      record {
        few = v.few;
        counted = v.counted;
        once = v.once;
        above = v.above;
        measured = v.measured;
      } in
    if_both IsSound p.reliable v
      (compact-IsSound _ (expire_tombs-IsSound now (hwm_aged now ttl q) q.tombs q w))

step-IsSound : (ttl : ℕ) (p : PeerState) (o : Op) → IsSound p → IsSound (step ttl p o)
unfolding step
step-IsSound ttl p (opens sid) v = record {
  few = v.few;
  counted = v.counted;
  once = v.once;
  above = v.above;
  measured = v.measured;
}
step-IsSound ttl p (finishes sid term e) v = add_tomb-IsSound sid term e p v
step-IsSound ttl p (replays sid now rti) v = elim (Option-cases (get sid p.tombs)) [
  | inl gone ↦ rw (gone, step) v
  | inr (tb, found) ↦ rw (found, step) (replays-IsSound tb sid now rti p v found)
]
step-IsSound ttl p (sweeps now) v = sweep_state-IsSound now ttl p v
step-IsSound ttl p loses v = lose_tombs-IsSound p v

run-IsSound : (ttl : ℕ) (p : PeerState) (os : List Op) → IsSound p → IsSound (steps ttl p os)
unfolding steps
run-IsSound ttl p [] v = v
run-IsSound ttl p (o ∷ os) v = run-IsSound ttl (step ttl p o) os (step-IsSound ttl p o v)

-- Whatever calls open, finish or are replayed in a new container, however often the sweep runs and even
-- if the peer is lost: there are at most as many tombstones as the cap, one for a call, under its
-- number and above the floor, and the byte count is the length of all payloads that they store.
pub tombs-IsSound :
    (reliable : Bool) (at max_tombs max_bytes ttl : ℕ) (os : List Op)
    → let p = steps ttl (create reliable at max_tombs max_bytes) os in
      IsSound p × (p.tomb_bytes ≡ stored_bytes p.tombs)
tombs-IsSound reliable at max_tombs max_bytes ttl os =
    let v =
      run-IsSound ttl (create reliable at max_tombs max_bytes) os
        (unfold create total in (ground arith)) in
    (v, ground (arith, v.counted, total_bytes _ v.measured))
