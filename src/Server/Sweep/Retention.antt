-- ===== src/Server/Sweep/Retention.antt =====
-- A sweep keeps the counts of a peer's slot, and every container that has a call.
use grpc_dgram.Prelude.{
  ℕ, suc, ◌≤◌, ◌≡◌, refl, sym, ◌∙◌, ap, subst, inl, inr, true, not, ◌&&◌, List, [], ◌∷◌, Option,
  none, some, if◌then◌else◌, arith, Bool-cases, if_both, length, All,
}
use grpc_dgram.OrderedMap.{OrderedMap, Distinct, Fresh}
use grpc_dgram.Status.{Status}
use grpc_dgram.Wire.Flags.{Frame}
use grpc_dgram.Server.Stream.Header.{probe_due}
use grpc_dgram.Server.Table.{
  Config, Desk, Slot, Container, Live, PendingReset, slot_of, allow, put_slot,
}
use grpc_dgram.Server.Table.Counted.{Counted, Exact, total}
use grpc_dgram.Server.Dispatch.Bounded.{Sound, Same, same-Counted, Same-Sound}
use grpc_dgram.Server.Sweep.{
  sweep_at, sweep_slot, sweep_container, sweep_containers, check_peer, lose, silence_all, retired,
  probe_calls, probe_containers, fire, fire_one, prune, is_vacant, peer_lost, probe_reported,
}

-- The second container has the first one's epoch and as many calls.
abbrev Alike : Container → Container → Type 0
Alike ps ps' =
    (ps'.epoch ≡ ps.epoch) × (ps'.live_calls ≡ ps.live_calls) × (length ps'.calls ≡ length ps.calls)

length-silence_all :
    (cause : Status) (m : OrderedMap Live) → length (silence_all cause m) ≡ length m
unfolding silence_all
length-silence_all cause [] = refl
length-silence_all cause ((sid, v) ∷ m) = ap suc (length-silence_all cause m)

check_peer-Alike :
    (cfg : Config) (now : ℕ) (ps : Container) (d : Desk) → Alike ps (check_peer cfg now ps d).0
unfolding check_peer lose
check_peer-Alike cfg now ps d = ground (arith, length-silence_all peer_lost ps.calls)

sweep_container-Alike :
    (cfg : Config) (now : ℕ) (ps : Container) (d : Desk) → Alike ps (sweep_container cfg now ps d).0
unfolding sweep_container
sweep_container-Alike cfg now ps d =
    if_both (λ (r : Container × Desk). Alike ps r.0) ps.state.reliable (refl, refl, refl)
      (check_peer-Alike cfg now _ d)

-- The desk's table stands while the containers are swept.
check_peer_slot :
    (cfg : Config) (now : ℕ) (ps : Container) (d : Desk) → (check_peer cfg now ps d).1.slot ≡ d.slot
unfolding check_peer
check_peer_slot cfg now ps d = ground arith

sweep_container_slot :
    (cfg : Config) (now : ℕ) (ps : Container) (d : Desk)
    → (sweep_container cfg now ps d).1.slot ≡ d.slot
unfolding sweep_container
sweep_container_slot cfg now ps d =
    if_both (λ (r : Container × Desk). r.1.slot ≡ d.slot) ps.state.reliable refl
      (check_peer_slot cfg now _ d)

sweep_containers_slot :
    (cfg : Config) (now : ℕ) (m : OrderedMap Container) (d : Desk)
    → (sweep_containers cfg now m d).1.slot ≡ d.slot
unfolding sweep_containers
sweep_containers_slot cfg now [] d = refl
sweep_containers_slot cfg now ((e, ps) ∷ m) d =
    sweep_containers_slot cfg now m (sweep_container cfg now ps d).1
    ∙ sweep_container_slot cfg now ps d

sweep_containers-Fresh :
    (cfg : Config) (now k : ℕ) (m : OrderedMap Container) (d : Desk)
    → Fresh k m
    → Fresh k (sweep_containers cfg now m d).0
unfolding sweep_containers
sweep_containers-Fresh cfg now k [] d f = tt
sweep_containers-Fresh cfg now k ((e, ps) ∷ m) d f =
    let ih = sweep_containers-Fresh cfg now k m (sweep_container cfg now ps d).1 f.1 in
    if_both (λ (n : OrderedMap Container). Fresh k n)
      (not ps.state.reliable && retired cfg now (sweep_container cfg now ps d).0) ih (f.0, ih)

retired_idle :
    (cfg : Config) (now : ℕ) (ps : Container) → retired cfg now ps ≡ true → ps.live_calls ≡ 0
unfolding retired
retired_idle cfg now ps h = ground (arith, h)

-- The containers that a sweep leaves.
abbrev Swept : OrderedMap Container → OrderedMap Container → Type 0
Swept m m' = All Exact m' × Distinct m' × (total m' ≡ total m) × (length m' ≤ length m)

sweep_containers-Swept :
    (cfg : Config) (now : ℕ) (m : OrderedMap Container) (d : Desk)
    → All Exact m
    → Distinct m
    → Swept m (sweep_containers cfg now m d).0
unfolding sweep_containers total
sweep_containers-Swept cfg now [] d a f = (tt, tt, refl, omega arith)
sweep_containers-Swept cfg now ((e, ps) ∷ m) d a f =
    let ps1 = (sweep_container cfg now ps d).0 in
    let d1 = (sweep_container cfg now ps d).1 in
    let (e1, l1, k1) = sweep_container-Alike cfg now ps d in
    let (a2, f2, t2, n2) = sweep_containers-Swept cfg now m d1 a.1 f.1 in
    let fr = sweep_containers-Fresh cfg now e m d1 f.0 in
    elim (Bool-cases (not ps.state.reliable && retired cfg now ps1)) [
      | inl gone ↦
          let idle_ = retired_idle cfg now ps1 (ground (arith, gone)) in
          simp gone (a2, f2, omega (arith, t2, l1, idle_), omega (arith, n2))
      | inr stays ↦ simp stays (
        ((e1 ∙ a.0.0, l1 ∙ a.0.1 ∙ sym k1), a2),
        (fr, f2),
        omega (arith, t2, l1),
        omega (arith, n2),
      )
    ]

length-probe_calls :
    (cfg : Config) (now : ℕ) (m : OrderedMap Live) (d : Desk)
    → length (probe_calls cfg now m d).0 ≡ length m
unfolding probe_calls
length-probe_calls cfg now [] d = refl
length-probe_calls cfg now ((sid, v) ∷ m) d = ap suc (length-probe_calls cfg now m _)

probe_reported_slot : (f : Option Frame) (d : Desk) → (probe_reported f d).slot ≡ d.slot
unfolding probe_reported
probe_reported_slot none d = refl
probe_reported_slot (some f) d = refl

probe_calls_slot :
    (cfg : Config) (now : ℕ) (m : OrderedMap Live) (d : Desk)
    → (probe_calls cfg now m d).1.0.slot ≡ d.slot
unfolding probe_calls
probe_calls_slot cfg now [] d = refl
probe_calls_slot cfg now ((sid, v) ∷ m) d =
    let f =
      (if v.stream.reliable
        then (v.stream, none)
        else probe_due now cfg.probe cfg.epoch v.stream).1 in
    probe_calls_slot cfg now m (probe_reported f d) ∙ probe_reported_slot f d

probe_containers_slot :
    (cfg : Config) (now : ℕ) (m : OrderedMap Container) (d : Desk)
    → (probe_containers cfg now m d).1.slot ≡ d.slot
unfolding probe_containers
probe_containers_slot cfg now [] d = refl
probe_containers_slot cfg now ((e, ps) ∷ m) d =
    probe_containers_slot cfg now m (probe_calls cfg now ps.calls d).1.0
    ∙ probe_calls_slot cfg now ps.calls d

probe_containers-Fresh :
    (cfg : Config) (now k : ℕ) (m : OrderedMap Container) (d : Desk)
    → Fresh k m
    → Fresh k (probe_containers cfg now m d).0
unfolding probe_containers
probe_containers-Fresh cfg now k [] d f = tt
probe_containers-Fresh cfg now k ((e, ps) ∷ m) d f = (f.0, probe_containers-Fresh cfg now k m _ f.1)

probe_containers-Swept :
    (cfg : Config) (now : ℕ) (m : OrderedMap Container) (d : Desk)
    → All Exact m
    → Distinct m
    → Swept m (probe_containers cfg now m d).0
unfolding probe_containers total
probe_containers-Swept cfg now [] d a f = (tt, tt, refl, omega arith)
probe_containers-Swept cfg now ((e, ps) ∷ m) d a f =
    let d1 = (probe_calls cfg now ps.calls d).1.0 in
    let (a2, f2, t2, n2) = probe_containers-Swept cfg now m d1 a.1 f.1 in
    (
      ((a.0.0, a.0.1 ∙ sym (length-probe_calls cfg now ps.calls d)), a2),
      (probe_containers-Fresh cfg now e m d1 f.0, f2),
      omega (arith, t2),
      omega (arith, n2),
    )

fire_one-Same :
    (cfg : Config) (now : ℕ) (r : PendingReset) (d : Desk) → Same d (fire_one cfg now r d).0
unfolding fire_one allow slot_of
fire_one-Same cfg now r d = ground arith

fire-Same :
    (cfg : Config) (now : ℕ) (rs : List PendingReset) (d : Desk) → Same d (fire cfg now rs d).0
unfolding fire
fire-Same cfg now [] d = (refl, refl)
fire-Same cfg now (r ∷ rs) d =
    let one = fire_one-Same cfg now r d in
    let rest = fire-Same cfg now rs (fire_one cfg now r d).0 in (rest.0 ∙ one.0, rest.1 ∙ one.1)

prune-Same : (cfg : Config) (now : ℕ) (d : Desk) → Same d (prune cfg now d)
unfolding prune slot_of
prune-Same cfg now d = (refl, refl)

-- A slot with the containers that a sweep leaves.
Swept-Counted :
    (cfg : Config) (s : Slot) (m : OrderedMap Container)
    → Counted cfg s
    → Swept s.epochs m
    → Counted cfg (record s { epochs = m })
Swept-Counted cfg s m c (a, f, t, n) = record {
  each = a;
  apart = f;
  sum = c.sum ∙ sym t;
  cap = c.cap;
  few = omega (arith, n, c.few);
}

pub nothing-Counted : (cfg : Config) → Counted cfg (slot_of none)
unfolding slot_of total
nothing-Counted cfg = record {
  each = tt;
  apart = tt;
  sum = refl;
  cap = omega arith;
  few = omega arith;
}

sweep_slot-Sound :
    (cfg : Config) (now : ℕ) (s : Slot) (d : Desk)
    → Sound cfg d
    → Sound cfg (sweep_slot cfg now s d)
unfolding sweep_slot
sweep_slot-Sound cfg now s d c =
    let (d1, pending) = fire cfg now s.pending_resets d in
    let c1 = Same-Sound cfg d d1 (fire-Same cfg now s.pending_resets d) c in
    let d1' = put_slot (record (slot_of d1.slot) { pending_resets = pending }) d1 in
    let c1' : Sound cfg d1' =
      unfold slot_of in
      same-Counted cfg (slot_of d1.slot) (record (slot_of d1.slot) { pending_resets = pending })
        refl refl c1 in
    let d2 = prune cfg now d1' in
    let c2 = Same-Sound cfg d1' d2 (prune-Same cfg now d1') c1' in
    let (m3, d3) = sweep_containers cfg now (slot_of d2.slot).epochs d2 in
    let (a3, f3, t3, n3) =
      sweep_containers-Swept cfg now (slot_of d2.slot).epochs d2 c2.each c2.apart in
    let (m4, d4) = probe_containers cfg now m3 d3 in
    let (a4, f4, t4, n4) = probe_containers-Swept cfg now m3 d3 a3 f3 in
    let same : d4.slot ≡ d2.slot =
      probe_containers_slot cfg now m3 d3
      ∙ sweep_containers_slot cfg now (slot_of d2.slot).epochs d2 in
    let left : Swept (slot_of d2.slot).epochs m4 = (a4, f4, t4 ∙ t3, omega (arith, n3, n4)) in
    let c4 : Counted cfg (record (slot_of d4.slot) { epochs = m4 }) =
      subst (λ (o : Option Slot). Counted cfg (record (slot_of o) { epochs = m4 })) (sym same)
        (Swept-Counted cfg (slot_of d2.slot) m4 c2 left) in
    let kept : Counted cfg (slot_of (some (record (slot_of d4.slot) { epochs = m4 }))) =
      unfold slot_of in c4 in
    if_both (λ (o : Option Slot). Counted cfg (slot_of o))
      (is_vacant (record (slot_of d4.slot) { epochs = m4 })) (nothing-Counted cfg) kept

-- A sweep keeps the counts.
pub sweep-Sound :
    (cfg : Config) (now : ℕ) (o : Option Slot) (d : Desk)
    → Sound cfg d
    → Sound cfg (sweep_at cfg now o d)
unfolding sweep_at
sweep-Sound cfg now none d c = c
sweep-Sound cfg now (some s) d c = sweep_slot-Sound cfg now s d c
