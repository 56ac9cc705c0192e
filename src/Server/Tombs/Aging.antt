-- ===== src/Server/Tombs/Aging.antt =====
-- The aged high-water mark of `PeerState` in ts/src/server.ts never falls as time goes on, although the
-- sweep forgets all old checkpoints but one.
mod Marks
use grpc_dgram.Prelude.{
  ℕ, zero, suc, ◌+◌, ◌≤◌, ◌≡◌, refl, true, false, ◌⊎◌, inl, inr, List, [], ◌∷◌, ◌++◌, Option,
  Option-cases, Bool-cases, if_both, ltb, leb, length, ◌&&◌, max, if◌then◌else◌, arith, ◌∙◌,
}
use grpc_dgram.OrderedMap.{OrderedMap, get}
use grpc_dgram.Wire.Flags.{Frame}
use grpc_dgram.Server.Tombs.{
  SrvTomb, HwmCheckpoint, PeerState, aged_from, hwm_aged, key_only, degrade_one, degrade,
  evict_lowest, evict, cap_tombs, insert_tomb, replace_tomb, add_tomb, remove_tomb, expire_tombs,
  compact, sweep_tombs, replay_tomb,
}
use grpc_dgram.Server.Tombs.Watermark.{
  Op, opens, finishes, replays, sweeps, loses, step, checkpoint, trim_checkpoints, sweep_state,
  lose_tombs, raise_hwm,
}
use grpc_dgram.Server.Tombs.Aging.Marks.{
  SameMarks, add_tomb_marks, sweep_tombs_marks, replay_tomb_marks,
}

-- The checkpoints' marks rise, from one mark to another.
abbrev Between : ℕ → ℕ → List HwmCheckpoint → Type 0
Between a b [] = a ≤ b
Between a b (cp ∷ cps) = (a ≤ cp.hwm) × Between cp.hwm b cps

unfoldable pub Rising : PeerState → Type 0
Rising p = Between 0 p.hwm p.cps

-- Some checkpoint is old enough at the time and covers the call.
abbrev Old : ℕ → ℕ → ℕ → List HwmCheckpoint → Type 0
Old ttl now sid [] = ⊥
Old ttl now sid (cp ∷ cps) = ((sid ≤ cp.hwm) × (cp.at + ttl ≤ now)) ⊎ Old ttl now sid cps

Between-weaken :
    (a a' b b' : ℕ) (cps : List HwmCheckpoint)
    → a' ≤ a
    → b ≤ b'
    → Between a b cps
    → Between a' b' cps
Between-weaken a a' b b' [] h h' r = omega (arith, h, h', r)
Between-weaken a a' b b' (cp ∷ cps) h h' r =
    (omega (arith, h, r.0), Between-weaken cp.hwm cp.hwm b b' cps (omega arith) h' r.1)

Between-append :
    (a b at : ℕ) (cps : List HwmCheckpoint)
    → Between a b cps
    → Between a b (cps ++ ((record { at = at; hwm = b }) ∷ []))
Between-append a b at [] r = (r, omega arith)
Between-append a b at (cp ∷ cps) r = (r.0, Between-append cp.hwm b at cps r.1)

Between-trim :
    (now ttl a b : ℕ) (cps : List HwmCheckpoint)
    → Between a b cps
    → Between a b (trim_checkpoints now ttl cps)
unfolding trim_checkpoints
Between-trim now ttl a b [] r = r
Between-trim now ttl a b (c ∷ []) r = r
Between-trim now ttl a b (c ∷ (d ∷ cps)) r =
    if_both (Between a b) (leb (d.at + ttl) now)
      (Between-trim now ttl a b (d ∷ cps)
        (Between-weaken c.hwm a b b (d ∷ cps) r.0 (omega arith) r.1))
      r

Old-append :
    (ttl now sid : ℕ) (cps ds : List HwmCheckpoint)
    → Old ttl now sid cps
    → Old ttl now sid (cps ++ ds)
Old-append ttl now sid [] ds o = absurd o
Old-append ttl now sid (cp ∷ cps) ds (inl h) = inl h
Old-append ttl now sid (cp ∷ cps) ds (inr o) = inr (Old-append ttl now sid cps ds o)

Old-later :
    (ttl now later sid : ℕ) (cps : List HwmCheckpoint)
    → now ≤ later
    → Old ttl now sid cps
    → Old ttl later sid cps
Old-later ttl now later sid [] h o = o
Old-later ttl now later sid (cp ∷ cps) h (inl (s, e)) = inl (s, omega (arith, e, h))
Old-later ttl now later sid (cp ∷ cps) h (inr o) = inr (Old-later ttl now later sid cps h o)

-- What the sweep forgets is covered by what it keeps.
Old-trim :
    (ttl now sid b : ℕ) (cps : List HwmCheckpoint)
    → Between 0 b cps
    → Old ttl now sid cps
    → Old ttl now sid (trim_checkpoints now ttl cps)
unfolding trim_checkpoints
Old-trim ttl now sid b [] r o = o
Old-trim ttl now sid b (c ∷ []) r o = o
Old-trim ttl now sid b (c ∷ (d ∷ cps)) r o = elim (Bool-cases (leb (d.at + ttl) now)) [
  | inl e ↦
      rw e (Old-trim ttl now sid b (d ∷ cps) (omega arith, r.1.1) (still (ground (arith, e)) o))
  | inr e ↦ rw e o
]
  where
    still : d.at + ttl ≤ now → Old ttl now sid (c ∷ (d ∷ cps)) → Old ttl now sid (d ∷ cps)
    still e (inl (s, _)) = inl (omega (arith, s, r.1.0), e)
    still e (inr o) = o

aged_from_least :
    (now ttl a b : ℕ) (cps : List HwmCheckpoint) → Between a b cps → a ≤ aged_from now ttl a cps
unfolding aged_from
aged_from_least now ttl a b [] r = omega arith
aged_from_least now ttl a b (cp ∷ cps) r =
    let old = aged_from_least now ttl cp.hwm b cps r.1 in
    let young =
      aged_from_least now ttl a b cps (Between-weaken cp.hwm a b b cps r.0 (omega arith) r.1) in
    ground (arith, old, young, r.0)

Old-aged_from :
    (now ttl a b sid : ℕ) (cps : List HwmCheckpoint)
    → Between a b cps
    → Old ttl now sid cps
    → sid ≤ aged_from now ttl a cps
unfolding aged_from
Old-aged_from now ttl a b sid [] r o = absurd o
Old-aged_from now ttl a b sid (cp ∷ cps) r (inl (s, e)) =
    let old = aged_from_least now ttl cp.hwm b cps r.1 in ground (arith, old, s, e)
Old-aged_from now ttl a b sid (cp ∷ cps) r (inr o) =
    let old = Old-aged_from now ttl cp.hwm b sid cps r.1 o in
    let young =
      Old-aged_from now ttl a b sid cps (Between-weaken cp.hwm a b b cps r.0 (omega arith) r.1) o in
    ground (arith, old, young)

aged_from-Old :
    (now ttl a sid : ℕ) (cps : List HwmCheckpoint)
    → sid ≤ aged_from now ttl a cps
    → (sid ≤ a) ⊎ Old ttl now sid cps
unfolding aged_from
aged_from-Old now ttl a sid [] h = inl h
aged_from-Old now ttl a sid (cp ∷ cps) h = elim (Bool-cases (leb (cp.at + ttl) now)) [
  | inl e ↦ elim (aged_from-Old now ttl cp.hwm sid cps (rw e at h)) [
    | inl s ↦ inr (inl (s, ground (arith, e)))
    | inr o ↦ inr (inr o)
  ]
  | inr e ↦ elim (aged_from-Old now ttl a sid cps (rw e at h)) [
    | inl s ↦ inl s
    | inr o ↦ inr (inr o)
  ]
]

-- As time goes on, the aged mark does not fall.
pub aged_later :
    (ttl now later sid : ℕ) (p : PeerState)
    → Rising p
    → now ≤ later
    → sid ≤ hwm_aged now ttl p
    → sid ≤ hwm_aged later ttl p
unfolding hwm_aged Rising
aged_later ttl now later sid p r h a = elim (Bool-cases p.reliable) [
  | inl e ↦ rw (e, hwm_aged) (rw (e, hwm_aged) at a)
  | inr e ↦
      rw (e, hwm_aged)
        (elim (aged_from-Old now ttl 0 sid p.cps (rw (e, hwm_aged) at a)) [
          | inl z ↦ omega (arith, z)
          | inr o ↦
              Old-aged_from later ttl 0 p.hwm sid p.cps r (Old-later ttl now later sid p.cps h o)
        ])
]

-- A new checkpoint and the trimming leave the mark where it was, or raise it.
checkpoint-Rising : (now ttl : ℕ) (p : PeerState) → Rising p → Rising (checkpoint now ttl p)
unfolding checkpoint Rising
checkpoint-Rising now ttl p r = Between-trim now ttl 0 p.hwm _ (Between-append 0 p.hwm now p.cps r)

checkpoint_aged :
    (ttl now sid : ℕ) (p : PeerState)
    → Rising p
    → sid ≤ hwm_aged now ttl p
    → sid ≤ hwm_aged now ttl (checkpoint now ttl p)
unfolding hwm_aged Rising checkpoint
checkpoint_aged ttl now sid p r a = elim (Bool-cases p.reliable) [
  | inl e ↦ rw (e, hwm_aged) (rw (e, hwm_aged) at a)
  | inr e ↦
      rw (e, hwm_aged)
        (elim (aged_from-Old now ttl 0 sid p.cps (rw (e, hwm_aged) at a)) [
          | inl z ↦ omega (arith, z)
          | inr o ↦
              let more = Between-append 0 p.hwm now p.cps r in
              Old-aged_from now ttl 0 p.hwm sid _ (Between-trim now ttl 0 p.hwm _ more)
                (Old-trim ttl now sid p.hwm _ more (Old-append ttl now sid p.cps _ o))
        ])
]

aged_same :
    (ttl now : ℕ) (p q : PeerState) → SameMarks p q → hwm_aged now ttl q ≡ hwm_aged now ttl p
unfolding hwm_aged
aged_same ttl now p q (a, b, c) = rw (a, b, c) refl

Rising-same : (p q : PeerState) → SameMarks p q → Rising p → Rising q
unfolding Rising
Rising-same p q (a, b, c) r = rw (b, c) r

reliable_aged : (now ttl : ℕ) (p : PeerState) → p.reliable ≡ true → hwm_aged now ttl p ≡ p.hwm
unfolding hwm_aged
reliable_aged now ttl p e = ground arith

reliable_sweep : (now ttl : ℕ) (p : PeerState) → p.reliable ≡ true → sweep_state now ttl p ≡ p
unfolding sweep_state
reliable_sweep now ttl p e = simp e refl

unreliable_sweep :
    (now ttl : ℕ) (p : PeerState)
    → p.reliable ≡ false
    → sweep_state now ttl p ≡ sweep_tombs now ttl (checkpoint now ttl p)
unfolding sweep_state
unreliable_sweep now ttl p e = simp e refl

-- The sweep tests the tombstones against the mark that it leaves.
pub sweep_aged :
    (ttl now sid : ℕ) (p : PeerState)
    → sid ≤ hwm_aged now ttl (checkpoint now ttl p)
    → sid ≤ hwm_aged now ttl (sweep_state now ttl p)
unfolding sweep_state
sweep_aged ttl now sid p h = elim (Bool-cases p.reliable) [
  | inl e ↦
      let q = checkpoint now ttl p in
      let before = reliable_aged now ttl q (unfold checkpoint in e) in
      let hwm : q.hwm ≡ p.hwm = unfold checkpoint in refl in
      rw (reliable_sweep now ttl p e) (omega (arith, before, reliable_aged now ttl p e, hwm, h))
  | inr e ↦
      let q = checkpoint now ttl p in
      simp
        (
          unreliable_sweep now ttl p e,
          aged_same ttl now q (sweep_tombs now ttl q) (sweep_tombs_marks now ttl q),
        )
        h
]

pub step-Rising : (ttl : ℕ) (p : PeerState) (o : Op) → Rising p → Rising (step ttl p o)
unfolding step sweep_state lose_tombs
step-Rising ttl p (opens sid) r =
    unfold Rising in Between-weaken 0 0 p.hwm (max p.hwm sid) p.cps (omega arith) (omega arith) r
step-Rising ttl p (finishes sid term e) r = Rising-same p _ (add_tomb_marks sid term e p) r
step-Rising ttl p (replays sid now rti) r = elim (Option-cases (get sid p.tombs)) [
  | inl gone ↦ rw (gone, step) r
  | inr (tb, found) ↦ rw (found, step) (Rising-same p _ (replay_tomb_marks tb now rti p) r)
]
step-Rising ttl p (sweeps now) r =
    let q = checkpoint now ttl p in
    if_both Rising p.reliable r
      (Rising-same q _ (sweep_tombs_marks now ttl q) (checkpoint-Rising now ttl p r))
step-Rising ttl p loses r = Rising-same p _ (refl, refl, refl) r

opens_aged :
    (ttl now sid s : ℕ) (p : PeerState)
    → sid ≤ hwm_aged now ttl p
    → sid ≤ hwm_aged now ttl (raise_hwm s p)
unfolding hwm_aged
opens_aged ttl now sid s p a = ground arith

-- What the mark covers at one time it covers after any step that comes later.
pub step_aged :
    (ttl now sid : ℕ) (p : PeerState) (o : Op)
    → Rising p
    → ((at : ℕ) → o ≡ sweeps at → at ≡ now)
    → sid ≤ hwm_aged now ttl p
    → sid ≤ hwm_aged now ttl (step ttl p o)
unfolding step lose_tombs
step_aged ttl now sid p (opens s) r e a = opens_aged ttl now sid s p a
step_aged ttl now sid p (finishes s term x) r e a =
    rw (aged_same ttl now p (add_tomb s term x p) (add_tomb_marks s term x p)) a
step_aged ttl now sid p (replays s at rti) r e a = elim (Option-cases (get s p.tombs)) [
  | inl gone ↦ rw (gone, step) a
  | inr (tb, found) ↦
      rw (found, step)
        (rw (aged_same ttl now p (replay_tomb tb at rti p).0 (replay_tomb_marks tb at rti p)) a)
]
step_aged ttl now sid p (sweeps at) r e a =
    let same = e at refl in rw same (sweep_aged ttl now sid p (checkpoint_aged ttl now sid p r a))
step_aged ttl now sid p loses r e a = unfold hwm_aged in a
