-- ===== src/Flow/Ledger/Credit.antt =====
-- The credit that the ledger returns: what each incarnation's frames took, to that incarnation.
use grpc_dgram.Prelude.{ℕ, ◌+◌, ◌-◌, ◌*◌, ◌≤◌, ◌<◌, ◌≡◌, ◌≢◌, ◌∙◌, refl, true, ◌⊎◌, arith, min}
use grpc_dgram.OrderedMap.{
  Distinct, get-set_self, get-set_ne, get-delete_self, get-delete_ne, set-Distinct, delete-Distinct,
}
use grpc_dgram.Flow.Ledger.{PeerFlowRx, held, hold, due, retire, unadmitted, u32_max}

-- `l'` and the grant `g` account for `n` more frames of incarnation `e`: its credit is held back or
-- granted, nothing else is touched, and what is held back is too little to leave its sender stuck.
pub record Returned (e n : ℕ) (l l' : PeerFlowRx) (g : ℕ) : Type 0 where
  pub kept : held e l' + g ≡ held e l + n
  pub others : (j : ℕ) → j ≢ e → held j l' ≡ held j l
  pub small :
      (held e l' ≡ 0)
      ⊎ ((g ≡ 0) × (held e l' * 2 < l'.window) × (l'.outstanding + held e l' < l'.window))
  pub window_same : l'.window ≡ l.window
  pub distinct : Distinct l'.pending
  pub evicted_same : l'.evicted ≡ l.evicted

due_cases :
    (e : ℕ) (k : PeerFlowRx)
    → Distinct k.pending
    → (held e (due e k).0 + (due e k).1 ≡ held e k)
      × ((held e (due e k).0 ≡ 0)
          ⊎ (((due e k).1 ≡ 0)
              × (held e (due e k).0 * 2 < k.window)
              × (k.outstanding + held e (due e k).0 < k.window)))
      × ((due e k).0.window ≡ k.window)
      × ((due e k).0.outstanding ≡ k.outstanding)
      × ((due e k).0.evicted ≡ k.evicted)
      × Distinct (due e k).0.pending
unfolding due
due_cases e k d = ground (arith, get-delete_self e k.pending d, delete-Distinct e k.pending d)

due_other : (e : ℕ) (k : PeerFlowRx) (j : ℕ) → j ≢ e → held j (due e k).0 ≡ held j k
unfolding due
due_other e k j h = ground (arith, get-delete_ne e j k.pending)

hold_same :
    (e n : ℕ) (l : PeerFlowRx)
    → ((hold e n l).window ≡ l.window)
      × ((hold e n l).outstanding ≡ l.outstanding)
      × ((hold e n l).evicted ≡ l.evicted)
unfolding hold
hold_same e n l = (refl, refl, refl)

due_outstanding : (e n : ℕ) (l : PeerFlowRx) → (due e (hold e n l)).0.outstanding ≡ l.outstanding
unfolding due hold
due_outstanding e n l = ground arith

module _ (e n : ℕ) (l : PeerFlowRx) (apart : Distinct l.pending)
    (room : held e l + n ≤ u32_max) where
  held-hold : held e (hold e n l) ≡ held e l + n
  unfolding hold
  held-hold = ground (arith, get-set_self e (min (held e l + n) u32_max) l.pending)

  held-hold_other : (j : ℕ) → j ≢ e → held j (hold e n l) ≡ held j l
  unfolding hold
  held-hold_other j h = ground (arith, get-set_ne e j (min (held e l + n) u32_max) l.pending)

  hold-Distinct : Distinct (hold e n l).pending
  unfolding hold
  hold-Distinct = set-Distinct e _ l.pending apart

  hold_due-Returned : Returned e n l (due e (hold e n l)).0 (due e (hold e n l)).1
  hold_due-Returned =
      let k = hold e n l in
      let facts = due_cases e k hold-Distinct in
      record {
        kept = ground (arith, facts, held-hold);
        others = λ j h. due_other e k j h ∙ held-hold_other j h;
        small = ground (arith, facts);
        window_same = ground (arith, facts, hold_same e n l);
        distinct = facts.5;
        evicted_same = ground (arith, facts, hold_same e n l);
      }

-- The ledger after `n` frames have left the buffers.
abbrev freed : ℕ → PeerFlowRx → PeerFlowRx
freed n l = record l { outstanding = l.outstanding - min n l.outstanding }

retire_on :
    (e n : ℕ) (l : PeerFlowRx) → 0 < l.window → retire e n true l ≡ due e (hold e n (freed n l))
unfolding retire
retire_on e n l on = ground arith

-- Where the held credit and the frames fit 32 bits, a retirement with credit from an active ledger frees
-- the frames' places and returns credit for each, to their own incarnation: granted, or held back as
-- less than half a window that leaves room beside what is buffered.
pub retire-Returned :
    (e n : ℕ) (l : PeerFlowRx)
    → Distinct l.pending
    → held e l + n ≤ u32_max
    → 0 < l.window
    → Returned e n l (retire e n true l).0 (retire e n true l).1
      × ((retire e n true l).0.outstanding ≡ l.outstanding - n)
retire-Returned e n l apart room on =
    let k = freed n l in
    let r = hold_due-Returned e n k apart room in
    rw (retire_on e n l on) (
      record {
        kept = r.kept;
        others = r.others;
        small = r.small;
        window_same = r.window_same;
        distinct = r.distinct;
        evicted_same = r.evicted_same;
      },
      omega (arith, due_outstanding e n k),
    )

unadmitted_on : (e n : ℕ) (l : PeerFlowRx) → 0 < l.window → unadmitted e n l ≡ due e (hold e n l)
unfolding unadmitted
unadmitted_on e n l on = ground arith

-- Under the same conditions frames that were never buffered return their credit in the same way and free
-- no place.
pub unadmitted-Returned :
    (e n : ℕ) (l : PeerFlowRx)
    → Distinct l.pending
    → held e l + n ≤ u32_max
    → 0 < l.window
    → Returned e n l (unadmitted e n l).0 (unadmitted e n l).1
      × ((unadmitted e n l).0.outstanding ≡ l.outstanding)
unadmitted-Returned e n l apart room on =
    rw (unadmitted_on e n l on) (hold_due-Returned e n l apart room, due_outstanding e n l)
