-- ===== src/Flow/Wakeups.antt =====
-- Every operation of a `FlowSender` against its parked sends.
use grpc_dgram.Prelude.{
  ℕ, ◌≡◌, refl, ◌⊎◌, inl, true, false, List, [], ◌∷◌, arith, ltb, ◌==◌, if◌then◌else◌,
}
use grpc_dgram.Flow.Sender.{
  FlowSender, assume, observe, reassume, grant, refund, undo, drain, release, empty, try_acquire,
  parked,
}

pub data Op : Type 0 where
  assumes observes reassumes grants refunds : ℕ → Op
  undoes drains releases acquires : Op
  parks : ℕ → Op

-- The operations as the callers make them: a send parks only where the credit is spent, and
-- `drain` is called on a stream whose call is over, which is released before.
unfoldable pub step : FlowSender → Op → FlowSender
step s (assumes w) = assume w s
step s (observes w) = observe w s
step s (reassumes w) = reassume w s
step s (grants n) = grant n s
step s (refunds n) = (refund n s).0
step s undoes = (undo s).0
step s drains = (drain (release s)).0
step s releases = release s
step s acquires = (try_acquire s).0
step s (parks id) = elim (empty s) [ true ↦ parked id s | false ↦ s ]

unfoldable pub steps : FlowSender → List Op → FlowSender
steps s [] = s
steps s (o ∷ os) = steps (step s o) os

-- A send waits only while a send would have to wait.
abbrev pub NoLostWakeup : FlowSender → Type 0
NoLostWakeup s = (s.waiters ≡ []) ⊎ (empty s ≡ true)

pub step-NoLostWakeup : (s : FlowSender) (o : Op) → NoLostWakeup s → NoLostWakeup (step s o)
unfolding step assume observe reassume grant refund undo drain release empty try_acquire parked
step-NoLostWakeup s (assumes w) h = ground arith
step-NoLostWakeup s (observes w) h = ground arith
step-NoLostWakeup s (reassumes w) h = inl refl
step-NoLostWakeup s (grants n) h = ground arith
step-NoLostWakeup s (refunds n) h = inl refl
step-NoLostWakeup s undoes h = inl refl
step-NoLostWakeup s drains h = inl refl
step-NoLostWakeup s releases h = inl refl
step-NoLostWakeup s acquires h = ground arith
step-NoLostWakeup s (parks id) h = ground arith

-- Where every parked send of a sender finds the window on and spent, this stays so under any sequence of
-- operations: no send sleeps past a credit, an advertisement or a release.
pub steps-NoLostWakeup :
    (s : FlowSender) (os : List Op) → NoLostWakeup s → NoLostWakeup (steps s os)
unfolding steps
steps-NoLostWakeup s [] h = h
steps-NoLostWakeup s (o ∷ os) h = steps-NoLostWakeup (step s o) os (step-NoLostWakeup s o h)

-- What the peer can do to a sender that it never enabled.
unfoldable pub grant_all : FlowSender → List ℕ → FlowSender
grant_all s [] = s
grant_all s (n ∷ ns) = grant_all (grant n s) ns

grant_off : (s : FlowSender) (n : ℕ) → s.on ≡ false → grant n s ≡ s
unfolding grant
grant_off s n h = ground arith

grant_all_off : (s : FlowSender) (ns : List ℕ) → s.on ≡ false → grant_all s ns ≡ s
unfolding grant_all
grant_all_off s [] h = refl
grant_all_off s (n ∷ ns) h = rw (grant_off s n h) (grant_all_off s ns h)

-- Stray, duplicated or injected grants never park a sender that is not flow controlled.
pub try_acquire-grant_all :
    (s : FlowSender) (ns : List ℕ) → s.on ≡ false → (try_acquire (grant_all s ns)).1 ≡ true
unfolding try_acquire
try_acquire-grant_all s ns h = ground (arith, grant_all_off s ns)

-- The first advertisement of an incarnation decides, and a new incarnation re-arms the latch.
pub observe_once :
    (s : FlowSender) (v w u : ℕ)
    → (observe w (observe v s) ≡ observe v s)
      × ((observe w (reassume u s)).position
          ≡ record { on = ltb 0 w; observed = true; granted = if w == 0 then u else w; sent = 0 })
unfolding observe reassume
observe_once s v w u = ground arith
