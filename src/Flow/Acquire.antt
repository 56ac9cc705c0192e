-- ===== src/Flow/Acquire.antt =====
-- `acquireBoth` of ts/src/util.ts as a run over what happens around it: between two rounds of its
-- loop the other sends, the peer's frames and the call's end change the windows as they like.
-- `acquire` of `FlowSender` is the same loop with no connection window.
use grpc_dgram.Prelude.{
  ℕ, ◌≡◌, ◌≢◌, refl, ◌⊎◌, inl, inr, Bool, true, false, List, [], ◌∷◌, Option, none, some, arith,
  subst, if◌then◌else◌,
}
use grpc_dgram.Flow.Sender.{FlowSender, SenderState, parked}
use grpc_dgram.Flow.Both.{Short, Windows, take_both, peer_empty, Taken, take_both_atomic, is_ok}

pub data FlowAcquireBoth : Type 0 where
  ok ended aborted stalled peer_stalled : FlowAcquireBoth

-- What the loop finds when it runs: both windows, and whether the call is over or its signal fired.
pub record Moment : Type 0 where
  pub windows : Windows
  pub done : Bool
  pub is_aborted : Bool

-- The promise that wins the race of a parked send.
pub data Wake : Type 0 where
  granted ended aborted stalled : Wake

-- `outcome` is absent while the send is still parked. `stall` is what `onStall` was told, if it was
-- called.
pub record Attempt : Type 0 where
  pub outcome : Option FlowAcquireBoth
  pub windows : Windows
  pub stall : Option Bool

-- The send waits on the window that was short.
abbrev pub wait_on : Short → ℕ → Windows → Windows
wait_on Short.peer id w = record { stream = w.stream; peer = park_peer w.peer }
  where
    park_peer : Option FlowSender → Option FlowSender
    park_peer none = none
    park_peer (some p) = some (parked id p)
wait_on Short.stream id w = record { stream = parked id w.stream; peer = w.peer }
wait_on Short.ok id w = w

abbrev pub on_peer : Short → Option FlowSender → Bool
on_peer Short.peer p = true
on_peer _ p = peer_empty p

abbrev first_stall : Option Bool → Bool → Option Bool
first_stall none b = some b
first_stall (some a) b = some a

abbrev pub when_stalled : Bool → FlowAcquireBoth
when_stalled true = peer_stalled
when_stalled false = FlowAcquireBoth.stalled

abbrev attempt : Option FlowAcquireBoth → Windows → Option Bool → Attempt
attempt o w st = record { outcome = o; windows = w; stall = st }

-- One round of the loop: it returns, or the send named `id` parks, with what `onStall` was told and
-- which window it waits on.
pub data Round : Type 0 where
  returns : Attempt → Round
  parks : Option Bool → Bool → Windows → Round

unfoldable pub round : ℕ → Option Bool → Moment → Round
round id st m =
    let (w, short) = take_both m.windows in
    let named = on_peer short w.peer in
    if m.done
    then returns (attempt (some FlowAcquireBoth.ended) m.windows st)
    else if m.is_aborted
    then returns (attempt (some FlowAcquireBoth.aborted) m.windows st)
    else if is_ok short
    then returns (attempt (some FlowAcquireBoth.ok) w st)
    else parks (first_stall st named) named (wait_on short id w)

-- Only a grant goes back to take credit, `again`; any other wake decides the outcome.
abbrev pub after_wake : Wake → Option Bool → Bool → Moment → Attempt → Attempt
after_wake granted st named m again = again
after_wake ended st named m again = attempt (some FlowAcquireBoth.ended) m.windows st
after_wake aborted st named m again = attempt (some FlowAcquireBoth.aborted) m.windows st
after_wake stalled st named m again = attempt (some (when_stalled named)) m.windows st

unfoldable pub acquire_both : ℕ → Option Bool → Moment → List (Wake × Moment) → Attempt
acquire_both id st m [] = elim (round id st m) [
  | returns r ↦ r
  | parks st' named w ↦ attempt none w st'
]
acquire_both id st m ((why, m') ∷ ms) = elim (round id st m) [
  | returns r ↦ r
  | parks st' named w ↦ after_wake why st' named m' (acquire_both id st' m' ms)
]

abbrev pub Occurs : Moment → Moment → List (Wake × Moment) → Type 0
Occurs n m [] = n ≡ m
Occurs n m ((why, m') ∷ ms) = (n ≡ m) ⊎ Occurs n m' ms

-- The attempt took its credits from the live call that it found at moment `n`.
pub record Charged (n : Moment) (r : Attempt) : Type 0 where
  pub live : n.done ≡ false
  pub wanted : n.is_aborted ≡ false
  pub credits : Taken n.windows r.windows

abbrev pub peer_position : Option FlowSender → Option SenderState
peer_position none = none
peer_position (some p) = some p.position

-- The attempt left the windows of moment `n` as they were.
pub record Uncharged (n : Moment) (r : Attempt) : Type 0 where
  pub stream_same : r.windows.stream.position ≡ n.windows.stream.position
  pub peer_same : peer_position r.windows.peer ≡ peer_position n.windows.peer

-- A send that is let through took one credit of each window at one moment, while its call was live;
-- a send that ends in any other way, or is still parked, took none.
abbrev pub Credited : Moment → List (Wake × Moment) → Attempt → Type 0
Credited m ms r =
    (n : Moment) × Occurs n m ms
    × (((r.outcome ≡ some FlowAcquireBoth.ok) × Charged n r)
        ⊎ ((r.outcome ≢ some FlowAcquireBoth.ok) × Uncharged n r))

abbrev Fair : Moment → Attempt → Type 0
Fair n r =
    ((r.outcome ≡ some FlowAcquireBoth.ok) × Charged n r)
    ⊎ ((r.outcome ≢ some FlowAcquireBoth.ok) × Uncharged n r)

abbrev RoundFair : Moment → Round → Type 0
RoundFair m (returns r) = Fair m r
RoundFair m (parks st' named w) = Uncharged m (attempt none w st')

round-Fair : (id : ℕ) (st : Option Bool) (m : Moment) → RoundFair m (round id st m)
unfolding round parked
round-Fair id st m = ground (arith, take_both_atomic m.windows)

Round-cases :
    (r : Round)
    → ((a : Attempt) × (r ≡ returns a))
      ⊎ ((st : Option Bool) × (b : Bool) × (w : Windows) × (r ≡ parks st b w))
Round-cases (returns a) = inl (a, refl)
Round-cases (parks st b w) = inr (st, b, w, refl)

returns-Fair : (m : Moment) {r : Round} {a : Attempt} → RoundFair m r → r ≡ returns a → Fair m a
returns-Fair m f e = subst (RoundFair m) e f

-- A bound that wakes the parked send leaves the windows as it finds them.
broken_off :
    (n : Moment) (o : FlowAcquireBoth) (st : Option Bool)
    → o ≢ FlowAcquireBoth.ok
    → Fair n (attempt (some o) n.windows st)
broken_off n o st h = inr (λ e. h (ground arith), record { stream_same = refl; peer_same = refl })

Occurs-first : (m : Moment) (ms : List (Wake × Moment)) → Occurs m m ms
Occurs-first m [] = refl
Occurs-first m (x ∷ ms) = inl refl

after_wake-Credited :
    (why : Wake) (st : Option Bool) (named : Bool) (m m' : Moment) (ms : List (Wake × Moment))
    (again : Attempt)
    → Credited m' ms again
    → Credited m ((why, m') ∷ ms) (after_wake why st named m' again)
after_wake-Credited granted st named m m' ms again c = (c.0, inr c.1, c.2)
after_wake-Credited ended st named m m' ms again c =
    (m', inr (Occurs-first m' ms), broken_off m' FlowAcquireBoth.ended st (λ e. cc))
after_wake-Credited aborted st named m m' ms again c =
    (m', inr (Occurs-first m' ms), broken_off m' FlowAcquireBoth.aborted st (λ e. cc))
after_wake-Credited stalled st true m m' ms again c =
    (m', inr (Occurs-first m' ms), broken_off m' peer_stalled st (λ e. cc))
after_wake-Credited stalled st false m m' ms again c =
    (m', inr (Occurs-first m' ms), broken_off m' FlowAcquireBoth.stalled st (λ e. cc))

-- Along any schedule of wakes there is a moment at which the attempt was settled: if the send is let
-- through, its call was live then and it took one credit of each window; if it ends in any other way
-- or is still parked, both windows stand as that moment found them.
pub acquire_both_credit :
    (id : ℕ) (st : Option Bool) (m : Moment) (ms : List (Wake × Moment))
    → Credited m ms (acquire_both id st m ms)
unfolding acquire_both
acquire_both_credit id st m [] = elim (Round-cases (round id st m)) [
  | inl (a, e) ↦ rw (e, acquire_both) (m, refl, returns-Fair m (round-Fair id st m) e)
  | inr (st', b, w, e) ↦
      rw (e, acquire_both) (m, refl, inr (λ p. cc, subst (RoundFair m) e (round-Fair id st m)))
]
acquire_both_credit id st m ((why, m') ∷ ms) = elim (Round-cases (round id st m)) [
  | inl (a, e) ↦ rw (e, acquire_both) (m, inl refl, returns-Fair m (round-Fair id st m) e)
  | inr (st', b, w, e) ↦
      rw (e, acquire_both)
        (after_wake-Credited why st' b m m' ms (acquire_both id st' m' ms)
          (acquire_both_credit id st' m' ms))
]
