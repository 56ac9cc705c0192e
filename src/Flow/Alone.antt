-- ===== src/Flow/Alone.antt =====
-- `FlowSender.acquire` of ts/src/util.ts: the same run as that of Flow/Acquire, over one window.
use grpc_dgram.Prelude.{
  ◌≡◌, Bool, false, ℕ, List, [], ◌∷◌, Option, none, some, arith, if◌then◌else◌,
}
use grpc_dgram.Flow.Sender.{FlowSender, try_acquire, parked}
use grpc_dgram.Flow.Both.{take_both}
use grpc_dgram.Flow.Acquire.{FlowAcquireBoth, Moment, Wake, acquire_both, round}

pub data FlowAcquire : Type 0 where
  ok ended aborted stalled : FlowAcquire

-- What the loop finds when it runs.
pub record At : Type 0 where
  pub sender : FlowSender
  pub done : Bool
  pub is_aborted : Bool

-- The outcome, absent while the send is parked, and the window.
abbrev pub Result : Type 0
Result = Option FlowAcquire × FlowSender

abbrev after_wake : Wake → At → Result → Result
after_wake Wake.granted m again = again
after_wake Wake.ended m again = (some ended, m.sender)
after_wake Wake.aborted m again = (some aborted, m.sender)
after_wake Wake.stalled m again = (some stalled, m.sender)

-- One turn of the loop; `later` is what follows when the send parks.
attempt : At → Result → Result
attempt m later =
    let (s, got) = try_acquire m.sender in
    if m.done
    then (some ended, m.sender)
    else if m.is_aborted
    then (some aborted, m.sender)
    else if got
    then (some ok, s)
    else later

unfoldable pub acquire : ℕ → At → List (Wake × At) → Result
unfolding attempt
acquire id m [] = attempt m (none, parked id m.sender)
acquire id m ((why, m') ∷ ms) = attempt m (after_wake why m' (acquire id m' ms))

-- The same moment, for a send with no connection window.
abbrev pub alone : At → Moment
alone m = record {
  windows = record { stream = m.sender; peer = none };
  done = m.done;
  is_aborted = m.is_aborted;
}

abbrev pub all_alone : List (Wake × At) → List (Wake × Moment)
all_alone [] = []
all_alone ((why, m) ∷ ms) = (why, alone m) ∷ all_alone ms

abbrev pub widen : Option FlowAcquire → Option FlowAcquireBoth
widen none = none
widen (some ok) = some FlowAcquireBoth.ok
widen (some ended) = some FlowAcquireBoth.ended
widen (some aborted) = some FlowAcquireBoth.aborted
widen (some stalled) = some FlowAcquireBoth.stalled

-- Without a connection window, taking both credits is taking the stream's: same outcome and same
-- window, along any schedule of wakes.
pub acquire_both-alone :
    (id : ℕ) (st : Option Bool) (m : At) (ms : List (Wake × At))
    → ((acquire_both id st (alone m) (all_alone ms)).outcome ≡ widen (acquire id m ms).0)
      × ((acquire_both id st (alone m) (all_alone ms)).windows.stream ≡ (acquire id m ms).1)
unfolding acquire acquire_both round take_both
acquire_both-alone id st m [] = ground arith
acquire_both-alone id none m ((Wake.granted, m') ∷ ms) =
    ground (arith, acquire_both-alone id (some false) m' ms)
acquire_both-alone id (some b) m ((Wake.granted, m') ∷ ms) =
    ground (arith, acquire_both-alone id (some b) m' ms)
acquire_both-alone id st m ((Wake.ended, m') ∷ ms) = ground arith
acquire_both-alone id st m ((Wake.aborted, m') ∷ ms) = ground arith
acquire_both-alone id st m ((Wake.stalled, m') ∷ ms) = ground arith
