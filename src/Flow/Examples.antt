-- ===== src/Flow/Examples.antt =====
-- The theorems on flow control at concrete inputs.
use grpc_dgram.Prelude.{◌+◌, ◌-◌, ◌≤◌, ◌≡◌, refl, inr, true, false, [], ◌∷◌, none, some, arith}
use grpc_dgram.OrderedMap.{get}
use grpc_dgram.Flow.Sender.{FlowSender, fresh, observe, try_acquire, empty, grant, state}
use grpc_dgram.Flow.Ledger.{
  PeerFlowRx, admit, held, retire, stash, unstash, credit_evicted, enable, idle,
}
use grpc_dgram.Flow.Ledger.Bounds
use grpc_dgram.Flow.Ledger.Bounds.{idle-IsSound, IsSound, steps-IsSound}
use grpc_dgram.Flow.Ledger.Credit.{Returned, retire-Returned}
use grpc_dgram.Flow.Ledger.Evicted.{unstash-credit-stash}
use grpc_dgram.Flow.Wakeups
use grpc_dgram.Flow.Wakeups.{
  NoLostWakeup, steps-NoLostWakeup, grant_all, try_acquire-grant_all, observe_once,
}
use grpc_dgram.Flow.Acquire
use grpc_dgram.Flow.Acquire.{Moment, Credited, acquire_both, acquire_both_credit}
use grpc_dgram.Flow.Alone
use grpc_dgram.Flow.Alone.{acquire, alone, all_alone, widen, acquire_both-alone}
use grpc_dgram.Flow.Channel.Connection
use grpc_dgram.Flow.Channel.Connection.{never_overruns, never_starves, parked_has_buffered}
use grpc_dgram.Flow.Channel.Stream
use grpc_dgram.Flow.Channel.Stream.{never_overflows}

-- A connection window of one message: a frame is sent, then it arrives.
abbrev sent_one : Connection.Channel
sent_one =
    let c = Connection.start 1 in record c { tx = (try_acquire c.tx).0; frames = c.frames + 1 }

sent_one_reached : Connection.Reach 7 (Connection.start 1) sent_one
unfolding try_acquire observe fresh Connection.start
sent_one_reached = Connection.next Connection.here (Connection.sends refl)

abbrev arrived_one : Connection.Channel
arrived_one = record sent_one { rx = (admit sent_one.rx).0; frames = sent_one.frames - 1 }

arrived_one_reached : Connection.Reach 7 (Connection.start 1) arrived_one
unfolding try_acquire observe fresh Connection.start admit enable idle
arrived_one_reached = Connection.next sent_one_reached (Connection.arrives (omega arith) refl)

never_overruns_example : (admit sent_one.rx).1 ≡ true
unfolding Connection.start
never_overruns_example =
    never_overruns 7 1 (omega arith) (omega arith) sent_one_reached (omega arith)

never_starves_example : (retire 7 1 true arrived_one.rx).1 ≡ held 7 arrived_one.rx + 1
unfolding try_acquire observe fresh Connection.start admit enable idle empty
never_starves_example =
    never_starves 7 1 (omega arith) (omega arith) 1 arrived_one_reached refl refl refl (omega arith)
      (omega arith)

-- A stream window of one message, in the same way.
abbrev stream_sent : Stream.Channel
stream_sent =
    let c = Stream.start 1 in record c { tx = (try_acquire c.tx).0; frames = c.frames + 1 }

stream_sent_reached : Stream.Reach (Stream.start 1) stream_sent
unfolding try_acquire observe fresh Stream.start
stream_sent_reached = Stream.next Stream.here (Stream.sends refl)

abbrev stream_arrived : Stream.Channel
stream_arrived = record stream_sent {
  buffered = stream_sent.buffered + 1;
  frames = stream_sent.frames - 1;
}

stream_arrived_reached : Stream.Reach (Stream.start 1) stream_arrived
unfolding Stream.start
stream_arrived_reached = Stream.next stream_sent_reached (Stream.arrives (omega arith))

never_overflows_example : stream_arrived.buffered + stream_arrived.frames ≤ 1
never_overflows_example = never_overflows 1 (omega arith) stream_arrived_reached

abbrev spent : FlowSender
spent = record {
  position = record { on = true; observed = true; granted = 2; sent = 2 };
  waiters = 5 ∷ [];
}

abbrev off : FlowSender
off = record {
  position = record { on = false; observed = false; granted = 0; sent = 0 };
  waiters = [];
}

abbrev found : Moment
found = record {
  windows = record { stream = off; peer = some spent };
  done = false;
  is_aborted = false;
}

abbrev granted_later : Moment
granted_later = record {
  windows = record { stream = off; peer = some (grant 1 spent) };
  done = false;
  is_aborted = false;
}

acquire_both_credit_example :
    Credited found
      ((Acquire.granted, granted_later) ∷ [])
      (acquire_both 3 none found ((Acquire.granted, granted_later) ∷ []))
acquire_both_credit_example =
    acquire_both_credit 3 none found ((Acquire.granted, granted_later) ∷ [])

steps-NoLostWakeup_example :
    NoLostWakeup (Wakeups.steps spent (Wakeups.grants 1 ∷ Wakeups.acquires ∷ []))
unfolding empty
steps-NoLostWakeup_example =
    steps-NoLostWakeup spent (Wakeups.grants 1 ∷ Wakeups.acquires ∷ []) (inr refl)

try_acquire-grant_all_example : (try_acquire (grant_all off (3 ∷ 4 ∷ []))).1 ≡ true
try_acquire-grant_all_example = try_acquire-grant_all off (3 ∷ 4 ∷ []) refl

-- A ledger with a window of four messages.
abbrev ledger : PeerFlowRx
ledger = record { window = 4; outstanding = 3; pending = (7, 1) ∷ []; evicted = []; evict_cap = 2 }

retire-Returned_example :
    Returned 7 1 ledger (retire 7 1 true ledger).0 (retire 7 1 true ledger).1
    × ((retire 7 1 true ledger).0.outstanding ≡ 2)
unfolding get
retire-Returned_example = retire-Returned 7 1 ledger (tt, tt) (omega arith) (omega arith)

unstash-credit-stash_example :
    (unstash 7 (credit_evicted 7 1 (stash 7 (state spent) ledger))).1 ≡ some (state (grant 1 spent))
unstash-credit-stash_example =
    unstash-credit-stash 7 1 spent ledger
      (record {
        bounded = omega arith;
        wire = omega arith;
        few = omega arith;
        once = tt;
        apart = (tt, tt);
      })
      (omega arith) (omega arith)

steps-IsSound_example :
    IsSound (Bounds.steps (enable 4 2 idle) (Bounds.admits ∷ Bounds.retires 7 1 true ∷ []))
steps-IsSound_example = steps-IsSound 4 2 (Bounds.admits ∷ Bounds.retires 7 1 true ∷ [])

abbrev waiting : Alone.At
waiting = record { sender = spent; done = false; is_aborted = false }

abbrev credited : Alone.At
credited = record { sender = grant 1 spent; done = false; is_aborted = false }
