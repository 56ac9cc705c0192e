-- ===== src/Queue/Examples.antt =====
-- The queue at concrete inputs.
use grpc_dgram.Prelude.{ℕ, ◌≡◌, refl, false, [], ◌∷◌}
use grpc_dgram.Queue.{newest, oldest, init, put_drop, try_put, try_take}
use grpc_dgram.Queue.Order
use grpc_dgram.Queue.Blocking.{Moment, Settled, put_blocking, put_blocking-Settled}
use grpc_dgram.Queue.Order.{
  History, start, steps, Ordered, puts, takes, steps-Ordered, start-Ordered,
}

fresh_frames :
    (steps {A = ℕ}
      (start {A = ℕ} 2)
      (puts 1 oldest ∷ puts 2 oldest ∷ puts 3 oldest ∷ takes ∷ [])).taken
    ≡ 2 ∷ []
unfolding steps start Order.step init put_drop try_put try_take
fresh_frames = refl

steps-Ordered_example :
    Ordered {A = ℕ}
      (steps {A = ℕ} (start {A = ℕ} 2) (puts 1 newest ∷ puts 2 oldest ∷ puts 3 oldest ∷ takes ∷ []))
steps-Ordered_example =
    steps-Ordered (start {A = ℕ} 2) (puts 1 newest ∷ puts 2 oldest ∷ puts 3 oldest ∷ takes ∷ [])
      (start-Ordered {A = ℕ} 2)

abbrev full : Moment ℕ
full = record {
  queue = record { cap = 1; buf = 7 ∷ []; dropped = 0 };
  done = false;
  is_aborted = false;
}

abbrev read : Moment ℕ
read = record {
  queue = record { cap = 1; buf = []; dropped = 0 };
  done = false;
  is_aborted = false;
}

put_blocking-Settled_example : Settled 8 full (read ∷ []) (put_blocking 8 full (read ∷ []))
put_blocking-Settled_example = put_blocking-Settled 8 full (read ∷ [])
