-- ===== src/Server/Examples.antt =====
-- Tombstones and replies at concrete inputs.
use grpc_dgram.Prelude.{ℕ, ◌≤◌, ◌≡◌, refl, false, List, [], ◌∷◌, none, some, arith}
use grpc_dgram.Wire.Flags.{Frame, frame}
use grpc_dgram.Server.Tombs.{create, add_tomb}
use grpc_dgram.Server.Tombs.Watermark.{Op, opens, finishes, sweeps, loses, steps}
use grpc_dgram.Server.Tombs.Bounds.{IsSound, tombs-IsSound}
use grpc_dgram.Server.Tombs.Bounds.Entries.{stored_bytes}
use grpc_dgram.Server.Tombs.Dedup.{Answered, finished_is_Answered}
use grpc_dgram.Server.Resets.{Resets, resets_for, resets_for_bounded}
use grpc_dgram.Server.Replies.{Budgets, replies, replies_bounded, allow_reply, roll, spend}

abbrev history : List Op
history =
    opens 1
    ∷ finishes 1 (some (record frame { payload = some (5 ∷ []) })) 5
    ∷ opens 2
    ∷ finishes 2 none 6
    ∷ sweeps 9
    ∷ sweeps 20
    ∷ loses
    ∷ []

tombs-IsSound_example :
    IsSound (steps 2 (create false 0 1 10) history)
    × ((steps 2 (create false 0 1 10) history).tomb_bytes
        ≡ stored_bytes (steps 2 (create false 0 1 10) history).tombs)
tombs-IsSound_example = tombs-IsSound false 0 1 10 2 history

abbrev later_on : List Op
later_on = sweeps 7 ∷ opens 3 ∷ finishes 3 none 12 ∷ sweeps 9 ∷ sweeps 20 ∷ []

finished_is_Answered_example :
    Answered 2 25 2
      (steps 2 (add_tomb 2 none 6 (steps 2 (create false 0 4 10) (opens 2 ∷ []))) later_on)
finished_is_Answered_example =
    finished_is_Answered false 0 4 10 2 (opens 2 ∷ []) 2 none 6 later_on 25
      (omega arith, (omega arith, (omega arith, omega arith)))

abbrev budgets : Budgets
budgets = record {
  reply_budget = none;
  reply_budget_total = 0;
  max_pending_resets = 4;
  retransmit = 100;
  max_replies = 2;
}

denied_third : (replies (1 ∷ 2 ∷ 3 ∷ []) budgets).1 ≡ 2
unfolding replies allow_reply roll spend
denied_third = refl

replies_bounded_example : (replies (1 ∷ 2 ∷ 3 ∷ []) budgets).1 ≤ 4
replies_bounded_example =
    replies_bounded 1 (1 ∷ 2 ∷ 3 ∷ []) budgets tt
      ((omega arith, omega arith), ((omega arith, omega arith), ((omega arith, omega arith), tt)))

abbrev resets : Resets
resets = record { reliable = false; reset_at = []; reset_at_total = 0; budgets = budgets }

abbrev stray : Frame
stray = record frame { epoch = 5; sid = 3 }

abbrev strays : List (ℕ × Frame)
strays = (10, stray) ∷ (60, stray) ∷ (70, record stray { sid = 5 }) ∷ (90, stray) ∷ []

resets_for_bounded_example : resets_for (5, 3) strays resets ≤ 1
resets_for_bounded_example =
    resets_for_bounded 10 100 (5, 3) strays resets refl refl
      (
        (omega arith, omega arith),
        (
          (omega arith, omega arith),
          ((omega arith, omega arith), ((omega arith, omega arith), tt)),
        ),
      )
