-- ===== src/Seq/Examples.antt =====
-- Runs of the numbering and the window, and the theorems at concrete inputs.
use grpc_dgram.Prelude.{◌+◌, ◌≡◌, refl, false, true, [], ◌∷◌, arith, length}
use grpc_dgram.Seq.{
  next, undo, beyond, data_loss, protocol_error, RxWindow, init, check, run, take_gap,
}
use grpc_dgram.Seq.Laws.{nexts, undo-next, run_far, check_neutral}
use grpc_dgram.Seq.Unwrapped.{Steps, delivered, skipped, delivered-Steps, skipped_count, last_or}
use grpc_dgram.Seq.Strict.{AllAccept, following, run_strict_exact, run-nexts, run_wrap}

abbrev lossy : RxWindow
lossy = record { l = 10; strict = false; beyond_n = 0; beyond_last = 0; gap = 0 }

reordered : delivered lossy (12 ∷ 11 ∷ 15 ∷ 15 ∷ 9 ∷ []) ≡ 12 ∷ 15 ∷ []
unfolding delivered check take_gap
reordered = refl

reordered_skipped : skipped lossy (12 ∷ 11 ∷ 15 ∷ []) ≡ 3
unfolding skipped check take_gap
reordered_skipped = refl

undo-next_example : undo (next (record { v = 4 })).0 (next (record { v = 4 })).1 ≡ record { v = 4 }
undo-next_example = undo-next (record { v = 4 }) (omega arith)

run_far_example : (run lossy (50_000 ∷ 50_000 ∷ 50_001 ∷ [])).1 ≡ beyond ∷ beyond ∷ data_loss ∷ []
run_far_example =
    run_far lossy 50_000 50_000 50_001 refl (refl, omega arith, omega arith, omega arith)
      (refl, omega arith, omega arith, omega arith) (refl, omega arith, omega arith, omega arith)

check_neutral_example : (check lossy 0).0 ≡ lossy
check_neutral_example = check_neutral lossy 0 refl (omega arith)

delivered-Steps_example : Steps 10 (delivered lossy (12 ∷ 11 ∷ 15 ∷ []))
delivered-Steps_example =
    delivered-Steps 1 lossy 10 (12 ∷ 11 ∷ 15 ∷ []) (refl, refl) (omega arith) (omega arith)
      (omega arith)

skipped_count_example :
    10 + length (delivered lossy (12 ∷ 11 ∷ 15 ∷ [])) + skipped lossy (12 ∷ 11 ∷ 15 ∷ [])
    ≡ last_or 10 (delivered lossy (12 ∷ 11 ∷ 15 ∷ []))
skipped_count_example =
    skipped_count 1 lossy 10 (12 ∷ 11 ∷ 15 ∷ []) (refl, refl) (omega arith) (omega arith)
      (omega arith)

run_strict_exact_example : 1 ∷ 2 ∷ [] ≡ following 2 0
unfolding init run check
run_strict_exact_example = run_strict_exact (init true) (1 ∷ 2 ∷ []) refl (refl, (refl, tt))

run-nexts_example : AllAccept (run (init true) (nexts 3 (record { v = 0 }))).1
run-nexts_example = run-nexts 3 (omega arith)

abbrev worn : RxWindow
worn = record { l = 0xffffffff; strict = true; beyond_n = 0; beyond_last = 0; gap = 0 }

run_wrap_example :
    run worn (nexts 2 (record { v = 0xffffffff })) ≡ (worn, beyond ∷ protocol_error ∷ [])
run_wrap_example = run_wrap worn refl refl
