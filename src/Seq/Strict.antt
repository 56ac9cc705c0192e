-- ===== src/Seq/Strict.antt =====
-- Reliable mode: the strict window, alone and behind the numbering of one sender.
use grpc_dgram.Prelude.{
  ℕ, zero, suc, ◌+◌, ◌<◌, ◌≡◌, refl, ◌≢◌, true, List, [], ◌∷◌, arith, u32_mod, add_u32, length, ap,
}
use grpc_dgram.Seq.{
  TxSeq, next, RxVerdict, accept, beyond, protocol_error, RxWindow, check, run, init,
}
use grpc_dgram.Seq.Laws.{nexts}

-- The numbers that follow `l`.
unfoldable pub following : ℕ → ℕ → List ℕ
following zero l = []
following (suc k) l = add_u32 l 1 ∷ following k (add_u32 l 1)

abbrev pub AllAccept : List RxVerdict → Type 0
AllAccept [] = Unit {0}
AllAccept (v ∷ vs) = (v ≡ accept) × AllAccept vs

abbrev pub NoZero : List ℕ → Type 0
NoZero [] = Unit {0}
NoZero (s ∷ ss) = (s ≢ 0) × NoZero ss

check_strict_accept :
    (w : RxWindow) (s : ℕ)
    → w.strict ≡ true
    → (check w s).1 ≡ accept
    → (s ≡ add_u32 w.l 1) × (check w s ≡ (record w { l = s }, accept))
unfolding check
check_strict_accept w s st e = ground arith

check_strict_next :
    (w : RxWindow) (s : ℕ)
    → w.strict ≡ true
    → s ≢ 0
    → s ≡ add_u32 w.l 1
    → check w s ≡ (record w { l = s }, accept)
unfolding check
check_strict_next w s st nz e = ground arith

-- A strict window that accepts every arrival has seen exactly the numbers after its own.
pub run_strict_exact :
    (w : RxWindow) (ss : List ℕ)
    → w.strict ≡ true
    → AllAccept (run w ss).1
    → ss ≡ following (length ss) w.l
unfolding run following
run_strict_exact w [] st all = refl
run_strict_exact w (s ∷ ss) st all =
    let (e, c) = check_strict_accept w s st all.0 in
    let ih = run_strict_exact (record w { l = s }) ss st (rw c at all.1) in cc

-- And it accepts those numbers, up to the wrap.
pub run_strict_following :
    (w : RxWindow) (k : ℕ)
    → w.strict ≡ true
    → w.l + k < u32_mod
    → AllAccept (run w (following k w.l)).1 × ((run w (following k w.l)).0.l ≡ w.l + k)
unfolding run following
run_strict_following w zero st h = (tt, omega arith)
run_strict_following w (suc k) st h =
    let e = check_strict_next w (add_u32 w.l 1) st (omega arith) refl in
    let ih = run_strict_following (record w { l = add_u32 w.l 1 }) k st (omega arith) in
    rw (e, run) ((refl, ih.0), omega (arith, ih))

nexts-following : (k : ℕ) (t : TxSeq) → nexts k t ≡ following k t.v
unfolding nexts following next
nexts-following zero t = refl
nexts-following (suc k) t =
    ap (λ r. add_u32 t.v 1 ∷ r) (nexts-following k (record { v = add_u32 t.v 1 }))

-- A reliable channel that delivers the frames of one sender in order: all are accepted, for as long
-- as the numbering does not wrap.
pub run-nexts : (k : ℕ) → k < u32_mod → AllAccept (run (init true) (nexts k (record { v = 0 }))).1
unfolding init
run-nexts k h =
    rw (nexts-following k (record { v = 0 }))
      (run_strict_following (init true) k refl (omega arith)).0

-- After 2 ^ 32 - 1 frames the sender numbers one frame 0. The strict window passes over it without
-- a word and fails the call at the frame that follows.
pub run_wrap :
    (w : RxWindow)
    → w.strict ≡ true
    → w.l ≡ 0xffffffff
    → run w (nexts 2 (record { v = w.l })) ≡ (w, beyond ∷ protocol_error ∷ [])
unfolding run nexts next check
run_wrap w st e = ground arith
