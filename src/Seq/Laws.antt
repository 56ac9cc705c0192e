-- ===== src/Seq/Laws.antt =====
-- TxSeq, and the loud failure of the receive window.
use grpc_dgram.Prelude.{
  ℕ, zero, suc, ◌+◌, ◌<◌, ◌≡◌, refl, ◌≢◌, Bool, false, ◌&&◌, ◌⊎◌, inl, inr, Bool-cases, List, [],
  ◌∷◌, arith, u32_mod, sub_u32, leb, if◌then◌else◌,
}
use grpc_dgram.Seq.{TxSeq, next, undo, dup, beyond, data_loss, RxWindow, w_fwd, check, run}

-- The numbers that `k` successive calls of `next` return.
unfoldable pub nexts : ℕ → TxSeq → List ℕ
nexts zero t = []
nexts (suc k) t = (next t).1 ∷ nexts k (next t).0

-- Undoing the latest allocation restores the counter, unless that allocation wrapped to 0.
pub undo-next : (t : TxSeq) → t.v + 1 < u32_mod → undo (next t).0 (next t).1 ≡ t
unfolding undo next
undo-next t h = ground arith

-- Undoing any number but the latest leaves the counter alone.
pub undo_other : (t : TxSeq) (seq : ℕ) → seq ≢ t.v → undo t seq ≡ t
unfolding undo
undo_other t seq h = ground arith

-- `seq` lies more than the window ahead of what `w` has accepted.
abbrev pub IsFar : RxWindow → ℕ → Type 0
IsFar w seq =
    (w.strict ≡ false) × (seq ≢ 0) × (w_fwd < sub_u32 seq w.l) × (sub_u32 seq w.l < 0x80000000)

abbrev pub consistent : ℕ → ℕ → Bool
consistent a b = leb (sub_u32 b a) w_fwd

pub check_far_first :
    (w : RxWindow) (a : ℕ)
    → IsFar w a
    → w.beyond_n ≡ 0
    → check w a ≡ (record w { beyond_n = 1; beyond_last = a }, beyond)
unfolding check
check_far_first w a f e = ground arith

pub check_far_second :
    (w : RxWindow) (a : ℕ)
    → IsFar w a
    → w.beyond_n ≡ 1
    → check w a ≡ (
      record w { beyond_n = if consistent w.beyond_last a then 2 else 1; beyond_last = a },
      beyond,
    )
unfolding check
check_far_second w a f e = ground arith

pub check_far_third :
    (w : RxWindow) (a : ℕ)
    → IsFar w a
    → w.beyond_n ≡ 2
    → (check w a).1 ≡ (if consistent w.beyond_last a then data_loss else beyond)
unfolding check
check_far_third w a f e = ground arith

-- Two arrivals beyond the window never fail the call, wherever they lie. A third one does so
-- exactly when each of the three lies within the window of the one before.
pub run_far :
    (w : RxWindow) (a b c : ℕ)
    → w.beyond_n ≡ 0
    → IsFar w a
    → IsFar w b
    → IsFar w c
    → (run w (a ∷ b ∷ c ∷ [])).1
      ≡ beyond ∷ beyond ∷ (if consistent a b && consistent b c then data_loss else beyond) ∷ []
unfolding run
run_far w a b c e fa fb fc =
    let w1 = record w { beyond_n = 1; beyond_last = a } in
    elim (Bool-cases (consistent a b)) [
      | inl near ↦
          let w2 = record w { beyond_n = 2; beyond_last = b } in
          ground (
            arith,
            check_far_first w a fa e,
            check_far_second w1 b fb refl,
            check_far_third w2 c fc refl,
          )
      | inr apart ↦
          let w2 = record w { beyond_n = 1; beyond_last = b } in
          ground (
            arith,
            check_far_first w a fa e,
            check_far_second w1 b fb refl,
            check_far_second w2 c fc refl,
          )
    ]

-- An old frame, a duplicate and a frame numbered 0 change nothing in the window.
pub check_neutral :
    (w : RxWindow) (seq : ℕ)
    → w.strict ≡ false
    → ((check w seq).1 ≡ dup) ⊎ (seq ≡ 0)
    → (check w seq).0 ≡ w
unfolding check
check_neutral w seq st h = ground arith
