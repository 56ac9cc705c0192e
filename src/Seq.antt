-- ===== src/Seq.antt =====
-- ts/src/seq.ts: the numbering of outgoing frames and the receive window.
pub mod Laws
pub mod Unwrapped
pub mod Strict
mod Examples
use grpc_dgram.Prelude.{
  ℕ, ◌+◌, ◌-◌, ◌%◌, ◌≡◌, Bool, true, false, ◌&&◌, ◌||◌, List, [], ◌∷◌, u32_mod, add_u32, sub_u32,
  ltb, leb, ◌==◌, if◌then◌else◌,
}

abbrev pub w_fwd : ℕ
w_fwd = 4096

abbrev pub k_loud : ℕ
k_loud = 3

-- `TxSeq`: `v` is the number allocated last.
pub record TxSeq : Type 0 where
  pub v : ℕ

unfoldable pub next : TxSeq → TxSeq × ℕ
next t = let v = add_u32 t.v 1 in (record { v = v }, v)

-- The adapter refused the frame numbered `seq`: its number is used again.
unfoldable pub undo : TxSeq → ℕ → TxSeq
undo t seq = if not_zero seq && (t.v == seq) then record { v = sub_u32 t.v 1 } else t
  where
    not_zero : ℕ → Bool
    not_zero n = ltb 0 n

pub data RxVerdict : Type 0 where
  accept dup beyond data_loss protocol_error : RxVerdict

pub record RxWindow : Type 0 where
  pub l : ℕ
  pub strict : Bool
  pub beyond_n : ℕ
  pub beyond_last : ℕ
  pub gap : ℕ

unfoldable pub init : Bool → RxWindow
init strict = record { l = 0; strict = strict; beyond_n = 0; beyond_last = 0; gap = 0 }

unfoldable pub take_gap : RxWindow → RxWindow × ℕ
take_gap w = (record w { gap = 0 }, w.gap)

-- The run of beyond-window arrivals after `seq` joins it or starts it anew.
run_length : RxWindow → ℕ → ℕ
run_length w seq =
    if ltb 0 w.beyond_n && leb (sub_u32 seq w.beyond_last) w_fwd then w.beyond_n + 1 else 1

check_strict : RxWindow → ℕ → RxWindow × RxVerdict
check_strict w seq =
    if seq == add_u32 w.l 1 then (record w { l = seq }, accept) else (w, protocol_error)

check_beyond : RxWindow → ℕ → RxWindow × RxVerdict
unfolding run_length
check_beyond w seq =
    let n = run_length w seq in
    let w' = record w { beyond_n = n; beyond_last = seq } in
    if leb k_loud n then (w', data_loss) else (w', beyond)

check_window : RxWindow → ℕ → RxWindow × RxVerdict
unfolding check_beyond
check_window w seq =
    let d = sub_u32 seq w.l in
    if d == 0 || leb 0x80000000 d
    then (w, dup)
    else if leb d w_fwd
    then (record w { gap = d - 1; l = seq; beyond_n = 0 }, accept)
    else check_beyond w seq

unfoldable pub check : RxWindow → ℕ → RxWindow × RxVerdict
unfolding check_strict check_window
check w seq =
    if seq == 0 then (w, beyond) else if w.strict then check_strict w seq else check_window w seq

-- A stream's arrivals in order, with the verdict on each.
unfoldable pub run : RxWindow → List ℕ → RxWindow × List RxVerdict
run w [] = (w, [])
run w (s ∷ ss) = let (w', vs) = run (check w s).0 ss in (w', (check w s).1 ∷ vs)
