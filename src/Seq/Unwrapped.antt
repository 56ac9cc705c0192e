-- ===== src/Seq/Unwrapped.antt =====
-- The window against frame numbers that do not wrap: frame `m` carries `m % 2 ^ 32`.
use grpc_dgram.Prelude.{
  ℕ, ◌+◌, ◌-◌, ◌%◌, ◌≤◌, ◌<◌, ◌≡◌, ◌≢◌, Bool, true, false, List, [], ◌∷◌, length, arith, u32_mod,
  ltb, leb, ◌⊎◌, inl, inr, ◌&&◌, if◌then◌else◌,
}
use grpc_dgram.Seq.{RxVerdict, accept, dup, RxWindow, w_fwd, check, take_gap}

abbrev half : ℕ
half = 0x80000000

pub is_accept : RxVerdict → Bool
is_accept accept = true
is_accept _ = false

-- What the specification delivers.
unfoldable pub in_reach : ℕ → ℕ → Bool
in_reach n m = ltb n m && leb m (n + w_fwd)

-- The window's position stands for `n`, and it is not strict.
abbrev pub At : RxWindow → ℕ → Type 0
At w n = (w.strict ≡ false) × (w.l ≡ n % u32_mod)

module _ (w : RxWindow) (n m : ℕ) (at : At w n) (nz : m % u32_mod ≢ 0) where
  check_next :
      n < m
      → m ≤ n + w_fwd
      → check w (m % u32_mod)
        ≡ (record w { l = m % u32_mod; gap = m - n - 1; beyond_n = 0 }, accept)
  unfolding check
  check_next h k = ground arith

  check_old : m ≤ n → n < m + half → check w (m % u32_mod) ≡ (w, dup)
  unfolding check
  check_old h k = ground arith

  check_ahead :
      n + w_fwd < m
      → m < n + half
      → ((check w (m % u32_mod)).0.l ≡ w.l)
        × ((check w (m % u32_mod)).0.strict ≡ w.strict)
        × (is_accept (check w (m % u32_mod)).1 ≡ false)
  unfolding check is_accept
  check_ahead h k = ground arith

-- The frames that the window hands on, of those that arrive, and the frames that it reports as
-- skipped: an endpoint takes the gap of each accepted frame at once.
unfoldable pub delivered : RxWindow → List ℕ → List ℕ
unfolding is_accept
delivered w [] = []
delivered w (m ∷ ms) =
    let (w', v) = check w (m % u32_mod) in
    let now = m ∷ delivered (take_gap w').0 ms in
    let later = delivered w' ms in if is_accept v then now else later

unfoldable pub skipped : RxWindow → List ℕ → ℕ
unfolding is_accept
skipped w [] = 0
skipped w (m ∷ ms) =
    let (w', v) = check w (m % u32_mod) in
    let now = (take_gap w').1 + skipped (take_gap w').0 ms in
    let later = skipped w' ms in if is_accept v then now else later

abbrev pub last_or : ℕ → List ℕ → ℕ
last_or n [] = n
last_or n (m ∷ ms) = last_or m ms

-- Each delivered frame follows the one before by at most the window.
abbrev pub Steps : ℕ → List ℕ → Type 0
Steps n [] = Unit {0}
Steps n (m ∷ ms) = (n < m) × (m ≤ n + w_fwd) × Steps m ms

-- Frame numbers of one run of 2 ^ 31 frames, none of which carries 0.
abbrev pub Within : ℕ → List ℕ → Type 0
Within base [] = Unit {0}
Within base (m ∷ ms) = (base ≤ m) × (m < base + half) × (m % u32_mod ≢ 0) × Within base ms

check_cases :
    (w : RxWindow) (n m : ℕ)
    → At w n
    → m % u32_mod ≢ 0
    → n < m + half
    → m < n + half
    → ((n < m)
        × (m ≤ n + w_fwd)
        × (is_accept (check w (m % u32_mod)).1 ≡ true)
        × At (check w (m % u32_mod)).0 m
        × ((check w (m % u32_mod)).0.gap ≡ m - n - 1))
      ⊎ (((m ≤ n) ⊎ (n + w_fwd < m))
          × (is_accept (check w (m % u32_mod)).1 ≡ false)
          × At (check w (m % u32_mod)).0 n)
unfolding check is_accept
check_cases w n m at nz below above = ground arith

take_gap-At : (w : RxWindow) (n : ℕ) → At w n → At (take_gap w).0 n
unfolding take_gap
take_gap-At w n at = at

module _ (base : ℕ) where
  -- Delivered frames keep their order, none comes twice, and no step passes the window.
  pub delivered-Steps :
      (w : RxWindow) (n : ℕ) (ms : List ℕ)
      → At w n
      → base ≤ n
      → n < base + half
      → Within base ms
      → Steps n (delivered w ms)
  unfolding delivered
  delivered-Steps w n [] at lo hi wi = tt
  delivered-Steps w n (m ∷ ms) at lo hi wi =
      let (w', v) = check w (m % u32_mod) in
      elim (check_cases w n m at wi.2 (omega arith) (omega arith)) [
        | inl (p, q, acc, at', _) ↦
            rw acc
              (p, q, delivered-Steps (take_gap w').0 m ms (take_gap-At w' m at') wi.0 wi.1 wi.3)
        | inr (_, rej, at') ↦ rw rej (delivered-Steps w' n ms at' lo hi wi.3)
      ]

  -- The reported gaps count exactly the frames between the start and the last delivered frame
  -- that were not delivered.
  pub skipped_count :
      (w : RxWindow) (n : ℕ) (ms : List ℕ)
      → At w n
      → base ≤ n
      → n < base + half
      → Within base ms
      → n + length (delivered w ms) + skipped w ms ≡ last_or n (delivered w ms)
  unfolding delivered skipped
  skipped_count w n [] at lo hi wi = omega arith
  skipped_count w n (m ∷ ms) at lo hi wi =
      let (w', v) = check w (m % u32_mod) in
      elim (check_cases w n m at wi.2 (omega arith) (omega arith)) [
        | inl (p, q, acc, at', g) ↦ rw acc (
            omega (
              arith,
              skipped_count (take_gap w').0 m ms (take_gap-At w' m at') wi.0 wi.1 wi.3,
              taken w' (m - n - 1) g,
            ))
        | inr (_, rej, at') ↦ rw rej (skipped_count w' n ms at' lo hi wi.3)
      ]
    where
      taken : (w' : RxWindow) (g : ℕ) → w'.gap ≡ g → (take_gap w').1 ≡ g
      taken w' g e = unfold take_gap in e
