-- ===== src/Queue/Order.antt =====
-- What a stream's queue hands to the application, of what was put into it.
use grpc_dgram.Prelude.{
  ℕ, ◌+◌, ◌≤◌, ◌<◌, ◌≡◌, refl, ◌⊎◌, inl, inr, List, [], ◌∷◌, ◌++◌, Option, none, some, arith,
  length, length-append, Bool-cases, leb, ap, append_assoc,
}
use grpc_dgram.Queue.{FrameQueue, DropPolicy, newest, oldest, init, try_take, try_put, put_drop}

module _ {A : Type 0} where
  -- The first list, in order, within the second.
  abbrev pub Subsequence : List A → List A → Type 0
  Subsequence [] ys = Unit {0}
  Subsequence (x ∷ xs) [] = ⊥
  Subsequence (x ∷ xs) (y ∷ ys) = ((x ≡ y) × Subsequence xs ys) ⊎ Subsequence (x ∷ xs) ys

  weaken : (xs : List A) (y : A) (ys : List A) → Subsequence xs ys → Subsequence xs (y ∷ ys)
  weaken [] y ys s = tt
  weaken (x ∷ xs) y ys s = inr s

  without_first : (x : A) (xs ys : List A) → Subsequence (x ∷ xs) ys → Subsequence xs ys
  without_first x xs [] s = absurd s
  without_first x xs (y ∷ ys) (inl (e, s)) = weaken xs y ys s
  without_first x xs (y ∷ ys) (inr s) = weaken xs y ys (without_first x xs ys s)

  without_middle :
      (t : List A) (x : A) (b ys : List A) → Subsequence (t ++ x ∷ b) ys → Subsequence (t ++ b) ys
  without_middle [] x b ys s = without_first x b ys s
  without_middle (a ∷ t) x b [] s = absurd s
  without_middle (a ∷ t) x b (y ∷ ys) (inl (e, s)) = inl (e, without_middle t x b ys s)
  without_middle (a ∷ t) x b (y ∷ ys) (inr s) = inr (without_middle (a ∷ t) x b ys s)

  skip_last : (xs ys : List A) (f : A) → Subsequence xs ys → Subsequence xs (ys ++ (f ∷ []))
  skip_last [] ys f s = tt
  skip_last (x ∷ xs) [] f s = absurd s
  skip_last (x ∷ xs) (y ∷ ys) f (inl (e, s)) = inl (e, skip_last xs ys f s)
  skip_last (x ∷ xs) (y ∷ ys) f (inr s) = inr (skip_last (x ∷ xs) ys f s)

  keep_last :
      (xs ys : List A) (f : A) → Subsequence xs ys → Subsequence (xs ++ (f ∷ [])) (ys ++ (f ∷ []))
  keep_last [] [] f s = inl (refl, tt)
  keep_last [] (y ∷ ys) f s = inr (keep_last [] ys f tt)
  keep_last (x ∷ xs) [] f s = absurd s
  keep_last (x ∷ xs) (y ∷ ys) f (inl (e, s)) = inl (e, keep_last xs ys f s)
  keep_last (x ∷ xs) (y ∷ ys) f (inr s) = inr (keep_last (x ∷ xs) ys f s)

pub data Op (A : Type 0) : Type 0 where
  puts : A → DropPolicy → Op A
  takes : Op A

-- A queue with what was put into it and what was taken from it so far, in order.
pub record History (A : Type 0) : Type 0 where
  pub queue : FrameQueue A
  pub arrived : List A
  pub taken : List A

module _ {A : Type 0} where
  unfoldable pub start : ℕ → History A
  start cap = record { queue = init cap; arrived = []; taken = [] }

  after_take : History A → FrameQueue A × Option A → History A
  after_take h (q, none) = record h { queue = q }
  after_take h (q, some f) = record h { queue = q; taken = h.taken ++ (f ∷ []) }

  unfoldable pub step : History A → Op A → History A
  unfolding after_take
  step h (puts f policy) = record h {
    queue = (put_drop f policy h.queue).0;
    arrived = h.arrived ++ (f ∷ []);
  }
  step h takes = after_take h (try_take h.queue)

  unfoldable pub steps : History A → List (Op A) → History A
  steps h [] = h
  steps h (o ∷ os) = steps (step h o) os

  pub record Ordered (h : History A) : Type 0 where
    pub bounded : length h.queue.buf ≤ h.queue.cap
    pub counted : length h.taken + length h.queue.buf + h.queue.dropped ≡ length h.arrived
    pub in_order : Subsequence (h.taken ++ h.queue.buf) h.arrived

  abbrev Put : A → FrameQueue A → FrameQueue A → Type 0
  Put f q q' =
      (q'.cap ≡ q.cap)
      × (((length q.buf < q.cap) × (q'.buf ≡ q.buf ++ (f ∷ [])) × (q'.dropped ≡ q.dropped))
          ⊎ ((q'.buf ≡ q.buf) × (q'.dropped ≡ q.dropped + 1))
          ⊎ ((x : A) × (rest : List A) × (q.buf ≡ x ∷ rest)
              × (q'.buf ≡ rest ++ (f ∷ []))
              × (q'.dropped ≡ q.dropped + 1)))

  put_drop-Put :
      (f : A) (policy : DropPolicy) (q : FrameQueue A)
      → length q.buf ≤ q.cap
      → Put f q (put_drop f policy q).0
  unfolding put_drop try_put
  put_drop-Put f newest q h = ground arith
  put_drop-Put f oldest q h = split q.buf refl
    where
      split : (b : List A) → q.buf ≡ b → Put f q (put_drop f oldest q).0
      split [] e = ground arith
      split (x ∷ rest) e = elim (Bool-cases (leb q.cap (length q.buf))) [
        | inl full ↦ (ground arith, inr (inr (x, rest, e, ground arith, ground arith)))
        | inr room ↦ (ground arith, inl (ground arith))
      ]

  put-Ordered :
      (h : History A) (f : A) (policy : DropPolicy) → Ordered h → Ordered (step h (puts f policy))
  unfolding step
  put-Ordered h f policy v =
      let (c, cases) = put_drop-Put f policy h.queue v.bounded in
      elim cases [
        | inl (room, b, d) ↦ record {
          bounded = omega (arith, c, ap length b, length-append h.queue.buf (f ∷ []));
          counted = omega (
            arith,
            v.counted,
            d,
            ap length b,
            length-append h.queue.buf (f ∷ []),
            length-append h.arrived (f ∷ []),
          );
          in_order = rw (b, ← append_assoc) (keep_last _ h.arrived f v.in_order);
        }
        | inr (inl (b, d)) ↦ record {
          bounded = omega (arith, c, ap length b, v.bounded);
          counted = omega (arith, v.counted, d, ap length b, length-append h.arrived (f ∷ []));
          in_order = rw b (skip_last _ h.arrived f v.in_order);
        }
        | inr (inr (x, rest, e, b, d)) ↦ record {
          bounded =
              omega (arith, c, ap length b, ap length e, length-append rest (f ∷ []), v.bounded);
          counted = omega (
            arith,
            v.counted,
            d,
            ap length b,
            ap length e,
            length-append rest (f ∷ []),
            length-append h.arrived (f ∷ []),
          );
          in_order =
              rw (b, ← append_assoc)
                (keep_last _ h.arrived f
                  (without_middle h.taken x rest h.arrived (rw e at v.in_order)));
        }
      ]

  try_take_nil : (q : FrameQueue A) → q.buf ≡ [] → try_take q ≡ (q, none)
  unfolding try_take
  try_take_nil q e = ground arith

  try_take_cons :
      (q : FrameQueue A) (x : A) (rest : List A)
      → q.buf ≡ x ∷ rest
      → try_take q ≡ (record q { buf = rest }, some x)
  unfolding try_take
  try_take_cons q x rest e = ground arith

  take-Ordered : (h : History A) → Ordered h → Ordered (step h takes)
  unfolding step
  take-Ordered h v = split h.queue.buf refl
    where
      split : (b : List A) → h.queue.buf ≡ b → Ordered (step h takes)
      split [] e =
          rw (try_take_nil h.queue e)
            (record { bounded = v.bounded; counted = v.counted; in_order = v.in_order })
      split (x ∷ rest) e = rw (try_take_cons h.queue x rest e) (record {
        bounded = omega (arith, ap length e, v.bounded);
        counted = omega (arith, v.counted, ap length e, length-append h.taken (x ∷ []));
        in_order = rw append_assoc (rw e at v.in_order);
      })

  step-Ordered : (h : History A) (o : Op A) → Ordered h → Ordered (step h o)
  step-Ordered h (puts f policy) v = put-Ordered h f policy v
  step-Ordered h takes v = take-Ordered h v

  -- Along any history the queue stays within its capacity, every frame is taken, queued or counted
  -- as dropped, and what was taken, followed by what is queued, keeps the order of arrival.
  pub steps-Ordered : (h : History A) (os : List (Op A)) → Ordered h → Ordered (steps h os)
  unfolding steps
  steps-Ordered h [] v = v
  steps-Ordered h (o ∷ os) v = steps-Ordered (step h o) os (step-Ordered h o v)

  pub start-Ordered : (cap : ℕ) → Ordered (start cap)
  unfolding start init
  start-Ordered cap = record { bounded = omega arith; counted = omega arith; in_order = tt }
