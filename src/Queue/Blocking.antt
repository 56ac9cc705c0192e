-- ===== src/Queue/Blocking.antt =====
-- `FrameQueue.putBlocking` of ts/src/util.ts as a run over the moments at which its loop finds the
-- queue: between two of them readers, the call's end and the signal change what they like. The chain
-- that serializes the callers is not modelled: it decides when the first moment is.
use grpc_dgram.Prelude.{
  ◌≤◌, ◌<◌, ◌≡◌, refl, ◌⊎◌, inl, inr, Bool, true, false, List, [], ◌∷◌, ◌++◌, Option, none, some,
  arith, length, if◌then◌else◌,
}
use grpc_dgram.Queue.{FrameQueue, try_put}

pub record Moment (A : Type 0) : Type 0 where
  pub queue : FrameQueue A
  pub done : Bool
  pub is_aborted : Bool

-- What the put returned, absent while it still waits, and the queue.
pub record Put (A : Type 0) : Type 0 where
  pub returned : Option Bool
  pub queue : FrameQueue A

module _ {A : Type 0} where
  abbrev answer : Option Bool → FrameQueue A → Put A
  answer r q = record { returned = r; queue = q }

  -- One turn of the loop; `later` is what follows when the put waits.
  attempt : A → Moment A → Put A → Put A
  attempt f m later =
      let (q, admitted) = try_put f m.queue in
      if admitted
      then answer (some true) q
      else if m.done
      then answer (some true) m.queue
      else if m.is_aborted
      then answer (some false) m.queue
      else later

  unfoldable pub put_blocking : A → Moment A → List (Moment A) → Put A
  unfolding attempt
  put_blocking f m [] = attempt f m (answer none m.queue)
  put_blocking f m (m' ∷ ms) = attempt f m (put_blocking f m' ms)

  abbrev pub Occurs : Moment A → Moment A → List (Moment A) → Type 0
  Occurs n m [] = n ≡ m
  Occurs n m (m' ∷ ms) = (n ≡ m) ⊎ Occurs n m' ms

  -- The put was settled by what it found at moment `n`.
  abbrev pub SettledAt : A → Moment A → Put A → Type 0
  SettledAt f n r =
      ((length n.queue.buf < n.queue.cap)
        × (r.returned ≡ some true)
        × (r.queue ≡ record (n.queue) { buf = n.queue.buf ++ (f ∷ []) }))
      ⊎ ((n.queue.cap ≤ length n.queue.buf)
          × (r.queue ≡ n.queue)
          × (((n.done ≡ true) × (r.returned ≡ some true))
              ⊎ ((n.done ≡ false) × (n.is_aborted ≡ true) × (r.returned ≡ some false))
              ⊎ ((n.done ≡ false) × (n.is_aborted ≡ false) × (r.returned ≡ none))))

  abbrev pub Settled : A → Moment A → List (Moment A) → Put A → Type 0
  Settled f m ms r = (n : Moment A) × Occurs n m ms × SettledAt f n r

  settle :
      (f : A) (m : Moment A) (later : Put A)
      → SettledAt f m (attempt f m later) ⊎ (attempt f m later ≡ later)
  unfolding attempt try_put
  settle f m later = ground arith

  waits : (f : A) (m : Moment A) → SettledAt f m (attempt f m (answer none m.queue))
  unfolding attempt try_put
  waits f m = ground arith

  -- A ready buffer always wins, over the call's end and over the signal: along any schedule there is a
  -- moment that settled the put. If the queue had room then, the frame was appended and the put
  -- returns true. If not, the queue stands as that moment found it, and the put returns true if the
  -- call was over, false if only the signal had fired, and still waits otherwise.
  pub put_blocking-Settled :
      (f : A) (m : Moment A) (ms : List (Moment A)) → Settled f m ms (put_blocking f m ms)
  unfolding put_blocking
  put_blocking-Settled f m [] = (m, refl, waits f m)
  put_blocking-Settled f m (m' ∷ ms) = elim (settle f m (put_blocking f m' ms)) [
    | inl s ↦ (m, inl refl, s)
    | inr e ↦ let (n, o, s) = put_blocking-Settled f m' ms in (n, inr o, rw e s)
  ]
