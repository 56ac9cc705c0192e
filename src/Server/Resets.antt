-- ===== src/Server/Resets.antt =====
-- `Server.sendReset` of ts/src/server.ts: an immediate RESET, limited per call and per peer. A call's
-- key, `${epoch}:${sid}`, is the pair of the numbers. The peer's slot is there: `ensureSlot` made it.
use grpc_dgram.Prelude.{
  ℕ, suc, ◌+◌, ◌≤◌, ◌<◌, ◌≡◌, refl, sym, ap, subst, ◌∙◌, ◌⊎◌, inl, inr, All, Bool-cases, Bool, true,
  false, ◌&&◌, List, [], ◌∷◌, Option, none, some, arith, leb, ltb, ◌==◌, if◌then◌else◌,
}
use grpc_dgram.Wire.Flags.{Frame, reset_for}
use grpc_dgram.Server.Replies
use grpc_dgram.Server.Replies.{Budgets, allow_reply}

-- `resetAt`: when each call was last reset.
abbrev pub ResetAt : Type 0
ResetAt = List ((ℕ × ℕ) × ℕ)

abbrev same_key : ℕ × ℕ → ℕ × ℕ → Bool
same_key (e, s) (e', s') = e == e' && s == s'

unfoldable pub last_reset : ℕ × ℕ → ResetAt → Option ℕ
last_reset k [] = none
last_reset k ((j, at) ∷ m) = if same_key j k then some at else last_reset k m

unfoldable pub mark_reset : ℕ × ℕ → ℕ → ResetAt → ResetAt
mark_reset k now [] = (k, now) ∷ []
mark_reset k now ((j, at) ∷ m) = if same_key j k then (k, now) ∷ m else (j, at) ∷ mark_reset k now m

-- What `sendReset` reads and writes for one peer.
pub record Resets : Type 0 where
  pub reliable : Bool
  pub reset_at : ResetAt
  pub reset_at_total : ℕ
  pub budgets : Budgets

abbrev pub is_none : Option ℕ → Bool
is_none none = true
is_none (some n) = false

-- The call was reset within the last retransmission interval, or its key is new and the map is full.
unfoldable pub limited : ℕ → Option ℕ → Resets → Bool
limited now (some last) s = ltb now (last + s.budgets.retransmit)
limited now none s = leb s.budgets.max_pending_resets s.reset_at_total

-- `eksid(f.epoch, f.sid)`
abbrev pub eksid : Frame → ℕ × ℕ
eksid f = (f.epoch, f.sid)

unfoldable pub send_reset : ℕ → Frame → Resets → Resets × Option Frame
send_reset now f s =
    let k = eksid f in
    let last = last_reset k s.reset_at in
    let (b, allowed) = allow_reply now s.budgets in
    if s.reliable
    then (s, some (reset_for f))
    else if limited now last s
    then (s, none)
    else if allowed
    then (
      record s {
        reset_at = mark_reset k now s.reset_at;
        reset_at_total = if is_none last then s.reset_at_total + 1 else s.reset_at_total;
        budgets = b;
      },
      some (reset_for f),
    )
    else (record s { budgets = b }, none)

last_reset-mark_reset :
    (k : ℕ × ℕ) (now : ℕ) (m : ResetAt) → last_reset k (mark_reset k now m) ≡ some now
unfolding last_reset mark_reset
last_reset-mark_reset k now [] = ground arith
last_reset-mark_reset k now ((j, at) ∷ m) = ground (arith, last_reset-mark_reset k now m)

spend_keeps : (now : ℕ) (b : Budgets) → (allow_reply now b).0.retransmit ≡ b.retransmit
unfolding allow_reply Replies.spend
spend_keeps now b = ground arith

last_reset-mark_other :
    (k j : ℕ × ℕ) (now : ℕ) (m : ResetAt)
    → same_key j k ≡ false
    → last_reset k (mark_reset j now m) ≡ last_reset k m
unfolding last_reset mark_reset
last_reset-mark_other k j now [] h = ground (arith, h)
last_reset-mark_other k j now ((i, at) ∷ m) h = ground (arith, h, last_reset-mark_other k j now m h)

abbrev is_reply : Option Frame → Bool
is_reply none = false
is_reply (some f) = true

-- The stray frames that come at the given times, and how many of the call's are answered at once.
unfoldable pub resets_for : ℕ × ℕ → List (ℕ × Frame) → Resets → ℕ
resets_for k [] s = 0
resets_for k ((now, f) ∷ fs) s =
    let (s', r) = send_reset now f s in
    let rest = resets_for k fs s' in if same_key (eksid f) k && is_reply r then suc rest else rest

abbrev pub Within : ℕ → ℕ → List (ℕ × Frame) → Type 0
Within t rti fs = All (λ (now, f). (t ≤ now) × (now < t + rti)) fs

same_mode :
    (now : ℕ) (f : Frame) (s : Resets)
    → ((send_reset now f s).0.reliable ≡ s.reliable)
      × ((send_reset now f s).0.budgets.retransmit ≡ s.budgets.retransmit)
unfolding send_reset limited
same_mode now f s = ground (arith, spend_keeps now s.budgets)

-- A frame of the call is answered, and marked, or it changes no mark.
send_reset_own :
    (now : ℕ) (f : Frame) (s : Resets)
    → s.reliable ≡ false
    → (((send_reset now f s).1 ≡ none) × ((send_reset now f s).0.reset_at ≡ s.reset_at))
      ⊎ (last_reset (eksid f) (send_reset now f s).0.reset_at ≡ some now)
unfolding send_reset limited
send_reset_own now f s u = ground (arith, last_reset-mark_reset (f.epoch, f.sid) now s.reset_at)

-- A frame of another call leaves the call's mark.
send_reset_other :
    (now : ℕ) (k : ℕ × ℕ) (f : Frame) (s : Resets)
    → s.reliable ≡ false
    → same_key (eksid f) k ≡ false
    → last_reset k (send_reset now f s).0.reset_at ≡ last_reset k s.reset_at
unfolding send_reset limited
send_reset_other now k f s u e = ground (arith, last_reset-mark_other k (eksid f) now s.reset_at e)

send_reset_marked :
    (now at : ℕ) (f : Frame) (s : Resets)
    → s.reliable ≡ false
    → now < at + s.budgets.retransmit
    → last_reset (eksid f) s.reset_at ≡ some at
    → ((send_reset now f s).1 ≡ none) × ((send_reset now f s).0.reset_at ≡ s.reset_at)
unfolding send_reset limited
send_reset_marked now at f s u h l = rw (l, limited) (ground arith)

key_eq : (j k : ℕ × ℕ) → same_key j k ≡ true → j ≡ k
key_eq (a, b) (c, d) h = ground (arith, h)

-- Within an interval after its mark, no frame of the call is answered.
marked_silent :
    (t at rti : ℕ) (k : ℕ × ℕ) (fs : List (ℕ × Frame)) (s : Resets)
    → s.reliable ≡ false
    → s.budgets.retransmit ≡ rti
    → Within t rti fs
    → t ≤ at
    → last_reset k s.reset_at ≡ some at
    → resets_for k fs s ≡ 0
unfolding resets_for
marked_silent t at rti k [] s u r w h l = refl
marked_silent t at rti k ((now, f) ∷ fs) s u r w h l =
    let s' = (send_reset now f s).0 in
    let (m, m') = same_mode now f s in
    let ih = marked_silent t at rti k fs s' (m ∙ u) (m' ∙ r) w.1 h in
    elim (Bool-cases (same_key (eksid f) k)) [
      | inl e ↦
          let l' : last_reset (eksid f) s.reset_at ≡ some at =
            subst (λ x. last_reset x s.reset_at ≡ some at) (sym (key_eq (eksid f) k e)) l in
          let (quiet, same) = send_reset_marked now at f s u (omega (arith, w.0, r, h)) l' in
          rw (e, quiet) (ih (ap (last_reset k) same ∙ l))
      | inr e ↦ rw e (ih (send_reset_other now k f s u e ∙ l))
    ]

-- On an unreliable channel, of all the stray frames of one call that come within one retransmission
-- interval, among those of other calls and in any order, at most one is answered with a RESET at once.
-- The RESETs that a sweep sends after its delay are not counted.
pub resets_for_bounded :
    (t rti : ℕ) (k : ℕ × ℕ) (fs : List (ℕ × Frame)) (s : Resets)
    → s.reliable ≡ false
    → s.budgets.retransmit ≡ rti
    → Within t rti fs
    → resets_for k fs s ≤ 1
unfolding resets_for
resets_for_bounded t rti k [] s u r w = omega arith
resets_for_bounded t rti k ((now, f) ∷ fs) s u r w =
    let s' = (send_reset now f s).0 in
    let (m, m') = same_mode now f s in
    let ih = resets_for_bounded t rti k fs s' (m ∙ u) (m' ∙ r) w.1 in
    elim (Bool-cases (same_key (eksid f) k)) [
      | inl e ↦ elim (send_reset_own now f s u) [
        | inl (quiet, _) ↦ rw (e, quiet) ih
        | inr marked ↦
            let marked' : last_reset k s'.reset_at ≡ some now =
              subst (λ x. last_reset x s'.reset_at ≡ some now) (key_eq (eksid f) k e) marked in
            let silent =
              marked_silent t now rti k fs s' (m ∙ u) (m' ∙ r) w.1 (omega (arith, w.0)) marked' in
            rw (e, silent) (ground arith)
      ]
      | inr e ↦ rw e ih
    ]
