-- ===== src/Server/Replies.antt =====
-- `Server.allowReply` of ts/src/server.ts: the aggregate budget of volunteered replies of one peer.
use grpc_dgram.Prelude.{
  ℕ, suc, ◌+◌, ◌*◌, ◌≤◌, ◌<◌, ◌≡◌, refl, Bool, true, false, List, [], ◌∷◌, Option, none, some, leb,
  arith, if◌then◌else◌, All, ◌⊎◌, inl, inr, Bool-cases, Option-cases,
}

pub record ReplyBudget : Type 0 where
  pub window_start : ℕ
  pub n : ℕ

-- What `allowReply` reads and writes: the slot's budget, the server-wide count of budgets, and the
-- limits.
pub record Budgets : Type 0 where
  pub reply_budget : Option ReplyBudget
  pub reply_budget_total : ℕ
  pub max_pending_resets : ℕ
  pub retransmit : ℕ
  pub max_replies : ℕ

-- The window restarts once a retransmission interval has gone by.
unfoldable pub roll : ℕ → ℕ → ReplyBudget → ReplyBudget
roll now rti b = if leb (b.window_start + rti) now then record { window_start = now; n = 0 } else b

unfoldable pub spend : ReplyBudget → Budgets → Budgets × Bool
spend b s =
    if leb s.max_replies b.n
    then (record s { reply_budget = some b }, false)
    else (record s { reply_budget = some (record b { n = b.n + 1 }) }, true)

unfoldable pub allow_reply : ℕ → Budgets → Budgets × Bool
allow_reply now s = elim s.reply_budget [
  | some b ↦ spend (roll now s.retransmit b) s
  | none ↦
      if leb s.max_pending_resets s.reply_budget_total
      then (s, false)
      else spend (roll now s.retransmit (record { window_start = now; n = 0 }))
          (record s { reply_budget_total = s.reply_budget_total + 1 })
]

le-or-lt : (a b : ℕ) → (a ≤ b) ⊎ (b < a)
le-or-lt a b = ground arith

-- The requests for replies at the given times, one after another, and how many were allowed.
unfoldable pub replies : List ℕ → Budgets → Budgets × ℕ
replies [] s = (s, 0)
replies (now ∷ later) s =
    let (s', ok) = allow_reply now s in
    let (s'', n) = replies later s' in (s'', if ok then suc n else n)

abbrev pub Within : ℕ → ℕ → List ℕ → Type 0
Within t rti ts = All (λ now. (t ≤ now) × (now < t + rti)) ts

roll_stays : (now rti : ℕ) (b : ReplyBudget) → now < b.window_start + rti → roll now rti b ≡ b
unfolding roll
roll_stays now rti b h = ground arith

spend_full :
    (b : ReplyBudget) (s : Budgets)
    → s.max_replies ≤ b.n
    → spend b s ≡ (record s { reply_budget = some b }, false)
unfolding spend
spend_full b s h = ground arith

spend_more :
    (b : ReplyBudget) (s : Budgets)
    → b.n < s.max_replies
    → spend b s ≡ (record s { reply_budget = some (record b { n = b.n + 1 }) }, true)
unfolding spend
spend_more b s h = ground arith

-- In a window that began at `t` or later nothing restarts before `t + rti`.
one_window :
    (t : ℕ) (ts : List ℕ) (b : ReplyBudget) (s : Budgets)
    → s.reply_budget ≡ some b
    → t ≤ b.window_start
    → b.n ≤ s.max_replies
    → Within t s.retransmit ts
    → (replies ts s).1 + b.n ≤ s.max_replies
unfolding replies allow_reply
one_window t [] b s e h k w = omega (arith, k)
one_window t (now ∷ ts) b s e h k w =
    let r = roll_stays now s.retransmit b (omega (arith, w.0.1, h)) in
    let b' = record b { n = b.n + 1 } in
    elim (le-or-lt s.max_replies b.n) [
      | inl full ↦
          rw (e, allow_reply, r, spend_full b s full)
            (one_window t ts b (record s { reply_budget = some b }) refl h k w.1)
      | inr l ↦
          let ih =
            one_window t ts b' (record s { reply_budget = some b' }) refl h (omega (arith, l))
              w.1 in
          rw (e, allow_reply, r, spend_more b s l) (omega (arith, ih))
    ]

roll_restarts :
    (now rti : ℕ) (b : ReplyBudget)
    → b.window_start + rti ≤ now
    → roll now rti b ≡ record { window_start = now; n = 0 }
unfolding roll
roll_restarts now rti b h = ground arith

roll_fresh :
    (now rti : ℕ)
    → roll now rti (record { window_start = now; n = 0 }) ≡ record { window_start = now; n = 0 }
unfolding roll
roll_fresh now rti = ground arith

-- From a request that starts a window on.
fresh_window :
    (t now : ℕ) (ts : List ℕ) (s : Budgets)
    → t ≤ now
    → Within t s.retransmit ts
    → (if (spend (record { window_start = now; n = 0 }) s).1
        then suc (replies ts (spend (record { window_start = now; n = 0 }) s).0).1
        else (replies ts (spend (record { window_start = now; n = 0 }) s).0).1)
      ≤ s.max_replies
fresh_window t now ts s h w =
    let b : ReplyBudget = record { window_start = now; n = 0 } in
    let b' : ReplyBudget = record { window_start = now; n = 1 } in
    elim (le-or-lt s.max_replies 0) [
      | inl full ↦
          let k = one_window t ts b (record s { reply_budget = some b }) refl h (omega arith) w in
          rw (spend_full b s full) (omega (arith, k))
      | inr l ↦
          let k =
            one_window t ts b' (record s { reply_budget = some b' }) refl h (omega (arith, l)) w in
          rw (spend_more b s l) (omega (arith, k))
    ]

two_windows :
    (t : ℕ) (ts : List ℕ) (b : ReplyBudget) (s : Budgets)
    → s.reply_budget ≡ some b
    → b.n ≤ s.max_replies
    → Within t s.retransmit ts
    → (replies ts s).1 + b.n ≤ 2 * s.max_replies
unfolding replies allow_reply
two_windows t [] b s e k w = omega (arith, k)
two_windows t (now ∷ ts) b s e k w =
    let b' = record b { n = b.n + 1 } in
    elim (le-or-lt (b.window_start + s.retransmit) now) [
      | inl over ↦
          let fresh = fresh_window t now ts s w.0.0 w.1 in
          rw (e, allow_reply, roll_restarts now s.retransmit b over) (omega (arith, fresh, k))
      | inr before ↦
          let r = roll_stays now s.retransmit b before in
          elim (le-or-lt s.max_replies b.n) [
            | inl full ↦
                rw (e, allow_reply, r, spend_full b s full)
                  (two_windows t ts b (record s { reply_budget = some b }) refl k w.1)
            | inr l ↦
                let ih =
                  two_windows t ts b' (record s { reply_budget = some b' }) refl (omega (arith, l))
                    w.1 in
                rw (e, allow_reply, r, spend_more b s l) (omega (arith, ih))
          ]
    ]

-- The budget that is there has not been overspent.
abbrev pub IsKept : Budgets → Type 0
IsKept s = elim s.reply_budget [ none ↦ Unit {0} | some b ↦ b.n ≤ s.max_replies ]

no_budget :
    (t : ℕ) (ts : List ℕ) (s : Budgets)
    → s.reply_budget ≡ none
    → Within t s.retransmit ts
    → (replies ts s).1 ≤ s.max_replies
unfolding replies allow_reply
no_budget t [] s e w = omega arith
no_budget t (now ∷ ts) s e w =
    let s' = record s { reply_budget_total = s.reply_budget_total + 1 } in
    elim (Bool-cases (leb s.max_pending_resets s.reply_budget_total)) [
      | inl deny ↦ rw (e, allow_reply, deny) (no_budget t ts s e w.1)
      | inr room ↦
          rw (e, allow_reply, room, roll_fresh now s.retransmit)
            (fresh_window t now ts s' w.0.0 w.1)
    ]

-- From a budget that is not overspent, however many replies are asked for within one retransmission interval, at most twice the budget is
-- sent: a window that was running, and the one that replaces it.
pub replies_bounded :
    (t : ℕ) (ts : List ℕ) (s : Budgets)
    → IsKept s
    → Within t s.retransmit ts
    → (replies ts s).1 ≤ 2 * s.max_replies
replies_bounded t ts s k w = elim (Option-cases s.reply_budget) [
  | inl e ↦ omega (arith, no_budget t ts s e w)
  | inr (b, e) ↦ omega (arith, two_windows t ts b s e (ground (arith, e, k)) w)
]
