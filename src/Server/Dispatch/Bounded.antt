-- ===== src/Server/Dispatch/Bounded.antt =====
-- The replies, the RESETs and the grants of ts/src/server.ts keep the counts of a peer's slot.
use grpc_dgram.Prelude.{
  ℕ, ◌≡◌, refl, sym, ◌∙◌, subst, Bool, true, not, ◌&&◌, ◌||◌, [], ◌∷◌, Option, none, some, ◌==◌,
  arith, if_both, length, All,
}
use grpc_dgram.OrderedMap.{OrderedMap, get, has, length-set, All-get, Distinct, Fresh, get-set_self}
use grpc_dgram.Flow.Sender.{grant}
use grpc_dgram.Wire.Flags.{Frame}
use grpc_dgram.Server.Tombs.{SrvTomb, replay_tomb, replay_due, stored}
use grpc_dgram.Server.Table.{
  Config, Desk, Slot, Container, Live, slot_of, container_of, grant_on, allow, send_reset, put_slot,
  put_container,
}
use grpc_dgram.Server.Table.Counted.{Counted, Exact, total, put_container-Counted}
use grpc_dgram.Server.Dispatch.{
  replay, return_credit, delay_reset, reset_calls, silenced, seen, reset_by_peer, disown, reset_in,
  reset_slot, answered, probed, pinged, ping_at, grant_at, granted_evicted,
}

-- The counts of the desk's slot.
abbrev pub Sound : Config → Desk → Type 0
Sound cfg d = Counted cfg (slot_of d.slot)

pub same-Counted :
    (cfg : Config) (s s' : Slot)
    → s'.epochs ≡ s.epochs
    → s'.live_calls ≡ s.live_calls
    → Counted cfg s
    → Counted cfg s'
same-Counted cfg s s' e l c = record {
  each = rw e c.each;
  apart = rw e c.apart;
  sum = rw (e, l) c.sum;
  cap = rw l c.cap;
  few = rw e c.few;
}

-- The table and the count of the second desk are those of the first.
abbrev pub Same : Desk → Desk → Type 0
Same d d' =
    ((slot_of d'.slot).epochs ≡ (slot_of d.slot).epochs)
    × ((slot_of d'.slot).live_calls ≡ (slot_of d.slot).live_calls)

pub Same-Sound : (cfg : Config) (d d' : Desk) → Same d d' → Sound cfg d → Sound cfg d'
Same-Sound cfg d d' h c = same-Counted cfg (slot_of d.slot) (slot_of d'.slot) h.0 h.1 c

send_reset-Same :
    (cfg : Config) (now : ℕ) (rel : Bool) (f : Frame) (d : Desk)
    → Same d (send_reset cfg now rel f d)
unfolding send_reset slot_of
send_reset-Same cfg now rel f d = ground arith

pub reset-Sound :
    (cfg : Config) (now : ℕ) (rel : Bool) (f : Frame) (d : Desk)
    → Sound cfg d
    → Sound cfg (send_reset cfg now rel f d)
reset-Sound cfg now rel f d c =
    Same-Sound cfg d (send_reset cfg now rel f d) (send_reset-Same cfg now rel f d) c

pub return_credit-Same : (cfg : Config) (f : Frame) (d : Desk) → Same d (return_credit cfg f d)
unfolding return_credit grant_on slot_of
return_credit-Same cfg f d = ground arith

pub delay_reset-Same :
    (cfg : Config) (now : ℕ) (f : Frame) (d : Desk) → Same d (delay_reset cfg now f d)
unfolding delay_reset slot_of
delay_reset-Same cfg now f d = ground arith

allow-Same :
    (cfg : Config) (now : ℕ) (s : Slot) (d : Desk) → Same (put_slot s d) (allow cfg now s d).0
unfolding allow slot_of
allow-Same cfg now s d = (refl, refl)

-- The container `ps` is in the table.
abbrev At : Container → Desk → Type 0
At ps d = get ps.epoch (slot_of d.slot).epochs ≡ some ps

answered-Same : (tb : SrvTomb) (o : Option Frame) (d : Desk) → Same d (answered tb o d)
unfolding answered
answered-Same tb none d = (refl, refl)
answered-Same tb (some g) d = (refl, refl)

pub replay-Sound :
    (cfg : Config) (now : ℕ) (tb : SrvTomb) (ps : Container) (s : Slot) (d : Desk)
    → get ps.epoch s.epochs ≡ some ps
    → Counted cfg s
    → Sound cfg (replay cfg now tb ps s d).0
unfolding replay
replay-Sound cfg now tb ps s d at c =
    let d1 = (allow cfg now s d).0 in
    let kept : Sound cfg (put_slot s d) = unfold slot_of in c in
    let b = Same-Sound cfg (put_slot s d) d1 (allow-Same cfg now s d) kept in
    let here : get ps.epoch (slot_of d1.slot).epochs ≡ some ps = unfold allow slot_of in at in
    let (state, answer) = replay_tomb tb now cfg.retransmit ps.state in
    let d2 = put_slot (put_container (record ps { state = state }) (slot_of d1.slot)) d1 in
    let b2 : Sound cfg d2 =
      unfold slot_of in
      put_container-Counted cfg (slot_of d1.slot) ps (record ps { state = state }) here refl refl
        b in
    if_both (λ (r : Desk × Bool). Sound cfg r.0) (not (replay_due tb now cfg.retransmit)) kept
      (if_both (λ (r : Desk × Bool). Sound cfg r.0) (allow cfg now s d).1
        (Same-Sound cfg d2 (answered tb answer d2) (answered-Same tb answer d2) b2) b)

-- A container that is in the table is seen.
pub seen_lem :
    (cfg : Config) (now : ℕ) (ps : Container) (s : Slot)
    → get ps.epoch s.epochs ≡ some ps
    → Counted cfg s
    → Counted cfg (put_container (seen now ps) s)
seen_lem cfg now ps s at c = put_container-Counted cfg s ps (seen now ps) at refl refl c

probed-Sound :
    (cfg : Config) (now : ℕ) (rel : Bool) (f : Frame) (tb : SrvTomb) (ps : Container) (s : Slot)
    (d : Desk)
    → get ps.epoch s.epochs ≡ some ps
    → Counted cfg s
    → Sound cfg (probed cfg now rel f tb ps s d)
unfolding probed
probed-Sound cfg now rel f tb ps s d at c =
    let (d1, sent) = replay cfg now tb ps s d in
    let r = replay-Sound cfg now tb ps s d at c in
    if_both (λ (x : Desk). Sound cfg x) (sent || stored tb) r (reset-Sound cfg now rel f d1 r)

pinged-Sound :
    (cfg : Config) (now : ℕ) (rel : Bool) (f : Frame) (ps : Container) (s : Slot) (d : Desk)
    → get ps.epoch s.epochs ≡ some ps
    → Counted cfg s
    → Sound cfg (pinged cfg now rel f ps s d)
unfolding pinged
pinged-Sound cfg now rel f ps s d at c =
    let kept : Sound cfg (put_slot s d) = unfold slot_of in c in
    let reset = reset-Sound cfg now rel f (put_slot s d) kept in
    if_both (λ (x : Desk). Sound cfg x) (f.sid == 0 || has f.sid ps.calls) kept
      (elim (get f.sid ps.state.tombs)
        as (λ o. Sound cfg (elim o [
          | none ↦ send_reset cfg now rel f (put_slot s d)
          | some tb ↦ probed cfg now rel f tb ps s d
        ])) [ none ↦ reset | some tb ↦ probed-Sound cfg now rel f tb ps s d at c ])

pub container_of_lem :
    (epoch : ℕ) (o : Option Slot) → container_of epoch o ≡ get epoch (slot_of o).epochs
unfolding container_of slot_of get
container_of_lem epoch none = refl
container_of_lem epoch (some s) = refl

-- A container stands under its own epoch.
pub own_epoch :
    (cfg : Config) (epoch : ℕ) (ps : Container) (d : Desk)
    → Sound cfg d
    → container_of epoch d.slot ≡ some ps
    → (ps.epoch ≡ epoch) × (get ps.epoch (slot_of d.slot).epochs ≡ some ps)
own_epoch cfg epoch ps d c at =
    let h : get epoch (slot_of d.slot).epochs ≡ some ps =
      sym (container_of_lem epoch d.slot) ∙ at in
    let e = (All-get Exact epoch (slot_of d.slot).epochs ps c.each h).0 in
    (e, subst (λ k. get k (slot_of d.slot).epochs ≡ some ps) (sym e) h)

pub on_ping-Sound :
    (cfg : Config) (now : ℕ) (rel : Bool) (f : Frame) (o : Option Container) (d : Desk)
    → container_of f.epoch d.slot ≡ o
    → Sound cfg d
    → Sound cfg (ping_at cfg now rel f o d)
unfolding ping_at
on_ping-Sound cfg now rel f none d at c =
    if_both (λ (x : Desk). Sound cfg x) (f.sid == 0) c (reset-Sound cfg now rel f d c)
on_ping-Sound cfg now rel f (some ps) d at c =
    let h = (own_epoch cfg f.epoch ps d c at).1 in
    pinged-Sound cfg now rel f (seen now ps) (put_container (seen now ps) (slot_of d.slot)) d
      (get-set_self ps.epoch (seen now ps) (slot_of d.slot).epochs)
      (seen_lem cfg now ps (slot_of d.slot) h c)

granted_evicted-Same :
    (epoch n : ℕ) (d : Desk) → Same d (record d { slot = granted_evicted epoch n d.slot })
unfolding granted_evicted slot_of
granted_evicted-Same epoch n d = ground arith

pub on_grant-Sound :
    (cfg : Config) (f : Frame) (o : Option Container) (d : Desk)
    → container_of f.epoch d.slot ≡ o
    → Sound cfg d
    → Sound cfg (grant_at f o d)
unfolding grant_at slot_of
on_grant-Sound cfg f none d at c =
    Same-Sound cfg d (record d { slot = granted_evicted f.epoch f.window d.slot })
      (granted_evicted-Same f.epoch f.window d) c
on_grant-Sound cfg f (some ps) d at c =
    let h = (own_epoch cfg f.epoch ps d c at).1 in
    put_container-Counted cfg (slot_of d.slot) ps
      (record ps { conn_tx = grant f.window ps.conn_tx }) h refl refl c

-- The calls that a RESET cancels stay in the table until their handlers return.
disown_same :
    (sid : ℕ) (o : Option Live) (ps : Container)
    → get sid ps.calls ≡ o
    → ((disown sid o ps).epoch ≡ ps.epoch)
      × ((disown sid o ps).live_calls ≡ ps.live_calls)
      × (length (disown sid o ps).calls ≡ length ps.calls)
unfolding disown
disown_same sid none ps e = (refl, refl, refl)
disown_same sid (some v) ps e =
    let l = length-set sid (silenced reset_by_peer v) ps.calls in
    let h : has sid ps.calls ≡ true = unfold has in rw e refl in (refl, refl, ground (arith, l, h))

reset_in_same :
    (sid peer_epoch : ℕ) (ps : Container)
    → ((reset_in sid peer_epoch ps).epoch ≡ ps.epoch)
      × ((reset_in sid peer_epoch ps).live_calls ≡ ps.live_calls)
      × (length (reset_in sid peer_epoch ps).calls ≡ length ps.calls)
unfolding reset_in
reset_in_same sid peer_epoch ps =
    if_both
      (λ (p : Container).
        (p.epoch ≡ ps.epoch) × (p.live_calls ≡ ps.live_calls) × (length p.calls ≡ length ps.calls))
      (not (peer_epoch == 0) && not (ps.epoch == peer_epoch)) (refl, refl, refl)
      (disown_same sid (get sid ps.calls) ps refl)

reset_calls-Fresh :
    (sid peer_epoch k : ℕ) (m : OrderedMap Container)
    → Fresh k m
    → Fresh k (reset_calls sid peer_epoch m)
unfolding reset_calls
reset_calls-Fresh sid peer_epoch k [] f = tt
reset_calls-Fresh sid peer_epoch k ((e, ps) ∷ m) f = (f.0, reset_calls-Fresh sid peer_epoch k m f.1)

reset_calls_each :
    (sid peer_epoch : ℕ) (m : OrderedMap Container)
    → All Exact m
    → Distinct m
    → All Exact (reset_calls sid peer_epoch m)
      × Distinct (reset_calls sid peer_epoch m)
      × (total (reset_calls sid peer_epoch m) ≡ total m)
      × (length (reset_calls sid peer_epoch m) ≡ length m)
unfolding reset_calls total
reset_calls_each sid peer_epoch [] a d = (tt, tt, refl, refl)
reset_calls_each sid peer_epoch ((e, ps) ∷ m) a d =
    let (a', d', t, l) = reset_calls_each sid peer_epoch m a.1 d.1 in
    let (e', n, k) = reset_in_same sid peer_epoch ps in
    (
      ((e' ∙ a.0.0, n ∙ a.0.1 ∙ sym k), a'),
      (reset_calls-Fresh sid peer_epoch e m d.0, d'),
      omega (arith, t, n),
      omega (arith, l),
    )

pub reset_by_peer_sid-Sound :
    (cfg : Config) (sid peer_epoch : ℕ) (o : Option Slot) (d : Desk)
    → d.slot ≡ o
    → Sound cfg d
    → Sound cfg (reset_slot sid peer_epoch o d)
unfolding reset_slot slot_of
reset_by_peer_sid-Sound cfg sid peer_epoch none d e c = c
reset_by_peer_sid-Sound cfg sid peer_epoch (some s) d e c =
    let c' : Counted cfg s = subst (λ o. Counted cfg (slot_of o)) e c in
    let (a, f, t, l) = reset_calls_each sid peer_epoch s.epochs c'.each c'.apart in
    record { each = a; apart = f; sum = c'.sum ∙ sym t; cap = c'.cap; few = rw l c'.few }
