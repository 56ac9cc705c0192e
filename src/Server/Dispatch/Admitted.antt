-- ===== src/Server/Dispatch/Admitted.antt =====
-- A call's step and its admission keep the counts of a peer's slot.
use grpc_dgram.Prelude.{
  ℕ, suc, ◌+◌, ◌<◌, ◌≡◌, refl, sym, ◌∙◌, ap, subst, inl, inr, Bool, true, false, Option, none, some,
  leb, if◌then◌else◌, arith, Bool-cases, Option-cases, length,
}
use grpc_dgram.OrderedMap.{get, set, has, length-set, get-set_self}
use grpc_dgram.Config.Limits.{ResolvedRxConfig}
use grpc_dgram.Status.{Status}
use grpc_dgram.Wire.Flags.{Frame}
use grpc_dgram.Server.Tombs.{add_tomb}
use grpc_dgram.Server.Stream.{Call, Shape, Host}
use grpc_dgram.Server.Table.{
  Config, Desk, Slot, Container, Live, slot_of, container_of, put_slot, put_container, ensure_peer,
  ensure_flow, observe_advertisement, create,
}
use grpc_dgram.Server.Table.Call.{on_call, put_back, call_at, container_after}
use grpc_dgram.Server.Table.Counted.{
  Counted, Found, put_container-Counted, seat-Counted, ensure_peer-Found,
}
use grpc_dgram.Server.Admission.{
  admit_call, admitted, reject_open, with_peer, step_at, new_call, first_steps, seat_call,
  rejection, too_many_calls,
}
use grpc_dgram.Server.Tombs.Watermark.{raise_hwm}
use grpc_dgram.Server.Dispatch.Bounded.{Sound, same-Counted, own_epoch, container_of_lem}

pub put_back_lem :
    (reliable : Bool) (h : Host) (ps : Container) (s : Slot) (d : Desk)
    → ((slot_of (put_back reliable h ps s d).slot).epochs ≡ set ps.epoch ps s.epochs)
      × ((slot_of (put_back reliable h ps s d).slot).live_calls ≡ s.live_calls)
unfolding put_back slot_of
put_back_lem reliable h ps s d = elim (Option-cases h.budgets) [
  | inl e ↦ rw e (refl, refl)
  | inr (b, e) ↦ rw e (refl, refl)
]

-- A call's step leaves the calls of its container as many as they were.
put_back-Sound :
    (cfg : Config) (reliable : Bool) (h : Host) (ps ps' : Container) (s : Slot) (d : Desk)
    → get ps'.epoch s.epochs ≡ some ps
    → ps'.live_calls ≡ ps.live_calls
    → length ps'.calls ≡ length ps.calls
    → Counted cfg s
    → Sound cfg (put_back reliable h ps' s d)
put_back-Sound cfg reliable h ps ps' s d at live_ calls c =
    let (e, l) = put_back_lem reliable h ps' s d in
    same-Counted cfg (put_container ps' s) (slot_of (put_back reliable h ps' s d).slot) e l
      (put_container-Counted cfg s ps ps' at live_ calls c)

pub on_call-Sound :
    (cfg : Config) (op : Call → Call) (sid : ℕ) (v : Live) (ps : Container) (s : Slot) (d : Desk)
    → get ps.epoch s.epochs ≡ some ps
    → get sid ps.calls ≡ some v
    → Counted cfg s
    → Sound cfg (on_call cfg op sid v ps s d)
unfolding on_call container_after
on_call-Sound cfg op sid v ps s d at here c =
    let after = op (call_at cfg v ps s d) in
    let v' : Live = record v { stream = after.stream } in
    let l = length-set sid v' ps.calls in
    let h : has sid ps.calls ≡ true = unfold has in rw here refl in
    put_back-Sound cfg v.stream.reliable after.host ps _ s d at refl (ground (arith, l, h)) c

step_at-Sound :
    (cfg : Config) (op : Call → Call) (epoch sid : ℕ) (d : Desk)
    → Sound cfg d
    → Sound cfg (step_at cfg op epoch sid d)
unfolding step_at
step_at-Sound cfg op epoch sid d c = elim (Option-cases (container_of epoch d.slot)) [
  | inl e ↦ rw (e, step_at) c
  | inr (ps, e) ↦ elim (Option-cases (get sid ps.calls)) [
    | inl n ↦ rw (e, n, step_at) c
    | inr (v, n) ↦
        rw (e, n, step_at)
          (on_call-Sound cfg op sid v ps (slot_of d.slot) d (own_epoch cfg epoch ps d c e).1 n c)
  ]
]

with_peer-Found :
    (cfg : Config) (now : ℕ) (rel : Bool) (f : Frame) (d : Desk)
    → 0 < cfg.limits.max_dead_peers
    → Sound cfg d
    → Found cfg f.epoch (slot_of (with_peer cfg now rel f d).0.slot, (with_peer cfg now rel f d).1)
unfolding with_peer slot_of
with_peer-Found cfg now rel f d some_ c =
    ensure_peer-Found cfg f.epoch now rel (slot_of d.slot) some_ c

-- A container that keeps its calls is put into the table, with the ledger or without it.
pub put_slot-Sound :
    (cfg : Config) (ps ps' : Container) (s s' : Slot) (d : Desk)
    → get ps'.epoch s.epochs ≡ some ps
    → ps'.live_calls ≡ ps.live_calls
    → length ps'.calls ≡ length ps.calls
    → Counted cfg s
    → s'.epochs ≡ s.epochs
    → s'.live_calls ≡ s.live_calls
    → Sound cfg (put_slot (put_container ps' s') d)
unfolding slot_of
put_slot-Sound cfg ps ps' s s' d at l k c same live_ =
    put_container-Counted cfg s' ps ps' (subst (λ m. get ps'.epoch m ≡ some ps) (sym same) at) l k
      (same-Counted cfg s s' same live_ c)

pub reject_open-Sound :
    (cfg : Config) (now : ℕ) (rel : Bool) (f : Frame) (st : Status) (d : Desk)
    → 0 < cfg.limits.max_dead_peers
    → Sound cfg d
    → Sound cfg (reject_open cfg now rel f st d)
unfolding reject_open
reject_open-Sound cfg now rel f st d some_ c =
    let (d1, ps) = with_peer cfg now rel f d in
    let s = slot_of d1.slot in
    let (c1, at, e) = with_peer-Found cfg now rel f d some_ c in
    let at' = subst (λ k. get k s.epochs ≡ some ps) (sym e) at in
    let seen_ = record ps { last_rx = now } in
    let t = rejection cfg rel f st in
    let buried = record seen_ {
      state = add_tomb f.sid (some t) (now + cfg.tombstone) (raise_hwm f.sid seen_.state);
    } in
    let kept = observe_advertisement true f seen_ in
    let b1 : Sound cfg (put_slot (put_container kept (ensure_flow cfg s)) d1) =
      put_slot-Sound cfg ps kept s (ensure_flow cfg s) d1 at' refl refl c1 refl refl in
    let b2 : Sound cfg (put_slot (put_container buried s) d1) =
      put_slot-Sound cfg ps buried s s d1 at' refl refl c1 refl refl in
    elim rel
      as (λ b. Sound cfg (
        put_slot (if b then put_container kept (ensure_flow cfg s) else put_container buried s)
          d1)) [ true ↦ b1 | false ↦ b2 ]

-- No live call has the sid.
unfoldable pub Idle : ℕ → Option Container → Type 0
Idle sid none = Unit
Idle sid (some ps) = get sid ps.calls ≡ none

-- A container that was made for the frame has no calls.
with_peer-Idle :
    (cfg : Config) (now : ℕ) (rel : Bool) (f : Frame) (d : Desk)
    → Idle f.sid (container_of f.epoch d.slot)
    → get f.sid (with_peer cfg now rel f d).1.calls ≡ none
unfolding with_peer ensure_peer create
with_peer-Idle cfg now rel f d h = elim (Option-cases (get f.epoch (slot_of d.slot).epochs)) [
  | inl e ↦ rw (e, ensure_peer) (unfold get in refl)
  | inr (ps, e) ↦ rw (e, ensure_peer) (unfold Idle in rw (container_of_lem f.epoch d.slot ∙ e) at h)
]

admitted_lem :
    (cfg : Config) (now : ℕ) (rel : Bool) (f : Frame) (v : Live) (ps : Container) (d : Desk)
    → ((slot_of (admitted cfg now rel f v ps d).slot).epochs
        ≡ set ps.epoch (seat_call now f.sid v ps) (slot_of d.slot).epochs)
      × ((slot_of (admitted cfg now rel f v ps d).slot).live_calls
          ≡ (slot_of d.slot).live_calls + 1)
unfolding admitted slot_of seat_call
admitted_lem cfg now true f v ps d = (refl, refl)
admitted_lem cfg now false f v ps d = (refl, refl)

admitted-Sound :
    (cfg : Config) (now : ℕ) (rel : Bool) (f : Frame) (v : Live) (ps ps' : Container) (d : Desk)
    → get ps'.epoch (slot_of d.slot).epochs ≡ some ps
    → ps'.live_calls ≡ ps.live_calls
    → ps'.calls ≡ ps.calls
    → get f.sid ps.calls ≡ none
    → (slot_of d.slot).live_calls < cfg.limits.max_live_calls
    → Sound cfg d
    → Sound cfg (admitted cfg now rel f v ps' d)
unfolding seat_call
admitted-Sound cfg now rel f v ps ps' d at same calls free room c =
    let (e, l) = admitted_lem cfg now rel f v ps' d in
    let k = length-set f.sid v ps.calls in
    let h : has f.sid ps.calls ≡ false = unfold has in rw free refl in
    let grown : length (set f.sid v ps'.calls) ≡ suc (length ps.calls) =
      ground (arith, k, h, calls) in
    let s = slot_of d.slot in
    same-Counted cfg
      (put_container (seat_call now f.sid v ps') (record s { live_calls = s.live_calls + 1 }))
      (slot_of (admitted cfg now rel f v ps' d).slot) e l
      (seat-Counted cfg s ps (seat_call now f.sid v ps') at (ap (λ n. n + 1) same) grown room c)

advert_same :
    (rel : Bool) (f : Frame) (ps : Container)
    → ((observe_advertisement rel f ps).epoch ≡ ps.epoch)
      × ((observe_advertisement rel f ps).live_calls ≡ ps.live_calls)
      × ((observe_advertisement rel f ps).calls ≡ ps.calls)
advert_same true f ps = (refl, refl, refl)
advert_same false f ps = (refl, refl, refl)

pub admit_call-Sound :
    (cfg : Config) (now : ℕ) (rel : Bool) (f : Frame) (shape : Shape) (rx : ResolvedRxConfig)
    (d : Desk)
    → 0 < cfg.limits.max_dead_peers
    → Idle f.sid (container_of f.epoch d.slot)
    → Sound cfg d
    → Sound cfg (admit_call cfg now rel f shape rx d)
unfolding admit_call
admit_call-Sound cfg now rel f shape rx d some_ idle_ c =
    let (d1, ps) = with_peer cfg now rel f d in
    let s = slot_of d1.slot in
    let (c1, at, e) = with_peer-Found cfg now rel f d some_ c in
    let at' = subst (λ k. get k s.epochs ≡ some ps) (sym e) at in
    let free = with_peer-Idle cfg now rel f d idle_ in
    let ps1 = observe_advertisement rel f ps in
    let d2 = put_slot (put_container ps1 s) d1 in
    let (e1, l1, k1) = advert_same rel f ps in
    let at1 : get ps1.epoch s.epochs ≡ some ps =
      subst (λ k. get k s.epochs ≡ some ps) (sym e1) at' in
    let c2 : Sound cfg d2 = put_slot-Sound cfg ps ps1 s s d1 at1 l1 (ap length k1) c1 refl refl in
    let at2 : get ps1.epoch (slot_of d2.slot).epochs ≡ some ps1 =
      unfold slot_of in get-set_self ps1.epoch ps1 s.epochs in
    let free1 : get f.sid ps1.calls ≡ none = subst (λ m. get f.sid m ≡ none) (sym k1) free in
    let v = new_call cfg now rel f shape rx in
    let d3 = admitted cfg now rel f v ps1 d2 in
    elim (Bool-cases (leb cfg.limits.max_live_calls (slot_of d2.slot).live_calls)) [
      | inl full ↦ simp full (reject_open-Sound cfg now rel f too_many_calls d2 some_ c2)
      | inr room ↦
          let below : (slot_of d2.slot).live_calls < cfg.limits.max_live_calls =
            ground (arith, room) in
          simp room (
            step_at-Sound cfg (first_steps now f) f.epoch f.sid d3
              (admitted-Sound cfg now rel f v ps1 ps1 d2 at2 refl refl free1 below c2))
    ]
