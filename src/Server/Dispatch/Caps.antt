-- ===== src/Server/Dispatch/Caps.antt =====
-- What one peer can make the server of ts/src/server.ts hold, whatever it sends and whenever its calls end.
use grpc_dgram.Prelude.{
  ℕ, suc, ◌-◌, ◌<◌, ◌≡◌, refl, sym, subst, inl, inr, Bool, true, List, [], ◌∷◌, Option, none, some,
  arith, Option-cases, length,
}
use grpc_dgram.OrderedMap.{get, delete, has, length-delete}
use grpc_dgram.Wire.Flags.{Frame}
use grpc_dgram.Server.Stream.Receive.{finish_stream}
use grpc_dgram.Server.Table.{
  Slot, Config, Desk, Container, Live, slot_of, container_of, put_container,
}
use grpc_dgram.Server.Table.Call.{put_back, call_at, container_after}
use grpc_dgram.Server.Table.Counted.{Counted, leave-Counted}
use grpc_dgram.Server.Admission.{finish, finished, bury}
use grpc_dgram.Server.Dispatch.{handle}
use grpc_dgram.Server.Dispatch.Bounded.{Sound, same-Counted, own_epoch}
use grpc_dgram.Status.{Status}
use grpc_dgram.Wire.Text.{Text}
use grpc_dgram.Server.Sweep.{sweep}
use grpc_dgram.Server.Sweep.Retention.{sweep-Sound, nothing-Counted}
use grpc_dgram.Server.Shutdown.{disconnect_peer, disconnected, transport_closed}
use grpc_dgram.Server.Dispatch.Admitted.{put_back_lem}
use grpc_dgram.Server.Dispatch.Capacity.{handle-Sound}

bury_lem :
    (cfg : Config) (now sid : ℕ) (v : Live) (term : Option Frame) (ps : Container)
    → ((bury cfg now sid v term ps).epoch ≡ ps.epoch)
      × ((bury cfg now sid v term ps).live_calls ≡ ps.live_calls - 1)
      × ((bury cfg now sid v term ps).calls ≡ delete sid ps.calls)
unfolding bury
bury_lem cfg now sid v term ps = ground arith

finished-Sound :
    (cfg : Config) (now sid : ℕ) (term : Option Frame) (v : Live) (ps : Container) (d : Desk)
    → get ps.epoch (slot_of d.slot).epochs ≡ some ps
    → get sid ps.calls ≡ some v
    → Sound cfg d
    → Sound cfg (finished cfg now sid term v ps (slot_of d.slot) d)
unfolding finished container_after
finished-Sound cfg now sid term v ps d at here c =
    let s = slot_of d.slot in
    let s1 = record s { live_calls = s.live_calls - 1 } in
    let ps1 = bury cfg now sid v term ps in
    let (e, l, k) = bury_lem cfg now sid v term ps in
    let after = finish_stream (call_at cfg v ps1 s1 d) in
    let ps2 = container_after after.host ps1 in
    let d1 = record d { live_tasks = d.live_tasks - 1 } in
    let n = length-delete sid ps.calls in
    let h : has sid ps.calls ≡ true = unfold has in rw here refl in
    let fewer : suc (length (delete sid ps.calls)) ≡ length ps.calls = ground (arith, n, h) in
    let (e', l') = put_back_lem v.stream.reliable after.host ps2 s1 d1 in
    same-Counted cfg (put_container ps2 s1)
      (slot_of (put_back v.stream.reliable after.host ps2 s1 d1).slot) e' l'
      (leave-Counted cfg s ps ps2 (subst (λ j. get j s.epochs ≡ some ps) (sym e) at) l
        (subst (λ m. suc (length m) ≡ length ps.calls) (sym k) fewer) c)

finish-Sound :
    (cfg : Config) (now epoch sid : ℕ) (term : Option Frame) (d : Desk)
    → Sound cfg d
    → Sound cfg (finish cfg now epoch sid term d)
unfolding finish
finish-Sound cfg now epoch sid term d c = elim (Option-cases (container_of epoch d.slot)) [
  | inl e ↦ rw (e, finish) c
  | inr (ps, e) ↦ elim (Option-cases (get sid ps.calls)) [
    | inl n ↦ rw (e, n, finish) c
    | inr (v, n) ↦
        rw (e, n, finish)
          (finished-Sound cfg now sid term v ps d (own_epoch cfg epoch ps d c e).1 n c)
  ]
]

-- What happens at a peer's desk: a frame comes in, on a channel of either mode, a handler returns and its
-- call ends with the terminal that it sent, if it sent one, the sweeper runs, or the peer's transport dies.
pub data Op : Type 0 where
  frame_in : ℕ → Bool → Bool → Frame → Op
  call_ends : ℕ → ℕ → ℕ → Option Frame → Op
  sweeps : ℕ → Op
  disconnects : Option Text → Op

unfoldable pub step : Config → Op → Desk → Desk
step cfg (frame_in now rel aborted f) d = handle cfg now rel aborted f d
step cfg (call_ends now epoch sid term) d = finish cfg now epoch sid term d
step cfg (sweeps now) d = sweep cfg now d
step cfg (disconnects detail) d = (disconnect_peer detail d).0

unfoldable pub steps : Config → List Op → Desk → Desk
steps cfg [] d = d
steps cfg (o ∷ os) d = steps cfg os (step cfg o d)

disconnected-Sound :
    (cfg : Config) (cause : Status) (o : Option Slot) (d : Desk)
    → Sound cfg d
    → Sound cfg (disconnected cause o d).0
unfolding disconnected
disconnected-Sound cfg cause none d c = c
disconnected-Sound cfg cause (some s) d c = nothing-Counted cfg

steps-Sound :
    (cfg : Config) (os : List Op) (d : Desk)
    → 0 < cfg.limits.max_dead_peers
    → Sound cfg d
    → Sound cfg (steps cfg os d)
unfolding steps step disconnect_peer
steps-Sound cfg [] d some_ c = c
steps-Sound cfg (frame_in now rel aborted f ∷ os) d some_ c =
    steps-Sound cfg os (handle cfg now rel aborted f d) some_
      (handle-Sound cfg now rel aborted f d some_ c)
steps-Sound cfg (call_ends now epoch sid term ∷ os) d some_ c =
    steps-Sound cfg os (finish cfg now epoch sid term d) some_
      (finish-Sound cfg now epoch sid term d c)
steps-Sound cfg (sweeps now ∷ os) d some_ c =
    steps-Sound cfg os (sweep cfg now d) some_ (sweep-Sound cfg now d.slot d c)
steps-Sound cfg (disconnects detail ∷ os) d some_ c =
    steps-Sound cfg os (disconnect_peer detail d).0 some_
      (disconnected-Sound cfg (transport_closed detail) d.slot d c)

-- From a desk with no slot on, after any frames, ends of calls, sweeps and disconnections: each container counts exactly the
-- calls that it has, the slot counts those of all containers, they are at most the cap of live calls, and
-- the containers are at most as many as that cap and the one on idle containers together.
pub steps-Counted :
    (cfg : Config) (os : List Op) (d : Desk)
    → 0 < cfg.limits.max_dead_peers
    → d.slot ≡ none
    → Counted cfg (slot_of (steps cfg os d).slot)
steps-Counted cfg os d some_ h =
    let start : Sound cfg d = subst (λ o. Counted cfg (slot_of o)) (sym h) (nothing-Counted cfg) in
    steps-Sound cfg os d some_ start
