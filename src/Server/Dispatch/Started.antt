-- ===== src/Server/Dispatch/Started.antt =====
-- Which frame starts a handler.
use grpc_dgram.Prelude.{
  ℕ, ◌<◌, ◌≡◌, refl, ◌∙◌, ap, ◌⊎◌, inl, inr, Bool, true, false, ◌&&◌, ◌||◌, [], ◌∷◌, ◌++◌, Option,
  none, some, leb, ◌==◌, arith, Bool-cases,
}
use grpc_dgram.OrderedMap.{get}
use grpc_dgram.Status.{Status}
use grpc_dgram.Flow.Ledger.{unstash}
use grpc_dgram.Wire.Flags.{Frame, is_open, is_reset, is_ping, flag_window, shape_of}
use grpc_dgram.Server.Tombs.{SrvTomb, hwm_aged}
use grpc_dgram.Server.Stream.{Call, Shape}
use grpc_dgram.Config.Limits.{ResolvedRxConfig}
use grpc_dgram.Server.Table.{
  Config, Desk, Slot, Container, Live, slot_of, container_of, grant_on, allow, send_reset,
  ensure_peer, evict_idle, evict_oldest, evicted, observe_advertisement, put_slot, put_container,
}
use grpc_dgram.Server.Table.Call.{on_call, put_back}
use grpc_dgram.Server.Admission.{
  open_call, admit_call, admitted, reject_open, with_peer, step_at, new_call, first_steps,
  too_many_calls, served, method_not_found, unsupported_codec, unsupported_compressor,
}
use grpc_dgram.Server.Dispatch.{
  handle, on_frame, on_known, on_finished, on_unknown, on_ping, on_grant, on_reset, replay,
  return_credit, delay_reset, stale, grant_at, ping_at, reset_slot,
}

send_reset_started :
    (cfg : Config) (now : ℕ) (rel : Bool) (f : Frame) (d : Desk)
    → (send_reset cfg now rel f d).started ≡ d.started
unfolding send_reset
send_reset_started cfg now rel f d = ground arith

on_call_started :
    (cfg : Config) (op : Call → Call) (sid : ℕ) (v : Live) (ps : Container) (s : Slot) (d : Desk)
    → (on_call cfg op sid v ps s d).started ≡ d.started
unfolding on_call put_back
on_call_started cfg op sid v ps s d = ground arith

reject_open_started :
    (cfg : Config) (now : ℕ) (rel : Bool) (f : Frame) (st : Status) (d : Desk)
    → (reject_open cfg now rel f st d).started ≡ d.started
unfolding reject_open with_peer
reject_open_started cfg now rel f st d = ground arith

replay_started :
    (cfg : Config) (now : ℕ) (tb : SrvTomb) (ps : Container) (s : Slot) (d : Desk)
    → (replay cfg now tb ps s d).0.started ≡ d.started
unfolding replay allow
replay_started cfg now tb ps s d = ground arith

return_credit_started :
    (cfg : Config) (f : Frame) (d : Desk) → (return_credit cfg f d).started ≡ d.started
unfolding return_credit grant_on
return_credit_started cfg f d = ground arith

delay_reset_started :
    (cfg : Config) (now : ℕ) (f : Frame) (d : Desk) → (delay_reset cfg now f d).started ≡ d.started
unfolding delay_reset
delay_reset_started cfg now f d = ground arith

on_reset_started : (cfg : Config) (f : Frame) (d : Desk) → (on_reset cfg f d).started ≡ d.started
unfolding on_reset reset_slot
on_reset_started cfg f d = ground arith

on_grant_started : (rel : Bool) (f : Frame) (d : Desk) → (on_grant rel f d).started ≡ d.started
unfolding on_grant grant_at
on_grant_started rel f d = ground arith

on_ping_started :
    (cfg : Config) (now : ℕ) (rel : Bool) (f : Frame) (d : Desk)
    → (on_ping cfg now rel f d).started ≡ d.started
unfolding on_ping ping_at
on_ping_started cfg now rel f d = grind (arith, send_reset_started, replay_started)

step_at_started :
    (cfg : Config) (op : Call → Call) (epoch sid : ℕ) (d : Desk)
    → (step_at cfg op epoch sid d).started ≡ d.started
unfolding step_at
step_at_started cfg op epoch sid d = grind (arith, on_call_started)

-- A call may start: the server runs, and the peer has fewer live calls than the cap.
unfoldable pub Admits : Config → Desk → Type 0
Admits cfg d =
    (d.drain ≡ false)
    × (d.closed ≡ false)
    × ((slot_of d.slot).live_calls < cfg.limits.max_live_calls)

-- Nothing that the container remembers covers the sid: no live call, no tombstone, neither the floor
-- nor the aged watermark.
unfoldable pub Uncovered : Config → ℕ → ℕ → Option Container → Type 0
Uncovered cfg now sid none = Unit
Uncovered cfg now sid (some ps) =
    (get sid ps.calls ≡ none)
    × (get sid ps.state.tombs ≡ none)
    × (ps.state.tomb_floor < sid)
    × (hwm_aged now cfg.tombstone ps.state < sid)

-- What an operation on a frame may start: no handler, or that of the frame's own call.
abbrev pub Starts : Config → Frame → Desk → Desk → Type 0
Starts cfg f d d' =
    (d'.started ≡ d.started) ⊎ ((d'.started ≡ d.started ++ ((f.epoch, f.sid) ∷ [])) × Admits cfg d)

-- Where a container is found or made, the peer's other counts stand.
ensure_peer_live :
    (cfg : Config) (epoch now : ℕ) (rel : Bool) (s : Slot)
    → (ensure_peer cfg epoch now rel s).0.live_calls ≡ s.live_calls
unfolding ensure_peer evict_idle evict_oldest evicted unstash
ensure_peer_live cfg epoch now rel s = ground arith

with_peer_kept :
    (cfg : Config) (now : ℕ) (rel : Bool) (f : Frame) (d : Desk)
    → ((with_peer cfg now rel f d).0.started ≡ d.started)
      × ((slot_of (with_peer cfg now rel f d).0.slot).live_calls ≡ (slot_of d.slot).live_calls)
unfolding with_peer slot_of
with_peer_kept cfg now rel f d = (refl, ensure_peer_live cfg f.epoch now rel (slot_of d.slot))

admit_call-Starts :
    (cfg : Config) (now : ℕ) (rel : Bool) (f : Frame) (shape : Shape) (rx : ResolvedRxConfig)
    (d : Desk)
    → d.drain ≡ false
    → d.closed ≡ false
    → Starts cfg f d (admit_call cfg now rel f shape rx d)
unfolding admit_call Admits slot_of
admit_call-Starts cfg now rel f shape rx d h h' =
    let (d1, ps) = with_peer cfg now rel f d in
    let kept = with_peer_kept cfg now rel f d in
    let ps1 = observe_advertisement rel f ps in
    let d2 = put_slot (put_container ps1 (slot_of d1.slot)) d1 in
    let v = new_call cfg now rel f shape rx in
    let d3 = admitted cfg now rel f v ps1 d2 in
    let same : d3.started ≡ d2.started ++ ((f.epoch, f.sid) ∷ []) = unfold admitted in refl in
    let stepped = step_at_started cfg (first_steps now f) f.epoch f.sid d3 in
    elim (Bool-cases (leb cfg.limits.max_live_calls (slot_of d1.slot).live_calls)) [
      | inl full ↦ simp full (inl (reject_open_started cfg now rel f too_many_calls d2 ∙ kept.0))
      | inr room ↦ simp room (
          inr (
            stepped ∙ same ∙ ap (λ x. x ++ ((f.epoch, f.sid) ∷ [])) kept.0,
            (h, h', ground (arith, room, kept.1)),
          ))
    ]

served-Starts :
    (cfg : Config) (now : ℕ) (rel : Bool) (f : Frame) (o : Option (Shape × ResolvedRxConfig))
    (d : Desk)
    → d.drain ≡ false
    → d.closed ≡ false
    → Starts cfg f d (served cfg now rel f o d)
unfolding served
served-Starts cfg now rel f none d h h' = inl (reject_open_started cfg now rel f method_not_found d)
served-Starts cfg now rel f (some (shape, rx)) d h h' = ground (
  arith,
  reject_open_started cfg now rel f (unsupported_codec f.codec) d,
  reject_open_started cfg now rel f (unsupported_compressor f.compressor) d,
  admit_call-Starts cfg now rel f shape rx d h h',
)

open_call-Starts :
    (cfg : Config) (now : ℕ) (rel : Bool) (f : Frame) (d : Desk)
    → Starts cfg f d (open_call cfg now rel f d)
unfolding open_call
open_call-Starts cfg now rel f d = elim (Bool-cases (d.drain || d.closed)) [
  | inl over ↦ simp over (inl (send_reset_started cfg now rel f d))
  | inr runs ↦ simp runs (
      served-Starts cfg now rel f (cfg.services f.method) d (ground (arith, runs))
        (ground (arith, runs)))
]

-- What a frame may start: no handler, or that of its own call, which it opens and nothing covers.
unfoldable pub Opens : Config → ℕ → Frame → Desk → Desk → Type 0
Opens cfg now f d d' =
    (d'.started ≡ d.started)
    ⊎ ((d'.started ≡ d.started ++ ((f.epoch, f.sid) ∷ []))
        × Admits cfg d
        × (is_open f ≡ true)
        × (f.seq ≡ 1)
        × Uncovered cfg now f.sid (container_of f.epoch d.slot))

on_unknown-Opens :
    (cfg : Config) (now : ℕ) (rel : Bool) (f : Frame) (ps : Option Container) (d : Desk)
    → container_of f.epoch d.slot ≡ ps
    → (stale cfg now f ps ≡ false → Uncovered cfg now f.sid ps)
    → Opens cfg now f d (on_unknown cfg now rel f ps d)
unfolding on_unknown Opens
on_unknown-Opens cfg now rel f ps d at fresh_ =
    let opened = open_call-Starts cfg now rel f d in
    let reset = send_reset_started cfg now rel f d in
    let credited = return_credit_started cfg f d in
    let reset' = send_reset_started cfg now rel f (return_credit cfg f d) in
    let delayed = delay_reset_started cfg now f d in
    rw at (ground (arith, opened, reset, credited, reset', delayed, fresh_))

-- Nothing is started where the operation keeps the list.
nothing_opened :
    (cfg : Config) (now : ℕ) (f : Frame) (d d' : Desk)
    → d'.started ≡ d.started
    → Opens cfg now f d d'
unfolding Opens
nothing_opened cfg now f d d' h = inl h

on_finished-Opens :
    (cfg : Config) (now : ℕ) (rel : Bool) (f : Frame) (ps : Container) (o : Option SrvTomb)
    (d : Desk)
    → container_of f.epoch d.slot ≡ some ps
    → get f.sid ps.calls ≡ none
    → get f.sid ps.state.tombs ≡ o
    → Opens cfg now f d (on_finished cfg now rel f ps (slot_of d.slot) o d)
unfolding on_finished
on_finished-Opens cfg now rel f ps (some tb) d at idle_ e =
    nothing_opened cfg now f d _ (replay_started cfg now tb _ _ d)
on_finished-Opens cfg now rel f ps none d at idle_ e =
    elim (Bool-cases (leb f.sid ps.state.tomb_floor)) [
      | inl below ↦ simp below (nothing_opened cfg now f d _ refl)
      | inr above ↦ simp above (
          on_unknown-Opens cfg now rel f (some ps) d at
            (λ young. unfold Uncovered in (idle_, e, ground (arith, above), ground (arith, young))))
    ]

on_known-Opens :
    (cfg : Config) (now : ℕ) (rel aborted : Bool) (f : Frame) (ps : Container) (o : Option Live)
    (d : Desk)
    → container_of f.epoch d.slot ≡ some ps
    → get f.sid ps.calls ≡ o
    → Opens cfg now f d (on_known cfg now rel aborted f ps (slot_of d.slot) o d)
unfolding on_known
on_known-Opens cfg now rel aborted f ps (some v) d at e =
    nothing_opened cfg now f d _ (on_call_started cfg _ f.sid v ps (slot_of d.slot) d)
on_known-Opens cfg now rel aborted f ps none d at e =
    elim (Bool-cases (shape_of f == flag_window)) [
      | inl w ↦ simp w (nothing_opened cfg now f d d refl)
      | inr w ↦ simp w (on_finished-Opens cfg now rel f ps (get f.sid ps.state.tombs) d at e refl)
    ]

on_frame-Opens :
    (cfg : Config) (now : ℕ) (rel aborted : Bool) (f : Frame) (o : Option Container) (d : Desk)
    → container_of f.epoch d.slot ≡ o
    → Opens cfg now f d (on_frame cfg now rel aborted f o d)
unfolding on_frame
on_frame-Opens cfg now rel aborted f (some ps) d at =
    on_known-Opens cfg now rel aborted f ps (get f.sid ps.calls) d at refl
on_frame-Opens cfg now rel aborted f none d at = elim (Bool-cases (shape_of f == flag_window)) [
  | inl w ↦ simp w (nothing_opened cfg now f d d refl)
  | inr w ↦ simp w (on_unknown-Opens cfg now rel f none d at (λ young. unfold Uncovered in tt))
]

-- A frame starts at most one handler, for its own call, and only if it is the first frame of an OPEN, the
-- server runs, the peer is below its cap of live calls, and nothing of the incarnation's container covers
-- the sid: no live call, no tombstone, neither the floor nor the aged watermark.
pub handle-Opens :
    (cfg : Config) (now : ℕ) (rel aborted : Bool) (f : Frame) (d : Desk)
    → Opens cfg now f d (handle cfg now rel aborted f d)
unfolding handle
handle-Opens cfg now rel aborted f d = elim (Bool-cases (is_reset f)) [
  | inl r ↦ simp r (nothing_opened cfg now f d _ (on_reset_started cfg f d))
  | inr r ↦ elim (Bool-cases (is_ping f)) [
    | inl p ↦ simp (r, p) (nothing_opened cfg now f d _ (on_ping_started cfg now rel f d))
    | inr p ↦ elim (Bool-cases (f.sid == 0 && shape_of f == flag_window)) [
      | inl g ↦ simp (r, p, g) (nothing_opened cfg now f d _ (on_grant_started rel f d))
      | inr o ↦
          simp (r, p, o) (on_frame-Opens cfg now rel aborted f (container_of f.epoch d.slot) d refl)
    ]
  ]
]
