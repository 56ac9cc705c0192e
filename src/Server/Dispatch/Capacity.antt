-- ===== src/Server/Dispatch/Capacity.antt =====
-- Every frame keeps the counts of a peer's slot.
use grpc_dgram.Prelude.{
  ℕ, ◌<◌, ◌≡◌, refl, sym, subst, Bool, not, ◌&&◌, ◌||◌, Option, none, some, leb, ◌==◌, if_both,
}
use grpc_dgram.OrderedMap.{get, get-set_self}
use grpc_dgram.Config.Limits.{ResolvedRxConfig}
use grpc_dgram.Wire.Flags.{Frame, is_reset, is_ping, is_open, flag_window, shape_of}
use grpc_dgram.Server.Tombs.{SrvTomb}
use grpc_dgram.Server.Stream.{Shape}
use grpc_dgram.Server.Stream.Receive.{handle_rx}
use grpc_dgram.Server.Table.{
  Config, Desk, Container, Live, slot_of, container_of, put_container, note, reset_received,
}
use grpc_dgram.Server.Admission.{
  open_call, served, method_not_found, unsupported_codec, unsupported_compressor, is_empty,
}
use grpc_dgram.Server.Dispatch.{
  handle, on_frame, on_known, on_finished, on_unknown, on_ping, on_grant, on_reset, return_credit,
  delay_reset, seen, stale,
}
use grpc_dgram.Server.Dispatch.Bounded.{
  Sound, Same-Sound, reset-Sound, return_credit-Same, delay_reset-Same, replay-Sound, seen_lem,
  own_epoch, on_ping-Sound, on_grant-Sound, reset_by_peer_sid-Sound,
}
use grpc_dgram.Server.Dispatch.Admitted.{
  Idle, on_call-Sound, reject_open-Sound, admit_call-Sound, put_slot-Sound,
}

served-Sound :
    (cfg : Config) (now : ℕ) (rel : Bool) (f : Frame) (o : Option (Shape × ResolvedRxConfig))
    (d : Desk)
    → 0 < cfg.limits.max_dead_peers
    → Idle f.sid (container_of f.epoch d.slot)
    → Sound cfg d
    → Sound cfg (served cfg now rel f o d)
unfolding served
served-Sound cfg now rel f none d some_ idle_ c =
    reject_open-Sound cfg now rel f method_not_found d some_ c
served-Sound cfg now rel f (some (shape, rx)) d some_ idle_ c =
    if_both (λ (x : Desk). Sound cfg x) (not (is_empty f.codec) && not (cfg.codecs f.codec))
      (reject_open-Sound cfg now rel f (unsupported_codec f.codec) d some_ c)
      (if_both (λ (x : Desk). Sound cfg x)
        (not (is_empty f.compressor) && not (cfg.compressors f.compressor))
        (reject_open-Sound cfg now rel f (unsupported_compressor f.compressor) d some_ c)
        (admit_call-Sound cfg now rel f shape rx d some_ idle_ c))

on_unknown-Sound :
    (cfg : Config) (now : ℕ) (rel : Bool) (f : Frame) (o : Option Container) (d : Desk)
    → 0 < cfg.limits.max_dead_peers
    → Idle f.sid (container_of f.epoch d.slot)
    → Sound cfg d
    → Sound cfg (on_unknown cfg now rel f o d)
unfolding on_unknown open_call
on_unknown-Sound cfg now rel f o d some_ idle_ c =
    let reset = reset-Sound cfg now rel f d c in
    let credited = Same-Sound cfg d (return_credit cfg f d) (return_credit-Same cfg f d) c in
    let delayed = Same-Sound cfg d (delay_reset cfg now f d) (delay_reset-Same cfg now f d) c in
    if_both (λ (x : Desk). Sound cfg x) (is_open f && f.seq == 1)
      (if_both (λ (x : Desk). Sound cfg x) (stale cfg now f o) reset
        (if_both (λ (x : Desk). Sound cfg x) (d.drain || d.closed) reset
          (served-Sound cfg now rel f (cfg.services f.method) d some_ idle_ c)))
      (if_both (λ (x : Desk). Sound cfg x) rel
        (reset-Sound cfg now rel f (return_credit cfg f d) credited) delayed)

on_finished-Sound :
    (cfg : Config) (now : ℕ) (rel : Bool) (f : Frame) (ps : Container) (o : Option SrvTomb)
    (d : Desk)
    → 0 < cfg.limits.max_dead_peers
    → get ps.epoch (slot_of d.slot).epochs ≡ some ps
    → Idle f.sid (container_of f.epoch d.slot)
    → Sound cfg d
    → Sound cfg (on_finished cfg now rel f ps (slot_of d.slot) o d)
unfolding on_finished
on_finished-Sound cfg now rel f ps (some tb) d some_ at idle_ c =
    replay-Sound cfg now tb (seen now ps) (put_container (seen now ps) (slot_of d.slot)) d
      (get-set_self ps.epoch (seen now ps) (slot_of d.slot).epochs)
      (seen_lem cfg now ps (slot_of d.slot) at c)
on_finished-Sound cfg now rel f ps none d some_ at idle_ c =
    if_both (λ (x : Desk). Sound cfg x) (leb f.sid ps.state.tomb_floor)
      (put_slot-Sound cfg ps (seen now ps) (slot_of d.slot) (slot_of d.slot) d at refl refl c refl
        refl)
      (on_unknown-Sound cfg now rel f (some ps) d some_ idle_ c)

on_known-Sound :
    (cfg : Config) (now : ℕ) (rel aborted : Bool) (f : Frame) (ps : Container) (o : Option Live)
    (d : Desk)
    → 0 < cfg.limits.max_dead_peers
    → container_of f.epoch d.slot ≡ some ps
    → get f.sid ps.calls ≡ o
    → Sound cfg d
    → Sound cfg (on_known cfg now rel aborted f ps (slot_of d.slot) o d)
unfolding on_known
on_known-Sound cfg now rel aborted f ps (some v) d some_ at e c =
    on_call-Sound cfg (handle_rx now aborted f) f.sid v ps (slot_of d.slot) d
      (own_epoch cfg f.epoch ps d c at).1 e c
on_known-Sound cfg now rel aborted f ps none d some_ at e c =
    if_both (λ (x : Desk). Sound cfg x) (shape_of f == flag_window) c
      (on_finished-Sound cfg now rel f ps (get f.sid ps.state.tombs) d some_
        (own_epoch cfg f.epoch ps d c at).1 (subst (λ o. Idle f.sid o) (sym at) (unfold Idle in e))
        c)

on_frame-Sound :
    (cfg : Config) (now : ℕ) (rel aborted : Bool) (f : Frame) (o : Option Container) (d : Desk)
    → 0 < cfg.limits.max_dead_peers
    → container_of f.epoch d.slot ≡ o
    → Sound cfg d
    → Sound cfg (on_frame cfg now rel aborted f o d)
unfolding on_frame
on_frame-Sound cfg now rel aborted f (some ps) d some_ at c =
    on_known-Sound cfg now rel aborted f ps (get f.sid ps.calls) d some_ at refl c
on_frame-Sound cfg now rel aborted f none d some_ at c =
    if_both (λ (x : Desk). Sound cfg x) (shape_of f == flag_window) c
      (on_unknown-Sound cfg now rel f none d some_
        (subst (λ o. Idle f.sid o) (sym at) (unfold Idle in tt)) c)

pub handle-Sound :
    (cfg : Config) (now : ℕ) (rel aborted : Bool) (f : Frame) (d : Desk)
    → 0 < cfg.limits.max_dead_peers
    → Sound cfg d
    → Sound cfg (handle cfg now rel aborted f d)
unfolding handle on_reset on_ping on_grant
handle-Sound cfg now rel aborted f d some_ c =
    if_both (λ (x : Desk). Sound cfg x) (is_reset f)
      (if_both (λ (x : Desk). Sound cfg x) (not (f.epoch == cfg.epoch)) c
        (reset_by_peer_sid-Sound cfg f.sid f.peer_epoch d.slot (note reset_received f.sid d) refl
          c))
      (if_both (λ (x : Desk). Sound cfg x) (is_ping f)
        (on_ping-Sound cfg now rel f (container_of f.epoch d.slot) d refl c)
        (if_both (λ (x : Desk). Sound cfg x) (f.sid == 0 && shape_of f == flag_window)
          (if_both (λ (x : Desk). Sound cfg x) rel
            (on_grant-Sound cfg f (container_of f.epoch d.slot) d refl c) c)
          (on_frame-Sound cfg now rel aborted f (container_of f.epoch d.slot) d some_ refl c)))
