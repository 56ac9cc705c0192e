-- ===== src/Server/Dispatch/Isolation.antt =====
-- What a RESET and a connection grant may change.
use grpc_dgram.Prelude.{
  ℕ, ◌≡◌, refl, sym, subst, inl, inr, Bool, ◌&&◌, ◌||◌, [], ◌∷◌, Option, none, some, ◌==◌,
  if◌then◌else◌, arith, Bool-cases, Option-cases, if_both,
}
use grpc_dgram.OrderedMap.{OrderedMap, get, set, get-set_self, get-set_ne}
use grpc_dgram.Wire.Flags.{Frame}
use grpc_dgram.Server.Table.{
  Config, Desk, Slot, Container, Live, container_of, note, reset_received,
}
use grpc_dgram.Server.Dispatch.{
  on_reset, reset_slot, reset_calls, reset_in, disown, silenced, reset_by_peer, on_grant, grant_at,
  granted_evicted,
}

abbrev pub through {ℓ} : {A B : Type ℓ} → (A → B) → Option A → Option B
through f none = none
through f (some a) = some (f a)

abbrev calls_of : Option Container → OrderedMap Live
calls_of none = []
calls_of (some ps) = ps.calls

-- The call of an incarnation that has the sid.
unfoldable pub call_of : ℕ → ℕ → Option Slot → Option Live
call_of epoch sid o = get sid (calls_of (container_of epoch o))

-- A RESET is for every incarnation, or for the one that it names.
abbrev pub names : ℕ → ℕ → Bool
names peer_epoch epoch = peer_epoch == 0 || epoch == peer_epoch

get-reset_calls :
    (sid peer_epoch epoch : ℕ) (m : OrderedMap Container)
    → get epoch (reset_calls sid peer_epoch m) ≡ through (reset_in sid peer_epoch) (get epoch m)
unfolding get reset_calls
get-reset_calls sid peer_epoch epoch [] = refl
get-reset_calls sid peer_epoch epoch ((e, ps) ∷ m) = elim (Bool-cases (e == epoch)) [
  | inl h ↦ rw h refl
  | inr h ↦ rw h (get-reset_calls sid peer_epoch epoch m)
]

disown_lem :
    (sid k : ℕ) (o : Option Live) (ps : Container)
    → get sid ps.calls ≡ o
    → get k (disown sid o ps).calls
      ≡ (if k == sid then through (silenced reset_by_peer) (get k ps.calls) else get k ps.calls)
unfolding disown
disown_lem sid k none ps e = elim (Bool-cases (k == sid)) [
  | inl h ↦
      let same : k ≡ sid = ground (arith, h) in
      let gone : get k ps.calls ≡ none = subst (λ j. get j ps.calls ≡ none) (sym same) e in
      rw (h, gone) refl
  | inr h ↦ rw h refl
]
disown_lem sid k (some v) ps e = elim (Bool-cases (k == sid)) [
  | inl h ↦
      let same : k ≡ sid = ground (arith, h) in
      let here : get k ps.calls ≡ some v = subst (λ j. get j ps.calls ≡ some v) (sym same) e in
      let put : get k (set sid (silenced reset_by_peer v) ps.calls)
          ≡ some (silenced reset_by_peer v) =
        subst
          (λ j.
            get j (set sid (silenced reset_by_peer v) ps.calls) ≡ some (silenced reset_by_peer v))
          (sym same) (get-set_self sid (silenced reset_by_peer v) ps.calls) in
      rw (h, here) put
  | inr h ↦ rw h (
      get-set_ne sid k (silenced reset_by_peer v) ps.calls
        (λ e'. (let same = sym e' in ground (arith, h, same))))
]

reset_in_lem :
    (sid k peer_epoch : ℕ) (ps : Container)
    → get k (reset_in sid peer_epoch ps).calls ≡ (
        if names peer_epoch ps.epoch && k == sid
        then through (silenced reset_by_peer) (get k ps.calls)
        else get k ps.calls)
unfolding reset_in
reset_in_lem sid k peer_epoch ps =
    let d = disown_lem sid k (get sid ps.calls) ps refl in
    elim (Bool-cases (peer_epoch == 0)) [
      | inl h ↦ rw h d
      | inr h ↦ elim (Bool-cases (ps.epoch == peer_epoch)) [
        | inl h' ↦ simp (h, h') d
        | inr h' ↦ simp (h, h') refl
      ]
    ]

nothing_there : {A : Type 0} (b : Bool) (f : A → A) → none ≡ (if b then through f none else none)
nothing_there b f = if_both (λ o. none ≡ o) b refl refl

reset_slot_lem :
    (sid k peer_epoch epoch : ℕ) (o : Option Slot) (d : Desk)
    → ((ps : Container) → container_of epoch o ≡ some ps → ps.epoch ≡ epoch)
    → d.slot ≡ o
    → call_of epoch k (reset_slot sid peer_epoch o d).slot ≡ (
        if names peer_epoch epoch && k == sid
        then through (silenced reset_by_peer) (call_of epoch k o)
        else call_of epoch k o)
unfolding reset_slot call_of container_of
reset_slot_lem sid k peer_epoch epoch none d own e =
    rw e (unfold get in nothing_there (names peer_epoch epoch && k == sid) (silenced reset_by_peer))
reset_slot_lem sid k peer_epoch epoch (some s) d own e =
    let g = get-reset_calls sid peer_epoch epoch s.epochs in
    elim (Option-cases (get epoch s.epochs)) [
      | inl n ↦
          let gone : get epoch (reset_calls sid peer_epoch s.epochs) ≡ none = rw n at g in
          rw (gone, n)
            (unfold get in
              nothing_there (names peer_epoch epoch && k == sid) (silenced reset_by_peer))
      | inr (ps, n) ↦
          let here : get epoch (reset_calls sid peer_epoch s.epochs)
              ≡ some (reset_in sid peer_epoch ps) =
            rw n at g in
          let r = reset_in_lem sid k peer_epoch ps in
          simp (here, n)
            (subst
              (λ x. get k (reset_in sid peer_epoch ps).calls ≡ (
                if names peer_epoch x && k == sid
                then through (silenced reset_by_peer) (get k ps.calls)
                else get k ps.calls))
              (own ps n) r)
    ]

-- A RESET that echoes this server's epoch silences exactly the calls with its sid of the incarnation that it
-- names, or of every one where it names none; every other call of the peer stands as it was, and so does
-- all if the epoch is another's.
pub on_reset_exact :
    (cfg : Config) (f : Frame) (d : Desk) (epoch sid : ℕ)
    → ((e : ℕ) (ps : Container) → container_of e d.slot ≡ some ps → ps.epoch ≡ e)
    → call_of epoch sid (on_reset cfg f d).slot ≡ (
        if f.epoch == cfg.epoch && (names f.peer_epoch epoch && sid == f.sid)
        then through (silenced reset_by_peer) (call_of epoch sid d.slot)
        else call_of epoch sid d.slot)
unfolding on_reset
on_reset_exact cfg f d epoch sid own = elim (Bool-cases (f.epoch == cfg.epoch)) [
  | inl mine ↦ simp mine (
      reset_slot_lem f.sid sid f.peer_epoch epoch d.slot (note reset_received f.sid d) (own epoch)
        refl)
  | inr other ↦ simp other refl
]

-- A connection grant is not answered and starts nothing, and it makes no slot.
on_grant_quiet :
    (rel : Bool) (f : Frame) (d : Desk)
    → ((on_grant rel f d).sent ≡ d.sent)
      × ((on_grant rel f d).started ≡ d.started)
      × (d.slot ≡ none → (on_grant rel f d).slot ≡ none)
unfolding on_grant grant_at granted_evicted container_of
on_grant_quiet rel f d = ground arith
