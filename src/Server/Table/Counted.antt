-- ===== src/Server/Table/Counted.antt =====
-- The counts of live calls in a peer's slot, and the bound on its containers.
use grpc_dgram.Prelude.{
  ℕ, suc, ◌+◌, ◌-◌, ◌≤◌, ◌<◌, ◌≡◌, ◌≢◌, refl, ◌∙◌, ◌⊎◌, inl, inr, Bool, true, false, List, [], ◌∷◌,
  Option, none, some, ltb, leb, ◌==◌, if◌then◌else◌, arith, Bool-cases, Option-cases, length, All,
}
use grpc_dgram.OrderedMap.{
  OrderedMap, get, set, delete, has, length-set, length-delete, All-set, All-delete, All-get,
  Distinct, Fresh, set-Distinct, delete-Distinct, get-Fresh, get-set_self, get-delete_ne,
}
use grpc_dgram.Flow.Ledger.{PeerFlowRx}
use grpc_dgram.Server.Table.{
  Config, Slot, Container, put_container, idle_ones, oldest_of, evict_idle, create, ensure_peer,
  evicted, evict_oldest, kept_position, take_position,
}

-- The live calls of all containers.
unfoldable pub total : OrderedMap Container → ℕ
total [] = 0
total ((e, ps) ∷ m) = ps.live_calls + total m

-- A container stands under its own epoch, and counts the calls that it has.
abbrev pub Exact : ℕ × Container → Type 0
Exact (e, ps) = (ps.epoch ≡ e) × (ps.live_calls ≡ length ps.calls)

pub record Counted (cfg : Config) (s : Slot) : Type 0 where
  pub each : All Exact s.epochs
  pub apart : Distinct s.epochs
  pub sum : s.live_calls ≡ total s.epochs
  pub cap : s.live_calls ≤ cfg.limits.max_live_calls
  pub few : length s.epochs ≤ cfg.limits.max_dead_peers + cfg.limits.max_live_calls

abbrev live_at : Option Container → ℕ
live_at none = 0
live_at (some ps) = ps.live_calls

total-set :
    (k : ℕ) (ps : Container) (m : OrderedMap Container)
    → total (set k ps m) + live_at (get k m) ≡ total m + ps.live_calls
unfolding total set get
total-set k ps [] = omega arith
total-set k ps ((j, w) ∷ m) = ground (arith, total-set k ps m)

total-delete : (k : ℕ) (m : OrderedMap Container) → total (delete k m) + live_at (get k m) ≡ total m
unfolding total delete get
total-delete k [] = refl
total-delete k ((j, w) ∷ m) = ground (arith, total-delete k m)

-- Every container is idle or has a live call.
idle_or_live : (m : OrderedMap Container) → length m ≤ length (idle_ones m) + total m
unfolding idle_ones total
idle_or_live [] = omega arith
idle_or_live ((e, ps) ∷ m) = ground (arith, idle_or_live m)

-- A container that has the calls of the one it replaces.
pub put_container-Counted :
    (cfg : Config) (s : Slot) (ps ps' : Container)
    → get ps'.epoch s.epochs ≡ some ps
    → ps'.live_calls ≡ ps.live_calls
    → length ps'.calls ≡ length ps.calls
    → Counted cfg s
    → Counted cfg (put_container ps' s)
put_container-Counted cfg s ps ps' at same calls c =
    let old = All-get Exact ps'.epoch s.epochs ps c.each at in
    let t = total-set ps'.epoch ps' s.epochs in
    let t' : total (set ps'.epoch ps' s.epochs) + ps.live_calls ≡ total s.epochs + ps'.live_calls =
      rw at at t in
    let l = length-set ps'.epoch ps' s.epochs in
    let h : has ps'.epoch s.epochs ≡ true = unfold has in rw at refl in
    record {
      apart = set-Distinct ps'.epoch ps' s.epochs c.apart;
      each = All-set Exact ps'.epoch ps' s.epochs (refl, ground (arith, old, same, calls)) c.each;
      sum = omega (arith, c.sum, t', same);
      cap = c.cap;
      few = ground (arith, c.few, l, h);
    }

abbrev Among : Container → List Container → Type 0
Among o [] = ⊥
Among o (p ∷ ps) = (o ≡ p) ⊎ Among o ps

oldest_of-Among : (o : Container) (ps : List Container) → Among (oldest_of o ps) (o ∷ ps)
unfolding oldest_of
oldest_of-Among o [] = inl refl
oldest_of-Among o (p ∷ ps) =
    elim (ltb p.created_at o.created_at)
      as (λ x. Among (oldest_of (if x then p else o) ps) (o ∷ (p ∷ ps))) [
        | true ↦ inr (oldest_of-Among p ps)
        | false ↦ elim (oldest_of-Among o ps) [ inl e ↦ inl e | inr a ↦ inr (inr a) ]
      ]

other_key : {V : Type 0} (j k : ℕ) (v : V) (m : OrderedMap V) → Fresh j m → get k m ≡ some v → j ≢ k
other_key j k v m f h = λ e. (let n = get-Fresh j m f in ground (arith, rw e at n, h))

-- An idle container is the one that the map has under its epoch.
idle_found :
    (o : Container) (m : OrderedMap Container)
    → All Exact m
    → Distinct m
    → Among o (idle_ones m)
    → (get o.epoch m ≡ some o) × (o.live_calls ≡ 0)
unfolding idle_ones get
idle_found o ((e, w) ∷ m) a d h = elim (Bool-cases (w.live_calls == 0)) [
  | inl idle_ ↦ elim (rw idle_ at h) [
    | inl same ↦ ground (arith, same, a.0, idle_)
    | inr later ↦
        let r = idle_found o m a.1 d.1 later in ground (arith, r, other_key e o.epoch o m d.0 r.0)
  ]
  | inr live_ ↦
      let r = idle_found o m a.1 d.1 (rw live_ at h) in
      ground (arith, r, other_key e o.epoch o m d.0 r.0)
]
idle_found o [] a d h = elim h [ ]

-- There is room for one more container, of the incarnation `epoch`.
abbrev Room : Config → ℕ → Slot → Type 0
Room cfg epoch s =
    Counted cfg s
    × (length s.epochs < cfg.limits.max_dead_peers + cfg.limits.max_live_calls)
    × (get epoch s.epochs ≡ none)

evicted_lem :
    (cfg : Config) (o : Container) (s : Slot)
    → ((evicted cfg o s).epochs ≡ delete o.epoch s.epochs)
      × ((evicted cfg o s).live_calls ≡ s.live_calls)
unfolding evicted kept_position
evicted_lem cfg o s = ground arith

evicted-Room :
    (cfg : Config) (epoch : ℕ) (o : Container) (s : Slot)
    → Counted cfg s
    → get epoch s.epochs ≡ none
    → Among o (idle_ones s.epochs)
    → Room cfg epoch (evicted cfg o s)
evicted-Room cfg epoch o s c absent among =
    let (at, idle_) = idle_found o s.epochs c.each c.apart among in
    let (ep, live_) = evicted_lem cfg o s in
    let t : total (delete o.epoch s.epochs) + o.live_calls ≡ total s.epochs =
      rw at at (total-delete o.epoch s.epochs) in
    let h : has o.epoch s.epochs ≡ true = unfold has in rw at refl in
    let l = length-delete o.epoch s.epochs in
    let ne : o.epoch ≢ epoch = λ e. (let n = rw e at at in ground (arith, n, absent)) in
    let few = c.few in
    (
      record {
        each = rw ep (All-delete Exact o.epoch s.epochs c.each);
        apart = rw ep (delete-Distinct o.epoch s.epochs c.apart);
        sum = rw (ep, live_) (omega (arith, c.sum, t, idle_));
        cap = rw live_ c.cap;
        few = rw ep (ground (arith, l, h, few));
      },
      rw ep (ground (arith, l, h, few)),
      rw ep (get-delete_ne o.epoch epoch s.epochs ne ∙ absent),
    )

evict_oldest-Room :
    (cfg : Config) (epoch : ℕ) (dead : List Container) (s : Slot)
    → Counted cfg s
    → get epoch s.epochs ≡ none
    → ((o : Container) → Among o dead → Among o (idle_ones s.epochs))
    → 0 < length dead
    → Room cfg epoch (evict_oldest cfg dead s)
unfolding evict_oldest
evict_oldest-Room cfg epoch [] s c absent sub some_ =
    let no : ⊥ = omega (arith, some_) in elim no [ ]
evict_oldest-Room cfg epoch (p ∷ ps) s c absent sub some_ =
    evicted-Room cfg epoch (oldest_of p ps) s c absent (sub (oldest_of p ps) (oldest_of-Among p ps))

evict_idle-Room :
    (cfg : Config) (epoch : ℕ) (s : Slot)
    → 0 < cfg.limits.max_dead_peers
    → Counted cfg s
    → get epoch s.epochs ≡ none
    → Room cfg epoch (evict_idle cfg s)
unfolding evict_idle
evict_idle-Room cfg epoch s some_ c absent =
    let b = idle_or_live s.epochs in
    elim (Bool-cases (leb cfg.limits.max_dead_peers (length (idle_ones s.epochs)))) [
      | inl full ↦ simp full (
          evict_oldest-Room cfg epoch (idle_ones s.epochs) s c absent (λ o a. a)
            (ground (arith, full, some_)))
      | inr free ↦ simp free (c, ground (arith, free, b, c.sum, c.cap), absent)
    ]

-- The container of a frame's incarnation: it is in the table, and the counts still hold.
abbrev pub Found : Config → ℕ → Slot × Container → Type 0
Found cfg epoch (s, ps) = Counted cfg s × (get epoch s.epochs ≡ some ps) × (ps.epoch ≡ epoch)

put_new-Found :
    (cfg : Config) (ps : Container) (s : Slot)
    → Room cfg ps.epoch s
    → ps.live_calls ≡ 0
    → length ps.calls ≡ 0
    → Found cfg ps.epoch (put_container ps s, ps)
put_new-Found cfg ps s (c, room, absent) none_live no_calls =
    let t : total (set ps.epoch ps s.epochs) + 0 ≡ total s.epochs + ps.live_calls =
      rw absent at (total-set ps.epoch ps s.epochs) in
    let l = length-set ps.epoch ps s.epochs in
    let h : has ps.epoch s.epochs ≡ false = unfold has in rw absent refl in
    (
      record {
        each =
            All-set Exact ps.epoch ps s.epochs (refl, ground (arith, none_live, no_calls)) c.each;
        apart = set-Distinct ps.epoch ps s.epochs c.apart;
        sum = omega (arith, t, c.sum, none_live);
        cap = c.cap;
        few = ground (arith, l, h, room);
      },
      get-set_self ps.epoch ps s.epochs,
      refl,
    )

-- Nothing but the ledger differs.
reflow-Counted :
    (cfg : Config) (flow : Option PeerFlowRx) (s : Slot)
    → Counted cfg s
    → Counted cfg (record s { flow = flow })
reflow-Counted cfg flow s c = record {
  each = c.each;
  apart = c.apart;
  sum = c.sum;
  cap = c.cap;
  few = c.few;
}

pub ensure_peer-Found :
    (cfg : Config) (epoch now : ℕ) (rel : Bool) (s : Slot)
    → 0 < cfg.limits.max_dead_peers
    → Counted cfg s
    → Found cfg epoch (ensure_peer cfg epoch now rel s)
unfolding ensure_peer create
ensure_peer-Found cfg epoch now rel s some_ c = elim (Option-cases (get epoch s.epochs)) [
  | inr (ps, e) ↦ rw (e, ensure_peer) (c, e, (All-get Exact epoch s.epochs ps c.each e).0)
  | inl e ↦
      let flow = (if rel then take_position epoch s.flow else (s.flow, none)).0 in
      rw (e, ensure_peer)
        (put_new-Found cfg _ _
          (evict_idle-Room cfg epoch (record s { flow = flow }) some_ (reflow-Counted cfg flow s c)
            e)
          refl refl)
]

-- A container with one call more, where the peer is below its cap.
pub seat-Counted :
    (cfg : Config) (s : Slot) (ps ps' : Container)
    → get ps'.epoch s.epochs ≡ some ps
    → ps'.live_calls ≡ ps.live_calls + 1
    → length ps'.calls ≡ suc (length ps.calls)
    → s.live_calls < cfg.limits.max_live_calls
    → Counted cfg s
    → Counted cfg (put_container ps' (record s { live_calls = s.live_calls + 1 }))
seat-Counted cfg s ps ps' at more calls room c =
    let old = All-get Exact ps'.epoch s.epochs ps c.each at in
    let t : total (set ps'.epoch ps' s.epochs) + ps.live_calls ≡ total s.epochs + ps'.live_calls =
      rw at at (total-set ps'.epoch ps' s.epochs) in
    let l = length-set ps'.epoch ps' s.epochs in
    let h : has ps'.epoch s.epochs ≡ true = unfold has in rw at refl in
    record {
      each = All-set Exact ps'.epoch ps' s.epochs (refl, omega (arith, old.1, more, calls)) c.each;
      apart = set-Distinct ps'.epoch ps' s.epochs c.apart;
      sum = omega (arith, c.sum, t, more);
      cap = omega (arith, room);
      few = ground (arith, c.few, l, h);
    }

-- A container with one call less.
pub leave-Counted :
    (cfg : Config) (s : Slot) (ps ps' : Container)
    → get ps'.epoch s.epochs ≡ some ps
    → ps'.live_calls ≡ ps.live_calls - 1
    → suc (length ps'.calls) ≡ length ps.calls
    → Counted cfg s
    → Counted cfg (put_container ps' (record s { live_calls = s.live_calls - 1 }))
leave-Counted cfg s ps ps' at less calls c =
    let old = All-get Exact ps'.epoch s.epochs ps c.each at in
    let t : total (set ps'.epoch ps' s.epochs) + ps.live_calls ≡ total s.epochs + ps'.live_calls =
      rw at at (total-set ps'.epoch ps' s.epochs) in
    let l = length-set ps'.epoch ps' s.epochs in
    let h : has ps'.epoch s.epochs ≡ true = unfold has in rw at refl in
    record {
      each = All-set Exact ps'.epoch ps' s.epochs (refl, omega (arith, old.1, less, calls)) c.each;
      apart = set-Distinct ps'.epoch ps' s.epochs c.apart;
      sum = omega (arith, c.sum, t, less, old.1, calls);
      cap = omega (arith, c.cap);
      few = ground (arith, c.few, l, h);
    }
