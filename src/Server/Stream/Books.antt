-- ===== src/Server/Stream/Books.antt =====
-- The account of a call's connection credit, through every step of its receive path.
use grpc_dgram.Prelude.{
  ℕ, ◌+◌, ◌*◌, ◌≤◌, ◌<◌, ◌≡◌, ◌≢◌, refl, ◌⊎◌, inl, inr, true, false, ◌&&◌, List, [], ◌∷◌, ◌++◌,
  some, ◌==◌, if◌then◌else◌, arith, Bool-cases,
}
use grpc_dgram.OrderedMap.{Distinct}
use grpc_dgram.Flow.Ledger.{PeerFlowRx, retire, unadmitted, admit, held, u32_max}
use grpc_dgram.Flow.Ledger.Credit.{retire-Returned, unadmitted-Returned}
use grpc_dgram.Wire.Flags.{Frame, frame, flag_window, is_data}
use grpc_dgram.Server.Stream.{Call, grant_peer}
use grpc_dgram.Server.Stream.Credit.{
  retire_peer, credit_unbuffered, pin, unpin, unpin_and_retire, release_pinned, admit_frame,
}

-- The connection credit granted to one incarnation by the frames sent.
unfoldable pub granted_to : ℕ → List Frame → ℕ
granted_to e [] = 0
granted_to e (f ∷ fs) =
    if f.sid == 0 && (f.flags == flag_window && f.peer_epoch == e)
    then f.window + granted_to e fs
    else granted_to e fs

pub granted_to-append :
    (e : ℕ) (fs : List Frame) (f : Frame)
    → granted_to e (fs ++ (f ∷ [])) ≡ granted_to e fs + granted_to e (f ∷ [])
unfolding granted_to
granted_to-append e [] f = omega arith
granted_to-append e (g ∷ fs) f = ground (arith, granted_to-append e fs f)

-- `owed` credits of the incarnation `e`, each in one place: pinned by a frame in the buffer, loose
-- while a frame is between two places, held back by the ledger or granted. The ledger's charge is for
-- the frames of this call and `others` more.
pub record Books (e others loose owed : ℕ) (l : PeerFlowRx) (pinned : ℕ) (sent : List Frame)
    : Type 0 where
  pub charged : l.outstanding ≡ others + (pinned + loose)
  pub balance : pinned + loose + held e l + granted_to e sent ≡ owed
  pub small : (held e l ≡ 0) ⊎ (held e l * 2 < l.window)
  pub bounded : l.outstanding ≤ l.window
  pub open_window : 0 < l.window
  pub narrow : l.window * 3 ≤ u32_max * 2
  pub apart : Distinct l.pending

-- A call in reliable mode at a server that runs.
pub record Accounted (others loose owed : ℕ) (c : Call) (l : PeerFlowRx) : Type 0 where
  pub has_ledger : c.host.ledger ≡ some l
  pub reliable : c.stream.reliable ≡ true
  pub running : c.host.closed ≡ false
  pub named : c.stream.sid ≢ 0
  pub active : c.stream.flow_rx.on ≡ true
  pub books : Books c.stream.client_epoch others loose owed l c.stream.pinned c.host.sent

retire-Books :
    (e others n owed : ℕ) (l : PeerFlowRx) (pinned : ℕ) (sent : List Frame)
    → Books e others n owed l pinned sent
    → (held e (retire e n true l).0 + (retire e n true l).1 ≡ held e l + n)
      × ((retire e n true l).0.outstanding ≡ others + pinned)
      × ((held e (retire e n true l).0 ≡ 0) ⊎ (held e (retire e n true l).0 * 2 < l.window))
      × ((retire e n true l).0.window ≡ l.window)
      × Distinct (retire e n true l).0.pending
retire-Books e others n owed l pinned sent b =
    let (r, o) =
      retire-Returned e n l b.apart (omega (arith, b.small, b.charged, b.bounded, b.narrow))
        b.open_window in
    ground (arith, r, o, b.charged)

-- The frame of a grant counts for what it grants.
grant_frame :
    (e g server : ℕ)
    → granted_to e
        (record frame { epoch = server; peer_epoch = e; flags = flag_window; window = g } ∷ [])
      ≡ g
unfolding granted_to
grant_frame e g server = ground arith

retire_peer-Accounted :
    (others n owed : ℕ) (c : Call) (l : PeerFlowRx)
    → Accounted others n owed c l
    → Accounted others 0 owed
        (retire_peer n c)
        (if n == 0 then l else (retire c.stream.client_epoch n true l).0)
unfolding retire_peer grant_peer
retire_peer-Accounted others n owed c l a =
    let e = c.stream.client_epoch in
    let b = retire-Books e others n owed l c.stream.pinned c.host.sent a.books in
    let g = (retire e n true l).1 in
    let sent = granted_to-append e c.host.sent (record frame {
      epoch = c.host.server_epoch;
      peer_epoch = e;
      flags = flag_window;
      window = g;
    }) in
    rw (a.has_ledger, a.running)
      (ground (arith, b, sent, grant_frame e g c.host.server_epoch, a.books))

-- Some ledger accounts for the call.
abbrev pub Balanced : ℕ → ℕ → ℕ → Call → Type 0
Balanced others loose owed c = (l : PeerFlowRx) × Accounted others loose owed c l

pub retire_peer-Balanced :
    (others n owed : ℕ) (c : Call)
    → Balanced others n owed c
    → Balanced others 0 owed (retire_peer n c)
retire_peer-Balanced others n owed c (l, a) = (_, retire_peer-Accounted others n owed c l a)

-- One more credit is owed for a data frame.
abbrev pub frame_credit : Frame → ℕ
frame_credit f = if is_data f then 1 else 0

unadmitted-Books :
    (e others loose owed : ℕ) (l : PeerFlowRx) (pinned : ℕ) (sent : List Frame)
    → Books e others loose owed l pinned sent
    → (held e (unadmitted e 1 l).0 + (unadmitted e 1 l).1 ≡ held e l + 1)
      × ((unadmitted e 1 l).0.outstanding ≡ l.outstanding)
      × ((held e (unadmitted e 1 l).0 ≡ 0) ⊎ (held e (unadmitted e 1 l).0 * 2 < l.window))
      × ((unadmitted e 1 l).0.window ≡ l.window)
      × Distinct (unadmitted e 1 l).0.pending
unadmitted-Books e others loose owed l pinned sent b =
    let (r, o) =
      unadmitted-Returned e 1 l b.apart (omega (arith, b.small, b.narrow, b.open_window))
        b.open_window in
    ground (arith, r, o)

pub credit_unbuffered-Balanced :
    (others loose owed : ℕ) (f : Frame) (c : Call)
    → Balanced others loose owed c
    → Balanced others loose (owed + frame_credit f) (credit_unbuffered f c)
unfolding credit_unbuffered grant_peer
credit_unbuffered-Balanced others loose owed f c (l, a) =
    let e = c.stream.client_epoch in
    let b = unadmitted-Books e others loose owed l c.stream.pinned c.host.sent a.books in
    let g = (unadmitted e 1 l).1 in
    let sent = granted_to-append e c.host.sent (record frame {
      epoch = c.host.server_epoch;
      peer_epoch = e;
      flags = flag_window;
      window = g;
    }) in
    (
      (if is_data f then (unadmitted e 1 l).0 else l),
      rw (a.has_ledger, a.running, a.reliable)
          (ground (arith, b, sent, grant_frame e g c.host.server_epoch, a.books)),
    )

-- A loose frame is pinned, and a pinned one becomes loose.
pub pin-Balanced :
    (others owed : ℕ) (c : Call)
    → c.stream.rx_released ≡ false
    → Balanced others 1 owed c
    → Balanced others 0 owed (pin c).0
unfolding pin
pin-Balanced others owed c open_ (l, a) = (l, ground (arith, a.books))

pub unpin-Balanced :
    (others owed : ℕ) (c : Call)
    → 0 < c.stream.pinned
    → Balanced others 0 owed c
    → Balanced others 1 owed (unpin c).0
unfolding unpin
unpin-Balanced others owed c some_ (l, a) = (l, ground (arith, a.books))

pub unpin_and_retire-Balanced :
    (others owed : ℕ) (c : Call)
    → Balanced others 0 owed c
    → Balanced others 0 owed (unpin_and_retire c)
unfolding unpin_and_retire
unpin_and_retire-Balanced others owed c b = elim (Bool-cases (c.stream.pinned == 0)) [
  | inl nothing ↦ unfold unpin in (rw nothing b)
  | inr more ↦
      let w =
        retire_peer-Balanced others 1 owed (unpin c).0
          (unpin-Balanced others owed c (ground (arith, more)) b) in
      let left : (unpin c).1 ≡ true = unfold unpin in (rw more refl) in rw left w
]

pub release_pinned-Balanced :
    (others owed : ℕ) (c : Call)
    → Balanced others 0 owed c
    → Balanced others 0 owed (release_pinned c)
unfolding release_pinned
release_pinned-Balanced others owed c (l, a) =
    retire_peer-Balanced others c.stream.pinned owed _ (l, ground (arith, a.books))

-- Admitting a frame of this call makes one more credit owed, for a frame that is on its way.
pub admit_frame-Balanced :
    (others owed : ℕ) (c : Call)
    → (admit_frame c).1 ≡ true
    → Balanced others 0 owed c
    → Balanced others 1 (owed + 1) (admit_frame c).0
unfolding admit_frame admit
admit_frame-Balanced others owed c h (l, a) = (
  record l { outstanding = l.outstanding + 1 },
  rw a.has_ledger (ground (arith, a.books, rw a.has_ledger at h)),
)

pub refused-Balanced :
    (others owed : ℕ) (c : Call)
    → (admit_frame c).1 ≡ false
    → Balanced others 0 owed c
    → Balanced others 0 owed (admit_frame c).0
unfolding admit_frame admit
refused-Balanced others owed c h (l, a) =
    (l, rw a.has_ledger (ground (arith, a.books, rw a.has_ledger at h)))
