-- ===== src/Server/Tombs/Bounds/Entries.antt =====
-- The tombstones of a container as a map: their sizes, their keys and the floor.
use grpc_dgram.Prelude.{
  ℕ, ◌+◌, ◌≤◌, ◌<◌, ◌≡◌, refl, true, ◌⊎◌, inl, inr, List, [], ◌∷◌, Option, none, some, Option-cases,
  ltb, ◌==◌, ◌||◌, if◌then◌else◌, length, arith, All,
}
use grpc_dgram.OrderedMap.{OrderedMap, get, set, delete, has, Distinct, Fresh}
use grpc_dgram.Wire.Flags.{Frame}
use grpc_dgram.Server.Tombs.{SrvTomb, term_size, lowest_from, size_of}

unfoldable pub total : OrderedMap SrvTomb → ℕ
total [] = 0
total ((k, tb) ∷ m) = tb.size + total m

pub set-total :
    (k : ℕ) (v : SrvTomb) (m : OrderedMap SrvTomb)
    → total (set k v m) + size_of (get k m) ≡ total m + v.size
unfolding total set get
set-total k v [] = omega arith
set-total k v ((j, w) ∷ m) = ground (arith, set-total k v m)

pub delete-total :
    (k : ℕ) (m : OrderedMap SrvTomb) → total (delete k m) + size_of (get k m) ≡ total m
unfolding total delete get
delete-total k [] = omega arith
delete-total k ((j, w) ∷ m) = ground (arith, delete-total k m)

-- What a tombstone stores for a replay, and how much of it there is.
abbrev payload_of : Option Frame → List ℕ
payload_of none = []
payload_of (some f) = elim f.payload [ none ↦ [] | some bytes ↦ bytes ]

unfoldable pub stored_bytes : OrderedMap SrvTomb → ℕ
stored_bytes [] = 0
stored_bytes ((k, tb) ∷ m) = length (payload_of tb.term) + stored_bytes m

-- A tombstone stands under its own number, with the size of its payload.
abbrev pub IsMeasured : ℕ × SrvTomb → Type 0
IsMeasured (k, tb) = (tb.sid ≡ k) × (tb.size ≡ length (payload_of tb.term))

pub term_size_lem : (term : Option Frame) → term_size term ≡ length (payload_of term)
unfolding term_size
term_size_lem none = refl
term_size_lem (some f) = elim (Option-cases f.payload) [
  | inl e ↦ rw (e, term_size) refl
  | inr (bytes, e) ↦ rw (e, term_size) refl
]

pub total_bytes : (m : OrderedMap SrvTomb) → All IsMeasured m → total m ≡ stored_bytes m
unfolding total stored_bytes
total_bytes [] a = refl
total_bytes ((k, tb) ∷ m) a = ground (arith, total_bytes m a.1, a.0)

-- Every key lies above the floor.
abbrev pub Above : ℕ → OrderedMap SrvTomb → Type 0
Above f [] = Unit {0}
Above f ((k, tb) ∷ m) = (f < k) × Above f m

pub set-Above :
    (f k : ℕ) (v : SrvTomb) (m : OrderedMap SrvTomb) → f < k → Above f m → Above f (set k v m)
unfolding set
set-Above f k v [] h a = (h, tt)
set-Above f k v ((j, w) ∷ m) h a = ground (arith, set-Above f k v m h a.1)

pub delete-Above : (f k : ℕ) (m : OrderedMap SrvTomb) → Above f m → Above f (delete k m)
unfolding delete
delete-Above f k [] a = tt
delete-Above f k ((j, w) ∷ m) a = ground (arith, delete-Above f k m a.1)

abbrev AtLeast : ℕ → OrderedMap SrvTomb → Type 0
AtLeast f [] = Unit {0}
AtLeast f ((k, tb) ∷ m) = (f ≤ k) × AtLeast f m

AtLeast-le : (f g : ℕ) (m : OrderedMap SrvTomb) → f ≤ g → AtLeast g m → AtLeast f m
AtLeast-le f g [] h a = tt
AtLeast-le f g ((k, tb) ∷ m) h a = (omega (arith, h, a.0), AtLeast-le f g m h a.1)

pub lowest-AtLeast :
    (l : ℕ) (m : OrderedMap SrvTomb)
    → Above 0 m
    → AtLeast (lowest_from l m) m
      × ((l ≡ 0) ⊎ (lowest_from l m ≤ l))
      × ((lowest_from l m ≡ l) ⊎ (has (lowest_from l m) m ≡ true))
unfolding lowest_from has get
lowest-AtLeast l [] a = (tt, inr (omega arith), inl refl)
lowest-AtLeast l ((k, tb) ∷ m) a =
    let l' = if l == 0 || ltb k l then k else l in
    let h = lowest-AtLeast l' m a.1 in ground (arith, h)

pub Fresh-Above : (f : ℕ) (m : OrderedMap SrvTomb) → Fresh f m → AtLeast f m → Above f m
Fresh-Above f [] d a = tt
Fresh-Above f ((k, tb) ∷ m) d a = (omega (arith, d.0, a.0), Fresh-Above f m d.1 a.1)

pub delete-Fresh_self : (f : ℕ) (m : OrderedMap SrvTomb) → Distinct m → Fresh f (delete f m)
unfolding delete
delete-Fresh_self f [] d = tt
delete-Fresh_self f ((k, tb) ∷ m) d = ground (arith, delete-Fresh_self f m d.1)

pub delete-AtLeast : (f k : ℕ) (m : OrderedMap SrvTomb) → AtLeast f m → AtLeast f (delete k m)
unfolding delete
delete-AtLeast f k [] a = tt
delete-AtLeast f k ((j, w) ∷ m) a = ground (arith, delete-AtLeast f k m a.1)
