-- ===== src/OrderedMap.antt =====
-- JavaScript's `Map` with numbers for keys: entries in insertion order, each key once. A key that is
-- set again keeps its place.
use grpc_dgram.Prelude.{
  ℕ, suc, ◌≡◌, refl, ◌≢◌, Bool, true, false, List, [], ◌∷◌, Option, none, some, arith, length, ◌==◌,
  if◌then◌else◌, All, Bool-cases, inl, inr, sym,
}

abbrev pub OrderedMap {ℓ} : Type ℓ → Type ℓ
OrderedMap V = List (ℕ × V)

module _ {ℓ} {V : Type ℓ} where
  unfoldable pub get : ℕ → OrderedMap V → Option V
  get k [] = none
  get k ((j, v) ∷ m) = if j == k then some v else get k m

  unfoldable pub set : ℕ → V → OrderedMap V → OrderedMap V
  set k v [] = (k, v) ∷ []
  set k v ((j, w) ∷ m) = if j == k then (k, v) ∷ m else (j, w) ∷ set k v m

  unfoldable pub delete : ℕ → OrderedMap V → OrderedMap V
  delete k [] = []
  delete k ((j, w) ∷ m) = if j == k then m else (j, w) ∷ delete k m

  abbrev pub is_some : Option V → Bool
  is_some none = false
  is_some (some v) = true

  unfoldable pub has : ℕ → OrderedMap V → Bool
  has k m = is_some (get k m)

  pub get-set :
      (k j : ℕ) (v : V) (m : OrderedMap V)
      → get j (set k v m) ≡ (if k == j then some v else get j m)
  unfolding get set
  get-set k j v [] = refl
  get-set k j v ((i, w) ∷ m) = ground (arith, get-set k j v m)

  pub get-set_self : (k : ℕ) (v : V) (m : OrderedMap V) → get k (set k v m) ≡ some v
  get-set_self k v m = ground (arith, get-set k k v m)

  pub get-set_ne : (k j : ℕ) (v : V) (m : OrderedMap V) → k ≢ j → get j (set k v m) ≡ get j m
  get-set_ne k j v m h = ground (arith, get-set k j v m)

  pub get-delete_ne : (k j : ℕ) (m : OrderedMap V) → k ≢ j → get j (delete k m) ≡ get j m
  unfolding get delete
  get-delete_ne k j [] h = refl
  get-delete_ne k j ((i, w) ∷ m) h = ground (arith, get-delete_ne k j m)

  pub length-set :
      (k : ℕ) (v : V) (m : OrderedMap V)
      → length (set k v m) ≡ (if has k m then length m else suc (length m))
  unfolding get set has
  length-set k v [] = refl
  length-set k v ((i, w) ∷ m) = ground (arith, length-set k v m)

  pub length-delete :
      (k : ℕ) (m : OrderedMap V)
      → suc (length (delete k m)) ≡ (if has k m then length m else suc (length m))
  unfolding get delete has
  length-delete k [] = refl
  length-delete k ((i, w) ∷ m) = ground (arith, length-delete k m)

  -- Each key stands once.
  abbrev pub Fresh : ℕ → OrderedMap V → Type 0
  Fresh k [] = Unit {0}
  Fresh k ((j, w) ∷ m) = (j ≢ k) × Fresh k m

  abbrev pub Distinct : OrderedMap V → Type 0
  Distinct [] = Unit {0}
  Distinct ((j, w) ∷ m) = Fresh j m × Distinct m

  pub get-Fresh : (k : ℕ) (m : OrderedMap V) → Fresh k m → get k m ≡ none
  unfolding get
  get-Fresh k [] f = refl
  get-Fresh k ((j, w) ∷ m) f = ground (arith, get-Fresh k m f.1)

  set-Fresh : (k j : ℕ) (v : V) (m : OrderedMap V) → k ≢ j → Fresh j m → Fresh j (set k v m)
  unfolding set
  set-Fresh k j v [] h f = (h, tt)
  set-Fresh k j v ((i, w) ∷ m) h f = ground (arith, set-Fresh k j v m h f.1)

  delete-Fresh : (k j : ℕ) (m : OrderedMap V) → Fresh j m → Fresh j (delete k m)
  unfolding delete
  delete-Fresh k j [] f = tt
  delete-Fresh k j ((i, w) ∷ m) f = ground (arith, delete-Fresh k j m f.1)

  pub set-Distinct : (k : ℕ) (v : V) (m : OrderedMap V) → Distinct m → Distinct (set k v m)
  unfolding set
  set-Distinct k v [] d = (tt, tt)
  set-Distinct k v ((i, w) ∷ m) d = ground (arith, set-Distinct k v m d.1, set-Fresh k i v m, d.0)

  pub delete-Distinct : (k : ℕ) (m : OrderedMap V) → Distinct m → Distinct (delete k m)
  unfolding delete
  delete-Distinct k [] d = tt
  delete-Distinct k ((i, w) ∷ m) d = ground (arith, delete-Distinct k m d.1, delete-Fresh k i m)

  pub get-delete_self : (k : ℕ) (m : OrderedMap V) → Distinct m → get k (delete k m) ≡ none
  unfolding get delete
  get-delete_self k [] d = refl
  get-delete_self k ((i, w) ∷ m) d = ground (arith, get-delete_self k m d.1, get-Fresh k m)

-- What holds of every entry.
module _ {ℓ κ} {V : Type ℓ} (P : ℕ × V → Type κ) where
  pub All-set : (k : ℕ) (v : V) (m : OrderedMap V) → P (k, v) → All P m → All P (set k v m)
  unfolding set
  All-set k v [] h a = (h, tt)
  All-set k v ((j, w) ∷ m) h a =
      elim (j == k) as (λ x. All P (if x then (k, v) ∷ m else (j, w) ∷ set k v m)) [
        | true ↦ (h, a.1)
        | false ↦ (a.0, All-set k v m h a.1)
      ]

  pub All-delete : (k : ℕ) (m : OrderedMap V) → All P m → All P (delete k m)
  unfolding delete
  All-delete k [] a = tt
  All-delete k ((j, w) ∷ m) a =
      elim (j == k) as (λ x. All P (if x then m else (j, w) ∷ delete k m)) [
        | true ↦ a.1
        | false ↦ (a.0, All-delete k m a.1)
      ]

  pub All-get : (k : ℕ) (m : OrderedMap V) (v : V) → All P m → get k m ≡ some v → P (k, v)
  unfolding get
  All-get k [] v a h = ground (arith, h)
  All-get k ((j, w) ∷ m) v a h = elim (Bool-cases (j == k)) [
    | inl e ↦
        let h0 = rw e at h in
        let h' : w ≡ v = ground (arith, h0) in
        let j' : j ≡ k = ground (arith, e) in rw (sym h', sym j') a.0
    | inr e ↦ All-get k m v a.1 (rw e at h)
  ]
