-- ===== src/Metadata/Join.antt =====
-- `metadataJoin` and `cloneMetadata` of ts/src/metadata.ts. An object is a JavaScript one: it has its own
-- entries and what its prototype lends it.
use grpc_dgram.Prelude.{
  ◌≡◌, refl, ap, sym, ◌∙◌, Bool, true, false, not, ◌&&◌, ◌||◌, subst, Option-cases, inl, inr, List,
  [], ◌∷◌, ◌++◌, Option, none, some, if◌then◌else◌, arith,
}
use grpc_dgram.Metadata.Base64.{codes}
use grpc_dgram.Metadata.Values.{text_eq, text_eq→eq, text_eq_refl}
use grpc_dgram.Wire.Text.{Text}

-- An object's own entries, in insertion order.
abbrev pub Metadata : Type 0
Metadata = List (Text × List Text)

-- `out[k]`
unfoldable pub get_key : Text → Metadata → Option (List Text)
get_key k [] = none
get_key k ((j, vs) ∷ md) = if text_eq j k then some vs else get_key k md

-- `out[k] = vs`
unfoldable pub set_key : Text → List Text → Metadata → Metadata
set_key k vs [] = (k, vs) ∷ []
set_key k vs ((j, ws) ∷ md) = if text_eq j k then (j, vs) ∷ md else (j, ws) ∷ set_key k vs md

-- The keys that every plain object has from `Object.prototype`. None of their values can be spread:
-- they are functions, and `__proto__` is `Object.prototype` itself.
abbrev prototype_keys : List Text
prototype_keys =
    codes "__proto__"
    ∷ codes "constructor"
    ∷ codes "hasOwnProperty"
    ∷ codes "isPrototypeOf"
    ∷ codes "propertyIsEnumerable"
    ∷ codes "toLocaleString"
    ∷ codes "toString"
    ∷ codes "valueOf"
    ∷ codes "__defineGetter__"
    ∷ codes "__defineSetter__"
    ∷ codes "__lookupGetter__"
    ∷ codes "__lookupSetter__"
    ∷ []

is_among : Text → List Text → Bool
is_among k [] = false
is_among k (j ∷ js) = text_eq j k || is_among k js

abbrev is_proto : Text → Bool
is_proto k = text_eq (codes "__proto__") k

-- `k` is a key of `Object.prototype`.
unfoldable pub inherited : Text → Bool
unfolding is_among
inherited k = is_among k prototype_keys

-- The assignment `out[k] = vs` on a plain object: the one to `__proto__` changes the prototype, and no
-- entry.
unfoldable pub assign : Text → List Text → Metadata → Metadata
assign k vs out = if is_proto k then out else set_key k vs out

clone_onto : Metadata → Metadata → Metadata
clone_onto out [] = out
clone_onto out ((k, vs) ∷ md) = clone_onto (assign k vs out) md

-- The own entries of the clone.
unfoldable pub clone_metadata : Metadata → Metadata
unfolding clone_onto
clone_metadata md = clone_onto [] md

-- The clone's prototype is still `Object.prototype`.
unfoldable pub is_plain : Metadata → Bool
is_plain [] = true
is_plain ((k, vs) ∷ md) = not (is_proto k) && is_plain md

-- What reading `out[k]` and spreading it comes to. A key that is not the object's own is looked up in
-- its prototype; where an array has taken that place, the model does not follow.
pub data Read : Type 0 where
  own : List Text → Read
  missing not_iterable elsewhere : Read

read : Bool → Text → Metadata → Read
read plain k out = elim (get_key k out) [
  | some vs ↦ own vs
  | none ↦ if not plain then elsewhere else if inherited k then not_iterable else missing
]

-- A join: its result, the TypeError it throws, or a lookup that the model does not follow.
pub data Joined : Type 0 where
  stored : Option Metadata → Joined
  type_error not_followed : Joined

unfoldable pub join_onto : Bool → Metadata → Metadata → Joined
unfolding read
join_onto plain out [] = stored (some out)
join_onto plain out ((k, vs) ∷ b) = elim (read plain k out) [
  | own cur ↦ join_onto plain (assign k (cur ++ vs) out) b
  | missing ↦ join_onto plain (assign k vs out) b
  | not_iterable ↦ type_error
  | elsewhere ↦ not_followed
]

unfoldable pub metadata_join : Option Metadata → Option Metadata → Joined
metadata_join none none = stored none
metadata_join none (some b) = stored (some (clone_metadata b))
metadata_join (some a) none = stored (some (clone_metadata a))
metadata_join (some a) (some b) = join_onto (is_plain a) (clone_metadata a) b

text_eq_via : (i j k : Text) → text_eq i k ≡ true → text_eq j k ≡ true → text_eq i j ≡ true
text_eq_via i j k p q = rw (text_eq→eq i k p, text_eq→eq j k q) (text_eq_refl k)

text_eq_same : (i j k : Text) → text_eq i j ≡ true → text_eq i k ≡ text_eq j k
text_eq_same i j k e = ap (λ (x : Text). text_eq x k) (text_eq→eq i j e)

pub get_key-set_key :
    (k j : Text) (vs : List Text) (md : Metadata)
    → get_key k (set_key j vs md) ≡ (if text_eq j k then some vs else get_key k md)
unfolding get_key set_key
get_key-set_key k j vs [] = refl
get_key-set_key k j vs ((i, ws) ∷ md) =
    ground (arith, text_eq_same i j k, text_eq_via i j k, get_key-set_key k j vs md)

-- An object has each key once.
abbrev pub KeysOnce : Metadata → Type 0
KeysOnce [] = Unit {0}
KeysOnce ((k, vs) ∷ md) = (get_key k md ≡ none) × KeysOnce md

abbrev pub joined : Option (List Text) → Option (List Text) → Option (List Text)
joined none ys = ys
joined (some xs) none = some xs
joined (some xs) (some ys) = some (xs ++ ys)

get_key_same : (j k : Text) (md : Metadata) → text_eq j k ≡ true → get_key k md ≡ get_key j md
get_key_same j k md e = ap (λ (x : Text). get_key x md) (sym (text_eq→eq j k e))

joined-none : (o : Option (List Text)) → o ≡ joined o none
joined-none none = refl
joined-none (some xs) = refl

abbrev pub get_in : Text → Option Metadata → Option (List Text)
get_in k none = none
get_in k (some md) = get_key k md

-- No key of the object is one of `Object.prototype`.
abbrev pub Ordinary : Metadata → Type 0
Ordinary [] = Unit {0}
Ordinary ((k, vs) ∷ md) = (inherited k ≡ false) × Ordinary md

not_proto : (k : Text) → inherited k ≡ false → is_proto k ≡ false
unfolding inherited is_among
not_proto k h = ground (arith, h)

assign_ordinary :
    (k : Text) (vs : List Text) (out : Metadata)
    → inherited k ≡ false
    → assign k vs out ≡ set_key k vs out
unfolding assign
assign_ordinary k vs out h = rw (not_proto k h) refl

Ordinary-is_plain : (md : Metadata) → Ordinary md → is_plain md ≡ true
unfolding is_plain
Ordinary-is_plain [] o = refl
Ordinary-is_plain ((k, vs) ∷ md) o = rw (not_proto k o.0, Ordinary-is_plain md o.1) refl

-- The join under a key.
abbrev pub JoinedAt : Text → Joined → Option (List Text) → Type 0
JoinedAt k (stored md) vs = get_in k md ≡ vs
JoinedAt k type_error vs = ⊥
JoinedAt k not_followed vs = ⊥

abbrev or_nil : Option (List Text) → List Text
or_nil none = []
or_nil (some vs) = vs

-- One entry of the second object, whose values go behind the ones that are there.
entry_joined :
    (k j : Text) (vs : List Text) (out b : Metadata)
    → get_key j b ≡ none
    → joined (get_key k (set_key j (or_nil (get_key j out) ++ vs) out)) (get_key k b)
      ≡ joined (get_key k out) (get_key k ((j, vs) ∷ b))
unfolding get_key
entry_joined k j vs out b fresh =
    let s = get_key-set_key k j (or_nil (get_key j out) ++ vs) out in
    ground (arith, s, get_key_same j k out, get_key_same j k b, fresh)

join_onto_step :
    (j : Text) (vs : List Text) (out b : Metadata)
    → inherited j ≡ false
    → join_onto true out ((j, vs) ∷ b)
      ≡ join_onto true (set_key j (or_nil (get_key j out) ++ vs) out) b
unfolding join_onto read
join_onto_step j vs out b o = elim (Option-cases (get_key j out)) [
  | inl gone ↦ rw (gone, join_onto, o, assign_ordinary j vs out o) refl
  | inr (cur, found) ↦ rw (found, join_onto, assign_ordinary j (cur ++ vs) out o) refl
]

join_onto-get :
    (k : Text) (out b : Metadata)
    → KeysOnce b
    → Ordinary b
    → JoinedAt k (join_onto true out b) (joined (get_key k out) (get_key k b))
unfolding join_onto read
join_onto-get k out [] once o = unfold get_key in joined-none (get_key k out)
join_onto-get k out ((j, vs) ∷ b) once o =
    let vs' = or_nil (get_key j out) ++ vs in
    let ih = join_onto-get k (set_key j vs' out) b once.1 o.1 in
    let e = entry_joined k j vs out b once.0 in
    let here : JoinedAt k (join_onto true (set_key j vs' out) b)
        (joined (get_key k out) (get_key k ((j, vs) ∷ b))) =
      subst (JoinedAt k (join_onto true (set_key j vs' out) b)) e ih in
    rw (join_onto_step j vs out b o.0) here

abbrev over : Option (List Text) → Option (List Text) → Option (List Text)
over (some vs) old = some vs
over none old = old

clone_onto-get :
    (k : Text) (out md : Metadata)
    → KeysOnce md
    → Ordinary md
    → get_key k (clone_onto out md) ≡ over (get_key k md) (get_key k out)
unfolding clone_onto get_key
clone_onto-get k out [] once o = refl
clone_onto-get k out ((j, vs) ∷ md) once o =
    let ih = clone_onto-get k (set_key j vs out) md once.1 o.1 in
    let e = assign_ordinary j vs out o.0 in
    rw e (ground (arith, ih, get_key-set_key k j vs out, get_key_same j k md, once.0))

clone-get :
    (k : Text) (md : Metadata)
    → KeysOnce md
    → Ordinary md
    → get_key k (clone_metadata md) ≡ get_key k md
unfolding clone_metadata get_key
clone-get k md once o = ground (arith, clone_onto-get k [] md once o)

abbrev pub KeysOnceIn : Option Metadata → Type 0
KeysOnceIn none = Unit {0}
KeysOnceIn (some md) = KeysOnce md

abbrev pub OrdinaryIn : Option Metadata → Type 0
OrdinaryIn none = Unit {0}
OrdinaryIn (some md) = Ordinary md

-- Joining two objects with none of the keys of `Object.prototype` does not throw, and appends, under every
-- key, the second one's values to the first one's.
pub metadata_join_values :
    (k : Text) (a b : Option Metadata)
    → KeysOnceIn a
    → KeysOnceIn b
    → OrdinaryIn a
    → OrdinaryIn b
    → JoinedAt k (metadata_join a b) (joined (get_in k a) (get_in k b))
unfolding metadata_join
metadata_join_values k none none p q o o' = refl
metadata_join_values k none (some b) p q o o' = clone-get k b q o'
metadata_join_values k (some a) none p q o o' = clone-get k a p o ∙ joined-none (get_key k a)
metadata_join_values k (some a) (some b) p q o o' = rw (Ordinary-is_plain a o) (
    subst (λ x. JoinedAt k (join_onto true (clone_metadata a) b) (joined x (get_key k b)))
      (clone-get k a p o) (join_onto-get k (clone_metadata a) b q o'))
