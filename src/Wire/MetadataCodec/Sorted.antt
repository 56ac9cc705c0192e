-- ===== src/Wire/MetadataCodec/Sorted.antt =====
-- The order in which ts/src/wire.ts writes the keys of a metadata object.
use grpc_dgram.Prelude.{
  ℕ, ◌<◌, ◌≡◌, ◌≢◌, refl, sym, true, false, ◌⊎◌, inl, inr, List, [], ◌∷◌, ◌++◌, ◌==◌, arith,
  Bool-cases,
}
use mathlib.Core.List.{Perm}
use mathlib.Core.List.Perm
use grpc_dgram.Wire.Text.{Text}
use grpc_dgram.Wire.MetadataCodec.{Metadata, text_lt, insert_entry, sort_entries}

-- The first text is a proper prefix of the second, or it has the lower code unit where they part.
abbrev pub Precedes : Text → Text → Type 0
Precedes a b =
    ((c : ℕ) × (cs : Text) × (b ≡ a ++ (c ∷ cs)))
    ⊎ ((p : Text) × (c : ℕ) × (d : ℕ) × (cs : Text) × (ds : Text) × (c < d)
        × (a ≡ p ++ (c ∷ cs))
        × (b ≡ p ++ (d ∷ ds)))

Precedes-cons : (x : ℕ) (a b : Text) → Precedes a b → Precedes (x ∷ a) (x ∷ b)
Precedes-cons x a b (inl (c, cs, e)) = inl (c, cs, rw e refl)
Precedes-cons x a b (inr (p, c, d, cs, ds, h, e, e')) =
    inr (x ∷ p, c, d, cs, ds, h, rw e refl, rw e' refl)

text_lt-Precedes : (a b : Text) → text_lt a b ≡ true → Precedes a b
unfolding text_lt
text_lt-Precedes [] [] h = absurd (ground arith)
text_lt-Precedes [] (d ∷ ds) h = inl (d, ds, refl)
text_lt-Precedes (c ∷ cs) [] h = absurd (ground arith)
text_lt-Precedes (c ∷ cs) (d ∷ ds) h = elim (Bool-cases (c == d)) [
  | inl e ↦
      let same : c ≡ d = ground (arith, e) in
      rw same (Precedes-cons d cs ds (text_lt-Precedes cs ds (rw e at h)))
  | inr e ↦ inr ([], c, d, cs, ds, (let h' = rw e at h in ground (arith, h')), refl, refl)
]

-- Of two different texts the one precedes the other.
not_text_lt-Precedes : (a b : Text) → text_lt a b ≡ false → a ≢ b → Precedes b a
unfolding text_lt
not_text_lt-Precedes [] [] h n = absurd (n refl)
not_text_lt-Precedes [] (d ∷ ds) h n = absurd (ground arith)
not_text_lt-Precedes (c ∷ cs) [] h n = inl (c, cs, refl)
not_text_lt-Precedes (c ∷ cs) (d ∷ ds) h n = elim (Bool-cases (c == d)) [
  | inl e ↦
      let same : c ≡ d = ground (arith, e) in
      let rest = not_text_lt-Precedes cs ds (rw e at h) (λ t. n (rw (same, t) refl)) in
      rw same (Precedes-cons d ds cs rest)
  | inr e ↦ inr ([], d, c, ds, cs, (let h' = rw e at h in ground (arith, h', e)), refl, refl)
]

-- Each key precedes the next.
abbrev pub Ascending : Metadata → Type 0
Ascending [] = Unit {0}
Ascending ((k, vs) ∷ []) = Unit {0}
Ascending ((k, vs) ∷ ((j, ws) ∷ md)) = Precedes k j × Ascending ((j, ws) ∷ md)

abbrev pub NewKey : Text → Metadata → Type 0
NewKey k [] = Unit {0}
NewKey k ((j, ws) ∷ md) = (j ≢ k) × NewKey k md

pub insert-Ascending :
    (k : Text) (vs : List Text) (md : Metadata)
    → NewKey k md
    → Ascending md
    → Ascending (insert_entry (k, vs) md)
unfolding insert_entry
insert-Ascending k vs [] n a = tt
insert-Ascending k vs ((j, ws) ∷ []) n a = elim (Bool-cases (text_lt k j)) [
  | inl e ↦ rw e (text_lt-Precedes k j e, tt)
  | inr e ↦ rw e (not_text_lt-Precedes k j e (λ s. n.0 (sym s)), tt)
]
insert-Ascending k vs ((j, ws) ∷ ((i, us) ∷ md)) n a = elim (Bool-cases (text_lt k j)) [
  | inl e ↦ rw e (text_lt-Precedes k j e, a)
  | inr e ↦
      let below = not_text_lt-Precedes k j e (λ s. n.0 (sym s)) in
      let rest = insert-Ascending k vs ((i, us) ∷ md) n.1 a.1 in
      elim (Bool-cases (text_lt k i)) [
        | inl e' ↦ rw (e, e') (below, rw e' at rest)
        | inr e' ↦ rw (e, e') (a.0, rw e' at rest)
      ]
]

insert-perm : (e : Text × List Text) (md : Metadata) → Perm (insert_entry e md) (e ∷ md)
unfolding insert_entry
insert-perm (k, vs) [] = Perm.rfl
insert-perm (k, vs) ((j, ws) ∷ md) = elim (Bool-cases (text_lt k j)) [
  | inl e ↦ rw e Perm.rfl
  | inr e ↦
      rw e (Perm.trans (Perm.cons (j, ws) (insert-perm (k, vs) md)) (Perm.swap (k, vs) (j, ws) md))
]

-- Sorting keeps every entry.
pub sort_entries-perm : (md : Metadata) → Perm (sort_entries md) md
unfolding sort_entries
sort_entries-perm [] = Perm.rfl
sort_entries-perm (e ∷ md) =
    Perm.trans (insert-perm e (sort_entries md)) (Perm.cons e (sort_entries-perm md))
