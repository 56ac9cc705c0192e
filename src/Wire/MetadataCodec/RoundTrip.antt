-- ===== src/Wire/MetadataCodec/RoundTrip.antt =====
-- `decodeMetadata` after `encodeMetadata`.
use grpc_dgram.Prelude.{
  ℕ, ◌≡◌, ◌≢◌, refl, sym, List, [], ◌∷◌, ◌++◌, map, arith, All, append_assoc, append-nil, length,
  Bool-cases, inl, inr, subst,
}
use grpc_dgram.Metadata.Base64
use grpc_dgram.Metadata.Values.{
  Codec, text_eq, text_eq→eq, encode_metadata_value, decode_metadata_value,
}
use grpc_dgram.Wire.Text.{Text}
use grpc_dgram.Wire.Writer
use grpc_dgram.Wire.Reader
use grpc_dgram.Wire.Reader.{Result, ok, err, ◌>>=◌}
use grpc_dgram.Wire.Varint.{bytes-bytes}
use grpc_dgram.Wire.Message.{Decodes, Decodes-nil, decode_of_Decodes}
use grpc_dgram.Wire.Nested.{Short, Fits, bytes_step, field_step}
use grpc_dgram.Wire.MetadataCodec.{
  Metadata, Entry, encode_values, encode_entry, encode_entries, entry_field, decode_entry,
  merge_entry, metadata_field, decode_metadata, add_entry,
}
use grpc_dgram.Wire.MetadataCodec.Sorted.{NewKey}

unfoldable pub value_fields : List (List ℕ) → List ℕ
value_fields [] = []
value_fields (b ∷ bs) = Writer.bytes 2 b ++ value_fields bs

module _ (u : Codec) where
  -- The octets that the values are written as, each of which is read back as its value.
  abbrev pub Octets : Text → List Text → List (List ℕ) → Type 0
  Octets key [] [] = Unit {0}
  Octets key [] (b ∷ bs) = ⊥
  Octets key (v ∷ vs) [] = ⊥
  Octets key (v ∷ vs) (b ∷ bs) =
      (encode_metadata_value u key v ≡ Base64.ok b)
      × (decode_metadata_value u key b ≡ v)
      × Short b
      × Octets key vs bs

  abbrev pub entry_bytes : Text → List (List ℕ) → List ℕ
  entry_bytes key bodies = Writer.bytes 1 (u.utf8.encode key) ++ value_fields bodies

  -- An entry whose key and values survive, and whose encoding has a length that the wire can carry.
  abbrev pub EntryFits : Text × List Text → Type 0
  EntryFits (key, vs) =
      Fits u.utf8 key
      × ((bodies : List (List ℕ)) × Octets key vs bodies × Short (entry_bytes key bodies))

  encode_values-Octets :
      (key : Text) (vs : List Text) (bodies : List (List ℕ))
      → Octets key vs bodies
      → encode_values u key vs ≡ Base64.ok (value_fields bodies)
  unfolding encode_values value_fields
  encode_values-Octets key [] [] o = refl
  encode_values-Octets key [] (b ∷ bs) o = absurd o
  encode_values-Octets key (v ∷ vs) [] o = absurd o
  encode_values-Octets key (v ∷ vs) (b ∷ bs) o = rw (o.0, encode_values-Octets key vs bs o.3)

  decode-Octets :
      (key : Text) (vs : List Text) (bodies : List (List ℕ))
      → Octets key vs bodies
      → map (decode_metadata_value u key) bodies ≡ vs
  decode-Octets key [] [] o = refl
  decode-Octets key [] (b ∷ bs) o = absurd o
  decode-Octets key (v ∷ vs) [] o = absurd o
  decode-Octets key (v ∷ vs) (b ∷ bs) o = rw (o.1, decode-Octets key vs bs o.3)

  value_step :
      (key : Text) (b : List ℕ) (raw : List (List ℕ)) (rest : List ℕ) (r : Entry)
      → Short b
      → Decodes (entry_field u) rest (record { key = key; raw = raw ++ (b ∷ []) }) r
      → Decodes (entry_field u) (Writer.bytes 2 b ++ rest) (record { key = key; raw = raw }) r
  unfolding entry_field Writer.bytes
  value_step key b raw rest r short d =
      field_step (entry_field u) 2 2 (Writer.varint (length b) ++ b) rest b _ r Reader.bytes
        (λ x. record { key = key; raw = raw ++ (x ∷ []) }) (omega arith) (omega arith) (λ _. refl)
        (bytes-bytes b rest short) d

  value_fields_back :
      (key : Text) (vs : List Text) (bodies raw : List (List ℕ))
      → Octets key vs bodies
      → Decodes
          (entry_field u)
          (value_fields bodies)
          (record { key = key; raw = raw })
          (record { key = key; raw = raw ++ bodies })
  unfolding value_fields
  value_fields_back key [] [] raw o = rw append-nil (Decodes-nil (entry_field u) _)
  value_fields_back key [] (b ∷ bs) raw o = absurd o
  value_fields_back key (v ∷ vs) [] raw o = absurd o
  value_fields_back key (v ∷ vs) (b ∷ bs) raw o =
      let regroup : (raw ++ (b ∷ [])) ++ bs ≡ raw ++ (b ∷ bs) = append_assoc raw (b ∷ []) bs in
      let later : Decodes (entry_field u) (value_fields bs)
          (record { key = key; raw = raw ++ (b ∷ []) })
          (record { key = key; raw = raw ++ (b ∷ bs) }) =
        subst
          (λ x.
            Decodes (entry_field u) (value_fields bs) (record { key = key; raw = raw ++ (b ∷ []) })
              (record { key = key; raw = x }))
          regroup (value_fields_back key vs bs (raw ++ (b ∷ [])) o.3) in
      value_step key b raw (value_fields bs) _ o.2 later

  decode_entry_bytes :
      (key : Text) (vs : List Text) (bodies : List (List ℕ))
      → Fits u.utf8 key
      → Octets key vs bodies
      → decode_entry u (entry_bytes key bodies) ≡ ok (record { key = key; raw = bodies })
  unfolding decode_entry
  decode_entry_bytes key vs bodies fit o = decode_of_Decodes (entry_field u) _ _ _ (
      unfold entry_field Writer.bytes Reader.string in
      field_step (entry_field u) 1 2 (Writer.varint (length raw) ++ raw) (value_fields bodies) key _
        _ (Reader.string u.utf8) (λ x. record { key = x; raw = [] }) (omega arith) (omega arith)
        (λ _. refl)
        (rw (bytes-bytes raw (value_fields bodies) fit.1, u.utf8.decode-encode key fit.0))
        (value_fields_back key vs bodies [] o))
    where
      raw : List ℕ
      raw = u.utf8.encode key

  -- The keys that are there already are other keys.
  merge_new :
      (key : Text) (vals : List Text) (md : Metadata)
      → NewKey key md
      → merge_entry key vals md ≡ md ++ ((key, vals) ∷ [])
  unfolding merge_entry
  merge_new key vals [] n = refl
  merge_new key vals ((j, ws) ∷ md) n = elim (Bool-cases (text_eq j key)) [
    | inl e ↦ absurd (n.0 (text_eq→eq j key e))
    | inr e ↦ rw (e, merge_new key vals md n.1)
  ]

  abbrev pub KeysDiffer : Metadata → Type 0
  KeysDiffer [] = Unit {0}
  KeysDiffer ((k, vs) ∷ md) = NewKey k md × KeysDiffer md

  abbrev pub entries_bytes : (md : Metadata) → All EntryFits md → List ℕ
  entries_bytes [] f = []
  entries_bytes ((k, vs) ∷ md) f = Writer.bytes 1 (entry_bytes k f.0.1.0) ++ entries_bytes md f.1

  encode_entries_bytes :
      (md : Metadata) (f : All EntryFits md) → encode_entries u md ≡ Base64.ok (entries_bytes md f)
  unfolding encode_entries encode_entry
  encode_entries_bytes [] f = refl
  encode_entries_bytes ((k, vs) ∷ md) f =
      rw (encode_values-Octets k vs f.0.1.0 f.0.1.1, encode_entries_bytes md f.1)

  NewKey-append :
      (k : Text) (vs : List Text) (acc md : Metadata)
      → KeysDiffer (acc ++ (k, vs) ∷ md)
      → NewKey k acc
  NewKey-append k vs [] md d = tt
  NewKey-append k vs ((j, ws) ∷ acc) md d = (first acc d.0, NewKey-append k vs acc md d.1)
    where
      first : (acc : Metadata) → NewKey j (acc ++ (k, vs) ∷ md) → j ≢ k
      first [] n = λ e. n.0 (sym e)
      first (x ∷ acc) n = first acc n.1

  entry_step :
      (k : Text) (vs : List Text) (fit : EntryFits (k, vs)) (acc : Metadata) (rest : List ℕ)
      (r : Metadata)
      → NewKey k acc
      → Decodes (metadata_field u) rest (acc ++ ((k, vs) ∷ [])) r
      → Decodes (metadata_field u) (Writer.bytes 1 (entry_bytes k fit.1.0) ++ rest) acc r
  unfolding metadata_field
  entry_step k vs fit acc rest r n d =
      let (bodies, o, short) = fit.1 in
      let merged : add_entry u acc (record { key = k; raw = bodies }) ≡ acc ++ ((k, vs) ∷ []) =
        rw (decode-Octets k vs bodies o) (merge_new k vs acc n) in
      bytes_step (metadata_field u) 1 (entry_bytes k bodies) rest (record { key = k; raw = bodies })
        acc r (decode_entry u) (add_entry u acc) (omega arith) short (λ _. refl)
        (decode_entry_bytes k vs bodies fit.0 o)
        (subst (λ x. Decodes (metadata_field u) rest x r) (sym merged) d)

  entries_back :
      (md : Metadata) (f : All EntryFits md) (acc : Metadata)
      → KeysDiffer (acc ++ md)
      → Decodes (metadata_field u) (entries_bytes md f) acc (acc ++ md)
  entries_back [] f acc k = rw append-nil (Decodes-nil (metadata_field u) acc)
  entries_back ((k, vs) ∷ md) f acc d =
      let regroup : (acc ++ ((k, vs) ∷ [])) ++ md ≡ acc ++ ((k, vs) ∷ md) =
        append_assoc acc ((k, vs) ∷ []) md in
      entry_step k vs f.0 acc (entries_bytes md f.1) (acc ++ ((k, vs) ∷ md))
        (NewKey-append k vs acc md d)
        (subst (Decodes (metadata_field u) (entries_bytes md f.1) (acc ++ ((k, vs) ∷ []))) regroup
          (entries_back md f.1 (acc ++ ((k, vs) ∷ [])) (subst KeysDiffer (sym regroup) d)))

  -- Entries that the wire can carry are read back in the order in which they were written.
  pub decode-encode_entries :
      (md : Metadata) (f : All EntryFits md)
      → KeysDiffer md
      → (encode_entries u md ≡ Base64.ok (entries_bytes md f))
        × (decode_metadata u (entries_bytes md f) ≡ ok md)
  unfolding decode_metadata
  decode-encode_entries md f d = (
    encode_entries_bytes md f,
    decode_of_Decodes (metadata_field u) _ [] md (entries_back md f [] d),
  )
