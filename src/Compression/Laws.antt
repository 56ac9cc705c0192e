-- ===== src/Compression/Laws.antt =====
-- The payloads of ts/src/util.ts and ts/src/server.ts on their way out and back in.
use grpc_dgram.Prelude.{
  ℕ, ◌+◌, ◌≡◌, ◌≤◌, ◌<◌, ◌⊎◌, subst, inl, inr, Bool, true, false, List, [], ◌∷◌, ◌++◌, Option, none,
  some, length, length-append, ltb, leb, if◌then◌else◌, arith, append_assoc, append-nil, Bool-cases,
}
use grpc_dgram.Status.{Try, Try-cases, returns, throws}
use grpc_dgram.Compression.{
  stream_compressor, raw_payload, recv_too_large, Compressor, WirePayload, Chunks, done, chunk,
  run_transform, expanded_too_large, check_send_size, check_recv_size, compress_payload,
  decompress_payload, encode_payload, decode_payload,
}

-- A transform that yields the chunks `cs` and ends.
unfoldable pub yields : List (List ℕ) → Chunks
yields [] = done
yields (c ∷ cs) = chunk c (yields cs)

unfoldable pub joined : List (List ℕ) → List ℕ
joined [] = []
joined (c ∷ cs) = c ++ joined cs

-- Reading stops at the first chunk that passes the limit: what comes out is every byte of the transform,
-- or, exactly if they are more than the limit, the error.
pub run_transform_bounded :
    (cs : List (List ℕ)) (limit : ℕ) (out : List ℕ)
    → length out ≤ limit
    → run_transform (yields cs) limit out ≡ (
        if leb (length out + length (joined cs)) limit
        then returns (out ++ joined cs)
        else throws expanded_too_large)
unfolding run_transform yields joined
run_transform_bounded [] limit out h = rw append-nil (ground arith)
run_transform_bounded (c ∷ cs) limit out h =
    let l = length-append c (joined cs) in
    let l' = length-append out c in
    let e = append_assoc out c (joined cs) in
    elim (Bool-cases (ltb limit (length out + length c))) [
      | inl over ↦ ground (arith, l)
      | inr fits ↦
          let rest = run_transform_bounded cs limit (out ++ c) (ground (arith, l')) in
          ground (arith, rest, l, l', e)
    ]

-- A payload that goes out is within the cap and no longer than the message; it is marked as compressed
-- only where it is shorter.
pub encode_payload_compact :
    (comp : Option Compressor) (max_send : ℕ) (payload : List ℕ) (enc : WirePayload)
    → encode_payload comp max_send payload ≡ returns enc
    → (length enc.bytes ≤ max_send)
      × (length enc.bytes ≤ length payload)
      × (enc.compressed ≡ true → length enc.bytes < length payload)
unfolding encode_payload compress_payload check_send_size
encode_payload_compact none max_send payload enc h = ground arith
encode_payload_compact (some comp) max_send [] enc h = ground arith
encode_payload_compact (some comp) max_send (b ∷ bs) enc h =
    elim (Try-cases (comp.compress (b ∷ bs))) [
      | inl (out, e) ↦ let h' = rw e at h in ground arith
      | inr (st, e) ↦ let h' = rw e at h in ground arith
    ]

run_transform_from_start :
    (cs : List (List ℕ)) (limit : ℕ)
    → run_transform (yields cs) limit []
      ≡ (if leb (length (joined cs)) limit then returns (joined cs) else throws expanded_too_large)
run_transform_from_start cs limit = ground (arith, run_transform_bounded cs limit [] (omega arith))

-- The platform's transforms end on the octets, and the second undoes the first.
abbrev pub Inverts : (List ℕ → Chunks) → (List ℕ → Chunks) → List ℕ → Type 0
Inverts deflate inflate bs =
    (cs : List (List ℕ)) × (ds : List (List ℕ)) × (deflate bs ≡ yields cs)
    × (inflate (joined cs) ≡ yields ds)
    × (joined ds ≡ bs)

-- What decoding comes to: the message, exactly if it is within the receive cap.
abbrev pub Capped : ℕ → List ℕ → Try (List ℕ) → Type 0
Capped max_recv payload r =
    ((length payload ≤ max_recv) × (r ≡ returns payload))
    ⊎ ((max_recv < length payload)
        × ((r ≡ throws recv_too_large) ⊎ (r ≡ throws expanded_too_large)))

-- With the code's own compressor over the platform's transforms, or with none.
abbrev pub compressor_of : Bool → (List ℕ → Chunks) → (List ℕ → Chunks) → Option Compressor
compressor_of on deflate inflate = if on then some (stream_compressor deflate inflate) else none

decode_raw-Capped :
    (comp : Option Compressor) (max_recv : ℕ) (payload : List ℕ)
    → Capped max_recv payload (decode_payload comp max_recv (raw_payload payload))
unfolding decode_payload check_recv_size
decode_raw-Capped comp max_recv payload = ground arith

module _ (deflate inflate : List ℕ → Chunks) (bs : List ℕ) (law : Inverts deflate inflate bs) where
  -- What the compressor gives out is decompressed within the limit.
  decompress_lem :
      (out : List ℕ) (max_recv : ℕ)
      → (stream_compressor deflate inflate).compress bs ≡ returns out
      → (stream_compressor deflate inflate).decompress out max_recv ≡ (
          if leb (length bs) (if ltb 0 max_recv then max_recv else 4194304)
          then returns bs
          else throws expanded_too_large)
  unfolding stream_compressor
  decompress_lem out max_recv h =
      let (cs, ds, e, e', e'') = law in
      let made = run_transform_from_start cs 9007199254740991 in
      let same : joined cs ≡ out = let h' = rw e at h in ground (arith, h', made) in
      let back : inflate out ≡ yields ds = subst (λ x. inflate x ≡ yields ds) same e' in
      let limit = if ltb 0 max_recv then max_recv else 4194304 in
      let read = run_transform_from_start ds limit in
      rw back (
        subst
          (λ x.
            run_transform (yields ds) limit []
            ≡ (if leb (length x) limit then returns x else throws expanded_too_large))
          e'' read)

  decode_compressed-Capped :
      (out : List ℕ) (max_recv : ℕ)
      → (stream_compressor deflate inflate).compress bs ≡ returns out
      → Capped max_recv bs (
          decode_payload
            (some (stream_compressor deflate inflate))
            max_recv
            (record { bytes = out; compressed = true }))
  unfolding decode_payload decompress_payload check_recv_size
  decode_compressed-Capped out max_recv h =
      let e = decompress_lem out max_recv h in rw e (ground arith)

module _ (deflate inflate : List ℕ → Chunks) where
  encoded-Capped :
      (on : Bool) (max_send max_recv : ℕ) (payload : List ℕ) (enc : WirePayload)
      → Inverts deflate inflate payload
      → encode_payload (compressor_of on deflate inflate) max_send payload ≡ returns enc
      → Capped max_recv payload (decode_payload (compressor_of on deflate inflate) max_recv enc)
  unfolding encode_payload compress_payload check_send_size
  encoded-Capped false max_send max_recv payload enc law h =
      let r = decode_raw-Capped none max_recv payload in
      let same : raw_payload payload ≡ enc = ground arith in
      subst (λ x. Capped max_recv payload (decode_payload none max_recv x)) same r
  encoded-Capped true max_send max_recv [] enc law h =
      let r = decode_raw-Capped (some (stream_compressor deflate inflate)) max_recv [] in
      let same : raw_payload [] ≡ enc = ground arith in
      subst
        (λ x.
          Capped max_recv [] (decode_payload (some (stream_compressor deflate inflate)) max_recv x))
        same r
  encoded-Capped true max_send max_recv (b ∷ bs) enc law h =
      let comp = stream_compressor deflate inflate in
      let r = decode_raw-Capped (some comp) max_recv (b ∷ bs) in
      elim (Try-cases (comp.compress (b ∷ bs))) [
        | inl (out, e) ↦
            let h' = rw e at h in
            let c = decode_compressed-Capped deflate inflate (b ∷ bs) law out max_recv e in
            elim (Bool-cases (leb (length (b ∷ bs)) (length out))) [
              | inl longer ↦
                  let same : raw_payload (b ∷ bs) ≡ enc = ground arith in
                  subst (λ x. Capped max_recv (b ∷ bs) (decode_payload (some comp) max_recv x)) same
                    r
              | inr short ↦
                  let same : record { bytes = out; compressed = true } ≡ enc = ground arith in
                  subst (λ x. Capped max_recv (b ∷ bs) (decode_payload (some comp) max_recv x)) same
                    c
            ]
        | inr (st, e) ↦ let h' = rw e at h in ground arith
      ]

-- What one side encodes, with the code's compressor over two transforms of the platform of which the
-- second undoes the first on the message, or without a compressor, the other side decodes to the same message if that
-- is within its receive cap, and refuses as too large if it is not.
pub decode_payload-encode_payload :
    (deflate inflate : List ℕ → Chunks) (on : Bool) (max_send max_recv : ℕ) (payload : List ℕ)
    (enc : WirePayload)
    → Inverts deflate inflate payload
    → encode_payload (compressor_of on deflate inflate) max_send payload ≡ returns enc
    → Capped max_recv payload (decode_payload (compressor_of on deflate inflate) max_recv enc)
decode_payload-encode_payload deflate inflate on max_send max_recv payload enc law h =
    encoded-Capped deflate inflate on max_send max_recv payload enc law h
