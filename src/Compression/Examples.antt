-- ===== src/Compression/Examples.antt =====
-- Payloads through a compressor that knows a single message.
use grpc_dgram.Prelude.{
  ℕ, ◌+◌, ◌≡◌, ◌≤◌, ◌<◌, refl, true, List, [], ◌∷◌, ◌++◌, some, length, leb, if◌then◌else◌, arith,
}
use grpc_dgram.Status.{returns, throws}
use grpc_dgram.Compression.{
  Compressor, WirePayload, run_transform, expanded_too_large, encode_payload, decode_payload,
  compress_payload, check_send_size, stream_compressor, Chunks,
}
use grpc_dgram.Compression.Laws.{
  yields, joined, run_transform_bounded, encode_payload_compact, decode_payload-encode_payload,
  Capped, compressor_of,
}

abbrev sevens : List ℕ
sevens = 7 ∷ 7 ∷ 7 ∷ []

abbrev one_word : Compressor
one_word = record { compress = λ bs. returns (1 ∷ []); decompress = λ bs n. returns sevens }

abbrev short : WirePayload
short = record { bytes = 1 ∷ []; compressed = true }

is_short : encode_payload (some one_word) 10 sevens ≡ returns short
unfolding encode_payload compress_payload check_send_size
is_short = refl

run_transform_bounded_example : run_transform (yields ((1 ∷ []) ∷ sevens ∷ [])) 3 [] ≡ (
    if leb (0 + length (joined ((1 ∷ []) ∷ sevens ∷ []))) 3
    then returns ([] ++ joined ((1 ∷ []) ∷ sevens ∷ []))
    else throws expanded_too_large)
run_transform_bounded_example = run_transform_bounded ((1 ∷ []) ∷ sevens ∷ []) 3 [] (omega arith)

encode_payload_compact_example : (1 ≤ 10) × (1 ≤ 3) × (true ≡ true → 1 < 3)
encode_payload_compact_example = encode_payload_compact (some one_word) 10 sevens short is_short

-- Two transforms that know a single message.
abbrev deflate : List ℕ → Chunks
deflate bs = yields ((1 ∷ []) ∷ [])

abbrev inflate : List ℕ → Chunks
inflate bs = yields ((7 ∷ 7 ∷ []) ∷ (7 ∷ []) ∷ [])

decode_payload-encode_payload_example :
    Capped 2 sevens (decode_payload (compressor_of true deflate inflate) 2 short)
unfolding encode_payload compress_payload check_send_size stream_compressor run_transform yields
    joined
decode_payload-encode_payload_example =
    decode_payload-encode_payload deflate inflate true 10 2 sevens short
      ((1 ∷ []) ∷ [], (7 ∷ 7 ∷ []) ∷ (7 ∷ []) ∷ [], refl, refl, refl) refl
