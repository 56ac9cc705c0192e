-- ===== src/Compression.antt =====
-- Message compression and the size caps, at the end of ts/src/util.ts, with `encodePayload` and
-- `decodeMessage` of ts/src/server.ts. A promise that is rejected is a `throws`; the sizes that the
-- code puts into its texts are left off.
pub mod Laws
mod Examples
use grpc_dgram.Prelude.{
  ℕ, ◌+◌, ◌≡◌, ◌≤◌, Bool, true, false, List, [], ◌∷◌, ◌++◌, Option, none, some, length, ltb, leb,
  if◌then◌else◌,
}
use grpc_dgram.Status.{Status, Try, returns, throws}
use grpc_dgram.Status.Code
use grpc_dgram.Metadata.Base64.{codes}

abbrev pub default_max_recv_msg_size : ℕ
default_max_recv_msg_size = 4194304

abbrev pub default_max_send_msg_size : ℕ
default_max_send_msg_size = 2147483647

unfoldable pub size_or : Option ℕ → ℕ → ℕ
size_or none def = def
size_or (some v) def = v

abbrev send_too_large : Status
send_too_large = record {
  code = Code.resource_exhausted;
  desc = codes "drpc: trying to send message larger than max";
}

abbrev pub recv_too_large : Status
recv_too_large = record {
  code = Code.resource_exhausted;
  desc = codes "drpc: received message larger than max";
}

abbrev pub expanded_too_large : Status
expanded_too_large = record {
  code = Code.resource_exhausted;
  desc = codes "drpc: received message after decompression larger than max";
}

abbrev no_compressor : Status
no_compressor = record {
  code = Code.internal;
  desc = codes "drpc: frame is compressed but the call has no compressor";
}

-- `checkSendSize` and `checkRecvSize`: the error that is thrown, if any.
unfoldable pub check_send_size : ℕ → ℕ → Option Status
check_send_size n limit = if ltb limit n then some send_too_large else none

unfoldable pub check_recv_size : ℕ → ℕ → Option Status
check_recv_size n limit = if ltb limit n then some recv_too_large else none

pub record Compressor : Type 0 where
  pub compress : List ℕ → Try (List ℕ)
  pub decompress : List ℕ → ℕ → Try (List ℕ)

pub record WirePayload : Type 0 where
  pub bytes : List ℕ
  pub compressed : Bool

abbrev pub raw_payload : List ℕ → WirePayload
raw_payload bytes = record { bytes = bytes; compressed = false }

-- The loop of `runTransform` over the chunks that the platform's transform yields: an error of the
-- transform ends them. `total` is what is collected so far, `out`.
pub data Chunks : Type 0 where
  done : Chunks
  broken : Status → Chunks
  chunk : List ℕ → Chunks → Chunks

unfoldable pub run_transform : Chunks → ℕ → List ℕ → Try (List ℕ)
run_transform done limit out = returns out
run_transform (broken st) limit out = throws st
run_transform (chunk value cs) limit out =
    let rest = run_transform cs limit (out ++ value) in
    if ltb limit (length out + length value) then throws expanded_too_large else rest

abbrev max_safe_integer : ℕ
max_safe_integer = 9007199254740991

-- `StreamCompressor` over the platform's two transforms.
unfoldable pub stream_compressor : (List ℕ → Chunks) → (List ℕ → Chunks) → Compressor
stream_compressor deflate inflate = record {
  compress = λ data_. run_transform (deflate data_) max_safe_integer [];
  decompress = λ data_ max_recv.
      run_transform (inflate data_) (if ltb 0 max_recv then max_recv else default_max_recv_msg_size)
        [];
}

shorter : List ℕ → Try (List ℕ) → Try WirePayload
shorter payload (throws st) = throws st
shorter payload (returns out) =
    if leb (length payload) (length out)
    then returns (raw_payload payload)
    else returns (record { bytes = out; compressed = true })

unfoldable pub compress_payload : Compressor → List ℕ → Try WirePayload
unfolding shorter
compress_payload comp [] = returns (raw_payload [])
compress_payload comp (b ∷ bs) = shorter (b ∷ bs) (comp.compress (b ∷ bs))

unfoldable pub decompress_payload : Option Compressor → List ℕ → ℕ → Try (List ℕ)
decompress_payload none payload max_recv = throws no_compressor
decompress_payload (some comp) payload max_recv = comp.decompress payload max_recv

capped : ℕ → Try WirePayload → Try WirePayload
capped max_send (throws st) = throws st
capped max_send (returns enc) = elim (check_send_size (length enc.bytes) max_send) [
  | none ↦ returns enc
  | some st ↦ throws st
]

unfoldable pub encode_payload : Option Compressor → ℕ → List ℕ → Try WirePayload
unfolding capped
encode_payload none max_send payload = capped max_send (returns (raw_payload payload))
encode_payload (some comp) max_send payload = capped max_send (compress_payload comp payload)

received : ℕ → Try (List ℕ) → Try (List ℕ)
received max_recv (throws st) = throws st
received max_recv (returns payload) = elim (check_recv_size (length payload) max_recv) [
  | none ↦ returns payload
  | some st ↦ throws st
]

-- `decodeMessage` up to the codec's `unmarshal`.
unfoldable pub decode_payload : Option Compressor → ℕ → WirePayload → Try (List ℕ)
unfolding received
decode_payload comp max_recv enc =
    received max_recv
      (if enc.compressed then decompress_payload comp enc.bytes max_recv else returns enc.bytes)
