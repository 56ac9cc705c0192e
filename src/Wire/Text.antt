-- ===== src/Wire/Text.antt =====
-- The platform's `TextEncoder` and its strict `TextDecoder`, which the codec only calls. A JavaScript
-- string is the list of its UTF-16 code units.
use grpc_dgram.Prelude.{ℕ, ◌<◌, ◌≡◌, List, Option, some, All}

abbrev pub IsByte : ℕ → Type 0
IsByte b = b < 256

abbrev pub Text : Type 0
Text = List ℕ

-- What the codec relies on: a text that the encoder can represent (one with no lone surrogate) is
-- read back from its bytes.
pub record Utf8 : Type 1 where
  pub IsWellFormed : Text → Type 0
  pub encode : Text → List ℕ
  pub decode : List ℕ → Option Text
  pub encode-IsByte : (s : Text) → All IsByte (encode s)
  pub decode-encode : (s : Text) → IsWellFormed s → decode (encode s) ≡ some s
