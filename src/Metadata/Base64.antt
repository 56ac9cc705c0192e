-- ===== src/Metadata/Base64.antt =====
-- The hand-written base64 of ts/src/metadata.ts. A text is the list of its character codes. A shift
-- is a product or a quotient by a power of 2, and `|` joins disjoint groups of bits, as a sum.
pub mod RoundTrip
use Prim.Native.Char.{code}
use Prim.Native.String.{String}
use grpc_dgram.Prelude.{
  ℕ, zero, suc, ◌+◌, ◌*◌, ◌/◌, ◌%◌, ◌≤◌, ◌<◌, ◌≡◌, Bool, true, false, not, ◌&&◌, ◌||◌, List, [],
  ◌∷◌, ◌++◌, Option, none, some, length, ltb, ◌==◌, if◌then◌else◌,
}

abbrev pub codes : String → List ℕ
codes String.[] = []
codes (String.◌∷◌ c s) = code c ∷ codes s

abbrev pub b64_chars : List ℕ
b64_chars = codes "ABCDEFGHIJKLMNOPQRSTUVWXYZabcdefghijklmnopqrstuvwxyz0123456789+/"

char_at : List ℕ → ℕ → ℕ
char_at [] i = 0
char_at (c ∷ cs) zero = c
char_at (c ∷ cs) (suc i) = char_at cs i

-- `B64_CHARS[i]`
unfoldable pub char_of : ℕ → ℕ
unfolding char_at
char_of i = char_at b64_chars i

index_of : List ℕ → ℕ → ℕ → Option ℕ
index_of [] i c = none
index_of (d ∷ ds) i c = if d == c then some i else index_of ds (i + 1) c

-- `B64_VALUES[c]`, absent where the table holds -1 or ends.
unfoldable pub value_of : ℕ → Option ℕ
unfolding index_of
value_of c = index_of b64_chars 0 c

unfoldable pub encode_base64 : List ℕ → List ℕ
encode_base64 (a ∷ b ∷ c ∷ rest) =
    let n = a * 65536 + b * 256 + c in
    char_of (n / 262144 % 64)
    ∷ char_of (n / 4096 % 64)
    ∷ char_of (n / 64 % 64)
    ∷ char_of (n % 64)
    ∷ encode_base64 rest
encode_base64 (a ∷ b ∷ []) =
    let n = a * 65536 + b * 256 in
    char_of (n / 262144 % 64) ∷ char_of (n / 4096 % 64) ∷ char_of (n / 64 % 64) ∷ b'=' ∷ []
encode_base64 (a ∷ []) =
    let n = a * 65536 in char_of (n / 262144 % 64) ∷ char_of (n / 4096 % 64) ∷ b'=' ∷ b'=' ∷ []
encode_base64 [] = []

pub data Error : Type 0 where
  bad_padding truncated_group : Error
  illegal_character : ℕ → Error

pub data Result {ℓ} (A : Type ℓ) : Type ℓ where
  ok : A → Result A
  err : Error → Result A

infixl 5 ◌>>=◌
abbrev pub ◌>>=◌ {ℓ κ} : {A : Type ℓ} {B : Type κ} → Result A → (A → Result B) → Result B
ok a >>= f = f a
err e >>= f = err e

is_nil : List ℕ → Bool
is_nil [] = true
is_nil (c ∷ cs) = false

-- The text without the `=` at its end, and how many those are.
unfoldable pub strip : List ℕ → List ℕ × ℕ
unfolding is_nil
strip [] = ([], 0)
strip (c ∷ cs) =
    let (body, pad) = strip cs in
    if is_nil body && (c == b'=') then ([], pad + 1) else (c ∷ body, pad)

or_illegal : ℕ → Option ℕ → Result ℕ
or_illegal c none = err (illegal_character c)
or_illegal c (some v) = ok v

unfoldable pub six : ℕ → Result ℕ
unfolding or_illegal
six c = or_illegal c (value_of c)

-- The last group may be of two or three characters; one alone was refused before.
unfoldable pub groups : List ℕ → Result (List ℕ)
groups [] = ok []
groups (a ∷ []) = err truncated_group
groups (a ∷ b ∷ []) = do x ← six a; y ← six b; ok ((x * 4 + y / 16) % 256 ∷ [])
groups (a ∷ b ∷ c ∷ []) = do
  x ← six a
  y ← six b
  z ← six c
  let n = x * 4096 + y * 64 + z
  ok (n / 1024 % 256 ∷ (n / 4 % 256 ∷ []))
groups (a ∷ b ∷ c ∷ d ∷ rest) = do
  x ← six a
  y ← six b
  z ← six c
  w ← six d
  let n = x * 262144 + y * 4096 + z * 64 + w
  out ← groups rest
  ok (n / 65536 % 256 ∷ (n / 256 % 256 ∷ (n % 256 ∷ out)))

unfoldable pub decode_base64 : List ℕ → Result (List ℕ)
decode_base64 s =
    let (body, pad) = strip s in
    if ltb 2 pad || (ltb 0 pad && not (length s % 4 == 0))
    then err bad_padding
    else if length body % 4 == 1
    then err truncated_group
    else groups body
