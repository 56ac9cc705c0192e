-- ===== src/Metadata/Validation.antt =====
-- `validateMetadata` of ts/src/metadata.ts. Every failure is the status INTERNAL; the reason stands
-- for its message.
use grpc_dgram.Prelude.{
  ℕ, ◌≤◌, ◌≡◌, ◌≢◌, ◌↔◌, refl, Bool, true, false, ◌&&◌, ◌||◌, List, [], ◌∷◌, arith, All, leb, ltb,
  ◌==◌, if◌then◌else◌, Bool-cases, inl, inr, ◌⊎◌,
}
use grpc_dgram.Metadata.Base64
use grpc_dgram.Metadata.Base64.{decode_base64}
use grpc_dgram.Metadata.Values.{is_binary_key, encode_metadata_value, Codec}
use grpc_dgram.Wire.Text.{Text}

pub data Fault : Type 0 where
  empty_key illegal_key non_printable : Fault
  not_base64 : Base64.Error → Fault

pub data Check : Type 0 where
  valid : Check
  fault : Fault → Check

abbrev then_check : Check → Check → Check
then_check valid c = c
then_check (fault e) c = fault e

unfoldable pub is_key_char : ℕ → Bool
is_key_char c =
    (leb 0x61 c && leb c 0x7a)
    || ((leb 0x30 c && leb c 0x39) || ((c == 0x2e) || ((c == 0x2d) || (c == 0x5f))))

unfoldable pub check_key : Text → Check
check_key [] = valid
check_key (c ∷ cs) = if is_key_char c then check_key cs else fault illegal_key

abbrev checked : {A : Type 0} → Base64.Result A → Check
checked (Base64.ok a) = valid
checked (Base64.err e) = fault (not_base64 e)

unfoldable pub check_binary : List Text → Check
check_binary [] = valid
check_binary (v ∷ vs) = then_check (checked (decode_base64 v)) (check_binary vs)

unfoldable pub check_printable : Text → Check
check_printable [] = valid
check_printable (c ∷ cs) =
    if ltb c 0x20 || ltb 0x7e c then fault non_printable else check_printable cs

unfoldable pub check_texts : List Text → Check
check_texts [] = valid
check_texts (v ∷ vs) = then_check (check_printable v) (check_texts vs)

is_empty : Text → Bool
is_empty [] = true
is_empty (c ∷ cs) = false

unfoldable pub validate_metadata_pair : Text → List Text → Check
unfolding is_empty
validate_metadata_pair key values =
    if is_empty key
    then fault empty_key
    else then_check (check_key key)
        (if is_binary_key key then check_binary values else check_texts values)

unfoldable pub validate_metadata : List (Text × List Text) → Check
validate_metadata [] = valid
validate_metadata ((k, vs) ∷ md) = then_check (validate_metadata_pair k vs) (validate_metadata md)

-- What may be sent, by characters and octets.
abbrev pub IsKeyChar : ℕ → Type 0
IsKeyChar c =
    ((0x61 ≤ c) × (c ≤ 0x7a)) ⊎ ((0x30 ≤ c) × (c ≤ 0x39)) ⊎ (c ≡ 0x2e) ⊎ (c ≡ 0x2d) ⊎ (c ≡ 0x5f)

abbrev pub IsPrintable : ℕ → Type 0
IsPrintable c = (0x20 ≤ c) × (c ≤ 0x7e)

-- The value has an encoding, and if it is a text, one of printable characters only.
abbrev pub Sends : Codec → Text → Text → Type 0
Sends u key v =
    ((bytes : List ℕ) × (encode_metadata_value u key v ≡ Base64.ok bytes))
    × ((is_binary_key key ≡ true) ⊎ All IsPrintable v)

check_key-All : (k : Text) → check_key k ≡ valid → All IsKeyChar k
unfolding check_key is_key_char
check_key-All [] h = tt
check_key-All (c ∷ cs) h = ground (arith, check_key-All cs)

check_printable-All : (v : Text) → check_printable v ≡ valid → All IsPrintable v
unfolding check_printable
check_printable-All [] h = tt
check_printable-All (c ∷ cs) h = ground (arith, check_printable-All cs)

Result-ok : {A : Type 0} (r : Base64.Result A) → checked r ≡ valid → (a : A) × (r ≡ Base64.ok a)
Result-ok (Base64.ok a) h = (a, refl)
Result-ok (Base64.err e) h = cc

All-check_key : (k : Text) → All IsKeyChar k → check_key k ≡ valid
unfolding check_key is_key_char
All-check_key [] h = refl
All-check_key (c ∷ cs) h = ground (arith, All-check_key cs, h.0)

All-check_printable : (v : Text) → All IsPrintable v → check_printable v ≡ valid
unfolding check_printable
All-check_printable [] h = refl
All-check_printable (c ∷ cs) h = ground (arith, All-check_printable cs)

then_check-valid : (c d : Check) → then_check c d ≡ valid → (c ≡ valid) × (d ≡ valid)
then_check-valid valid d h = (refl, h)
then_check-valid (fault e) d h = cc

pair_nonempty :
    (key : Text) (vs : List Text)
    → key ≢ []
    → validate_metadata_pair key vs
      ≡ then_check (check_key key) (if is_binary_key key then check_binary vs else check_texts vs)
unfolding validate_metadata_pair
pair_nonempty [] vs h = absurd (h refl)
pair_nonempty (c ∷ cs) vs h = refl

pair_valid_nonempty :
    (key : Text) (vs : List Text) → validate_metadata_pair key vs ≡ valid → key ≢ []
unfolding validate_metadata_pair
pair_valid_nonempty [] vs h = λ e. absurd (ground arith)
pair_valid_nonempty (c ∷ cs) vs h = λ e. absurd (ground arith)

module _ (u : Codec) (key : Text) where
  binary_Sends :
      (vs : List Text) → is_binary_key key ≡ true → check_binary vs ≡ valid → All (Sends u key) vs
  unfolding check_binary
  binary_Sends [] b h = tt
  binary_Sends (v ∷ vs) b h =
      let (here, rest) = then_check-valid _ _ h in
      let (bytes, e) = Result-ok (decode_base64 v) here in
      (((bytes, unfold encode_metadata_value in rw b e), inl b), binary_Sends vs b rest)

  text_Sends :
      (vs : List Text) → is_binary_key key ≡ false → check_texts vs ≡ valid → All (Sends u key) vs
  unfolding check_texts
  text_Sends [] b h = tt
  text_Sends (v ∷ vs) b h =
      let (here, rest) = then_check-valid _ _ h in
      (
        (
          (u.utf8.encode v, unfold encode_metadata_value in rw b refl),
          inr (check_printable-All v here),
        ),
        text_Sends vs b rest,
      )

  Sends-binary :
      (vs : List Text) → is_binary_key key ≡ true → All (Sends u key) vs → check_binary vs ≡ valid
  unfolding check_binary
  Sends-binary [] b h = refl
  Sends-binary (v ∷ vs) b (((bytes, e), _), rest) =
      let e' : decode_base64 v ≡ Base64.ok bytes = unfold encode_metadata_value in (rw b at e) in
      rw e' (Sends-binary vs b rest)

  Sends-texts :
      (vs : List Text) → is_binary_key key ≡ false → All (Sends u key) vs → check_texts vs ≡ valid
  unfolding check_texts
  Sends-texts [] b h = refl
  Sends-texts (v ∷ vs) b ((_, inl t), rest) = cc
  Sends-texts (v ∷ vs) b ((_, inr p), rest) = rw (All-check_printable v p) (Sends-texts vs b rest)

  -- A pair passes exactly when its key is not empty and drawn from the legal characters, and each of
  -- its values has an encoding on the wire, of printable characters unless the key is binary.
  pub validate_metadata_pair-valid :
      (vs : List Text)
      → (validate_metadata_pair key vs ≡ valid)
        ↔ ((key ≢ []) × All IsKeyChar key × All (Sends u key) vs)
  validate_metadata_pair-valid vs = (sound, complete)
    where
      sound :
          validate_metadata_pair key vs ≡ valid
          → (key ≢ []) × All IsKeyChar key × All (Sends u key) vs
      sound h =
          let full = pair_valid_nonempty key vs h in
          let (k, v) = then_check-valid _ _ (rw (pair_nonempty key vs full) at h) in
          elim (Bool-cases (is_binary_key key)) [
            | inl b ↦ (full, check_key-All key k, binary_Sends vs b (rw b at v))
            | inr b ↦ (full, check_key-All key k, text_Sends vs b (rw b at v))
          ]

      complete :
          (key ≢ []) × All IsKeyChar key × All (Sends u key) vs
          → validate_metadata_pair key vs ≡ valid
      complete (full, k, v) =
          rw (pair_nonempty key vs full, All-check_key key k)
            (elim (Bool-cases (is_binary_key key)) [
              | inl b ↦ rw b (Sends-binary vs b v)
              | inr b ↦ rw b (Sends-texts vs b v)
            ])
