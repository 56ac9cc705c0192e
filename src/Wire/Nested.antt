-- ===== src/Wire/Nested.antt =====
-- Fields that `Writer` and `Reader` of ts/src/wire.ts handle alike in every message: texts, nested
-- messages and fields that are left out at their default.
use grpc_dgram.Prelude.{
  ℕ, ◌<◌, ◌≡◌, ap, ◌∙◌, Bool, true, false, List, [], ◌∷◌, ◌++◌, Option, none, some, arith, length,
  IsU32, u32_mod, ◌%◌, ==_iff, subst, ◌==◌, if◌then◌else◌, Bool-cases, inl, inr,
}
use grpc_dgram.Wire.Text.{Text, Utf8}
use grpc_dgram.Wire.Writer
use grpc_dgram.Wire.Reader
use grpc_dgram.Wire.Reader.{Result, ok, err, ◌>>=◌}
use grpc_dgram.Wire.Varint.{bytes-bytes, fixed32-le32, varint32-varint, le32}
use grpc_dgram.Wire.Message.{Handler, Decodes, Decodes-field}

abbrev pub Short : List ℕ → Type 0
Short bs = IsU32 (length bs)

-- A text that is written and read back as it is.
abbrev pub Fits : Utf8 → Text → Type 0
Fits u s = u.IsWellFormed s × Short (u.encode s)

abbrev pub is_empty {ℓ} : {A : Type ℓ} → List A → Bool
is_empty [] = true
is_empty (x ∷ xs) = false

unfoldable pub fixed_field : ℕ → ℕ → List ℕ
fixed_field field v = if v == 0 then [] else Writer.fixed32 field v

unfoldable pub varint_field : ℕ → ℕ → List ℕ
varint_field field v = if v == 0 then [] else Writer.tag field 0 ++ Writer.varint v

unfoldable pub text_field : Utf8 → ℕ → Text → List ℕ
text_field u field s = if is_empty s then [] else Writer.bytes field (u.encode s)

unfoldable pub optional_bytes : ℕ → Option (List ℕ) → List ℕ
optional_bytes field none = []
optional_bytes field (some b) = Writer.bytes field b

unfoldable pub optional_varint : ℕ → Option ℕ → List ℕ
optional_varint field none = []
optional_varint field (some v) = Writer.tag field 0 ++ Writer.varint v

-- `decode(r.bytes())`
unfoldable pub nested : {A : Type 0} → (List ℕ → Result A) → List ℕ → Result (A × List ℕ)
nested decode bs = do (raw, rest) ← Reader.bytes bs; v ← decode raw; ok (v, rest)

-- The value that `read` returns is put into the message by `put`.
abbrev pub Puts :
    {S A : Type 0} → Handler S → ℕ → ℕ → S → (List ℕ → Result (A × List ℕ)) → (A → S) → Type 0
Puts handle field wire s read put =
    (bs : List ℕ) → handle field wire bs s ≡ (read bs >>= λ p. ok (put p.0, p.1))

abbrev pub HoldsU32 : Option ℕ → Type 0
HoldsU32 none = Unit {0}
HoldsU32 (some v) = IsU32 v

abbrev pub ReadsBack : {A : Type 0} → (List ℕ → Result A) → Option A → Option (List ℕ) → Type 0
ReadsBack read none none = Unit {0}
ReadsBack read none (some b) = ⊥
ReadsBack read (some v) none = ⊥
ReadsBack read (some v) (some b) = Short b × (read b ≡ ok v)

module _ {S : Type 0} (handle : Handler S) where
  -- A field whose body `read` reads back as `v`.
  pub field_step :
      {A : Type 0} (field wire : ℕ) (body rest : List ℕ) (v : A) (s r : S)
      (read : List ℕ → Result (A × List ℕ)) (put : A → S)
      → field < 1000
      → wire < 8
      → Puts handle field wire s read put
      → read (body ++ rest) ≡ ok (v, rest)
      → Decodes handle rest (put v) r
      → Decodes handle ((Writer.tag field wire ++ body) ++ rest) s r
  field_step field wire body rest v s r read put hf hw puts e d =
      Decodes-field handle field wire body rest s (put v) r hf hw (puts (body ++ rest) ∙ rw e) d

  pub bytes_step :
      {A : Type 0} (field : ℕ) (body rest : List ℕ) (v : A) (s r : S) (read : List ℕ → Result A)
      (put : A → S)
      → field < 1000
      → Short body
      → Puts handle field 2 s (nested read) put
      → read body ≡ ok v
      → Decodes handle rest (put v) r
      → Decodes handle (Writer.bytes field body ++ rest) s r
  unfolding nested Writer.bytes
  bytes_step field body rest v s r read put hf short puts e d =
      field_step field 2 (Writer.varint (length body) ++ body) rest v s r (nested read) put hf
        (omega arith) puts (rw (bytes-bytes body rest short, e)) d

  at_default :
      {A : Type 0} (v w : A) (rest : List ℕ) (s r : S) (put : A → S)
      → v ≡ w
      → put w ≡ s
      → Decodes handle rest (put v) r
      → Decodes handle rest s r
  at_default v w rest s r put e f d = subst (λ x. Decodes handle rest x r) (ap put e ∙ f) d

  pub fixed_step :
      (field v : ℕ) (rest : List ℕ) (s r : S) (put : ℕ → S)
      → field < 1000
      → IsU32 v
      → put 0 ≡ s
      → Puts handle field 5 s Reader.fixed32 put
      → Decodes handle rest (put v) r
      → Decodes handle (fixed_field field v ++ rest) s r
  unfolding fixed_field Writer.fixed32
  fixed_step field v rest s r put hf hv zeroed puts d = elim (Bool-cases (v == 0)) [
    | inl e ↦ rw e (at_default v 0 rest s r put ((==_iff v 0).0 e) zeroed d)
    | inr e ↦
        let whole : v % u32_mod ≡ v = omega arith in
        rw (e, whole)
          (field_step field 5 (le32 v) rest v s r Reader.fixed32 put hf (omega arith) puts
            (fixed32-le32 v rest hv) d)
  ]

  pub varint_step :
      (field v : ℕ) (rest : List ℕ) (s r : S) (put : ℕ → S)
      → field < 1000
      → IsU32 v
      → put 0 ≡ s
      → Puts handle field 0 s Reader.varint32 put
      → Decodes handle rest (put v) r
      → Decodes handle (varint_field field v ++ rest) s r
  unfolding varint_field
  varint_step field v rest s r put hf hv zeroed puts d = elim (Bool-cases (v == 0)) [
    | inl e ↦ rw e (at_default v 0 rest s r put ((==_iff v 0).0 e) zeroed d)
    | inr e ↦ rw e (
        field_step field 0 (Writer.varint v) rest v s r Reader.varint32 put hf (omega arith) puts
          (varint32-varint v rest hv) d)
  ]

  pub optional_varint_step :
      (field : ℕ) (o : Option ℕ) (rest : List ℕ) (s r : S) (put : Option ℕ → S)
      → field < 1000
      → HoldsU32 o
      → put none ≡ s
      → Puts handle field 0 s Reader.varint32 (λ v. put (some v))
      → Decodes handle rest (put o) r
      → Decodes handle (optional_varint field o ++ rest) s r
  unfolding optional_varint
  optional_varint_step field none rest s r put hf hv zeroed puts d =
      subst (λ x. Decodes handle rest x r) zeroed d
  optional_varint_step field (some v) rest s r put hf hv zeroed puts d =
      field_step field 0 (Writer.varint v) rest v s r Reader.varint32 (λ v. put (some v)) hf
        (omega arith) puts (varint32-varint v rest hv) d

  -- An absent value writes nothing; a present one is the body of a field.
  pub optional_step :
      {A : Type 0} (field : ℕ) (o : Option A) (body : Option (List ℕ)) (rest : List ℕ) (s r : S)
      (read : List ℕ → Result A) (put : Option A → S)
      → field < 1000
      → ReadsBack read o body
      → put none ≡ s
      → Puts handle field 2 s (nested read) (λ v. put (some v))
      → Decodes handle rest (put o) r
      → Decodes handle (optional_bytes field body ++ rest) s r
  unfolding optional_bytes
  optional_step field none none rest s r read put hf b zeroed puts d =
      subst (λ x. Decodes handle rest x r) zeroed d
  optional_step field none (some body) rest s r read put hf b zeroed puts d = absurd b
  optional_step field (some v) none rest s r read put hf b zeroed puts d = absurd b
  optional_step field (some v) (some body) rest s r read put hf b zeroed puts d =
      bytes_step field body rest v s r read (λ v. put (some v)) hf b.0 puts b.1 d

  pub text_step :
      (u : Utf8) (field : ℕ) (t : Text) (rest : List ℕ) (s r : S) (put : Text → S)
      → field < 1000
      → Fits u t
      → put [] ≡ s
      → Puts handle field 2 s (Reader.string u) put
      → Decodes handle rest (put t) r
      → Decodes handle (text_field u field t ++ rest) s r
  unfolding text_field Writer.bytes Reader.string
  text_step u field [] rest s r put hf ft zeroed puts d =
      subst (λ x. Decodes handle rest x r) zeroed d
  text_step u field (c ∷ t) rest s r put hf ft zeroed puts d =
      let raw = u.encode (c ∷ t) in
      field_step field 2 (Writer.varint (length raw) ++ raw) rest (c ∷ t) s r (Reader.string u) put
        hf (omega arith) puts (rw (bytes-bytes raw rest ft.1, u.decode-encode (c ∷ t) ft.0)) d
