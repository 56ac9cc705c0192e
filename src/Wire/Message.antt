-- ===== src/Wire/Message.antt =====
-- The loop that every decoder of ts/src/wire.ts runs: `while (!r.eof)` it reads a tag and handles the
-- field. `handle` is the body of the loop: field number, wire type, input, message.
use grpc_dgram.Prelude.{
  ℕ, zero, suc, ◌+◌, ◌*◌, ◌/◌, ◌%◌, ◌≤◌, ◌<◌, ◌≡◌, refl, ◌∙◌, List, [], ◌∷◌, ◌++◌, arith, length,
  length-append, append_assoc, ◌==◌, if◌then◌else◌,
}
use grpc_dgram.Wire.Reader.{Result, ok, err, stuck, varint32, skip, ◌>>=◌}
use grpc_dgram.Wire.Writer
use grpc_dgram.Wire.Varint.{varint32-tag, tag_nonempty}

abbrev pub Handler : Type 0 → Type 0
Handler S = ℕ → ℕ → List ℕ → S → Result (S × List ℕ)

-- `if (wire !== want) r.skip(wire) else put(read())`
unfoldable pub expect :
    {S A : Type 0}
    → ℕ
    → ℕ
    → (List ℕ → Result (A × List ℕ))
    → (A → S)
    → S
    → List ℕ
    → Result (S × List ℕ)
expect want wire read put s bs =
    if wire == want
    then (do (v, rest) ← read bs; ok (put v, rest))
    else (do rest ← skip wire bs; ok (s, rest))

unfoldable pub ignore : {S : Type 0} → ℕ → S → List ℕ → Result (S × List ℕ)
ignore wire s bs = do rest ← skip wire bs; ok (s, rest)

module _ {S : Type 0} (handle : Handler S) where
  unfoldable pub message_loop : ℕ → List ℕ → S → Result S
  message_loop fuel [] s = ok s
  message_loop zero (b ∷ bs) s = err stuck
  message_loop (suc fuel) (b ∷ bs) s = do
    (tag, body) ← varint32 (b ∷ bs)
    (s', rest) ← handle (tag / 8) (tag % 8) body s
    message_loop fuel rest s'

  -- Each round takes at least the tag's byte.
  unfoldable pub decode : List ℕ → S → Result S
  decode bs s = message_loop (length bs) bs s

  -- The input `bs` takes the message `s` to `r`, whatever fuel it is given over its length.
  abbrev pub Decodes : List ℕ → S → S → Type 0
  Decodes bs s r = (fuel : ℕ) → length bs ≤ fuel → message_loop fuel bs s ≡ ok r

  pub Decodes-nil : (s : S) → Decodes [] s s
  unfolding message_loop
  Decodes-nil s fuel h = refl

  pub decode_of_Decodes : (bs : List ℕ) (s r : S) → Decodes bs s r → decode bs s ≡ ok r
  unfolding decode
  decode_of_Decodes bs s r d = d (length bs) (omega arith)

  message_loop_round :
      (fuel : ℕ) (bs : List ℕ) (s : S)
      → 1 ≤ length bs
      → message_loop (suc fuel) bs s ≡ (
          varint32 bs >>= λ (t : ℕ × List ℕ).
          handle (t.0 / 8) (t.0 % 8) t.1 s >>= λ (p : S × List ℕ). message_loop fuel p.1 p.0)
  unfolding message_loop
  message_loop_round fuel [] s h = absurd (omega arith)
  message_loop_round fuel (b ∷ bs) s h = refl

  sizes :
      (field wire : ℕ) (body rest : List ℕ)
      → length ((Writer.tag field wire ++ body) ++ rest)
        ≡ length (Writer.tag field wire) + length body + length rest
  sizes field wire body rest = omega (
    arith,
    length-append (Writer.tag field wire ++ body) rest,
    length-append (Writer.tag field wire) body,
  )

  -- One field in front of the rest of the message.
  pub Decodes-field :
      (field wire : ℕ) (body rest : List ℕ) (s s' r : S)
      → field < 1000
      → wire < 8
      → handle field wire (body ++ rest) s ≡ ok (s', rest)
      → Decodes rest s' r
      → Decodes ((Writer.tag field wire ++ body) ++ rest) s r
  Decodes-field field wire body rest s s' r hf hw e d zero h =
      absurd (omega (arith, sizes field wire body rest, tag_nonempty field wire))
  Decodes-field field wire body rest s s' r hf hw e d (suc fuel) h =
      let quotient : (field * 8 + wire) / 8 ≡ field = omega arith in
      let remainder : (field * 8 + wire) % 8 ≡ wire = omega arith in
      let enough : length rest ≤ fuel =
        omega (arith, sizes field wire body rest, tag_nonempty field wire) in
      message_loop_round fuel _ s
        (omega (arith, sizes field wire body rest, tag_nonempty field wire))
      ∙ rw
          (
            append_assoc,
            varint32-tag field wire (body ++ rest) (omega arith),
            quotient,
            remainder,
            e,
          )
          (d fuel enough)
