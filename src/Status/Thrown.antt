-- ===== src/Status/Thrown.antt =====
-- `isMessageTooLarge`, `toStatusError` and `abortCause` of ts/src/status.ts: what a thrown value says
-- about the call that it ends.
use grpc_dgram.Prelude.{
  ℕ, zero, suc, ◌≡◌, Bool, true, false, List, [], ◌∷◌, ◌||◌, take, refl, if◌then◌else◌, arith,
}
use grpc_dgram.Wire.Text.{Text}
use grpc_dgram.Metadata.Base64.{codes}
use grpc_dgram.Status.{Status}
use grpc_dgram.Status.Code

-- A thrown value: a `StatusError`, an adapter's `MessageTooLargeError`, the platform's `AbortError` and
-- `TimeoutError`, any other error, each with its cause, and what is no error, with its text.
pub data Kind : Type 0 where
  status : Status → Kind
  too_large abort timeout plain : Text → Kind

pub data Thrown : Type 0 where
  error : Kind → Thrown
  caused : Kind → Thrown → Thrown
  value : Text → Thrown

abbrev pub is_size_refusal : Kind → Bool
is_size_refusal (too_large m) = true
is_size_refusal _ = false

-- The loop of `isMessageTooLarge`, `n` rounds of it.
unfoldable pub is_too_large : ℕ → Thrown → Bool
is_too_large zero e = false
is_too_large (suc n) (error k) = is_size_refusal k
is_too_large (suc n) (caused k cause) =
    let rest = is_too_large n cause in if is_size_refusal k then true else rest
is_too_large (suc n) (value m) = false

abbrev pub is_message_too_large : Thrown → Bool
is_message_too_large e = is_too_large 8 e

abbrev or_text : Text → Text → Text
or_text [] text = text
or_text (c ∷ cs) text = c ∷ cs

abbrev message : Kind → Text
message (status st) = st.desc
message (too_large m) = m
message (abort m) = m
message (timeout m) = m
message (plain m) = m

by_name : Kind → Status
by_name (status st) = st
by_name (too_large m) = record { code = Code.unknown; desc = m }
by_name (abort m) = record { code = Code.cancelled; desc = or_text m (codes "aborted") }
by_name (timeout m) = record {
  code = Code.deadline_exceeded;
  desc = or_text m (codes "deadline exceeded");
}
by_name (plain m) = record { code = Code.unknown; desc = m }

of_kind : Bool → Kind → Status
unfolding by_name
of_kind refused (status st) = st
of_kind true k = record { code = Code.resource_exhausted; desc = message k }
of_kind false k = by_name k

unfoldable pub to_status_error : Thrown → Status
unfolding of_kind
to_status_error (error k) = of_kind (is_message_too_large (error k)) k
to_status_error (caused k cause) = of_kind (is_message_too_large (caused k cause)) k
to_status_error (value m) = record { code = Code.unknown; desc = m }

-- The kinds of an error and of its causes, outermost first.
unfoldable pub chain : Thrown → List Kind
chain (error k) = k ∷ []
chain (caused k cause) = k ∷ chain cause
chain (value m) = []

unfoldable pub any_refusal : List Kind → Bool
any_refusal [] = false
any_refusal (k ∷ ks) = is_size_refusal k || any_refusal ks

no_more : (n : ℕ) → any_refusal (take n []) ≡ false
unfolding any_refusal
no_more zero = refl
no_more (suc n) = refl

-- Looking through `n` errors finds a size refusal exactly if one is among the first `n` of the chain.
pub is_too_large-chain : (n : ℕ) (e : Thrown) → is_too_large n e ≡ any_refusal (take n (chain e))
unfolding is_too_large chain any_refusal
is_too_large-chain zero e = refl
is_too_large-chain (suc n) (error k) = ground (arith, no_more n)
is_too_large-chain (suc n) (caused k cause) = ground (arith, is_too_large-chain n cause)
is_too_large-chain (suc n) (value m) = refl
