-- ===== src/Status.antt =====
-- The status codes and statuses of ts/src/status.ts. A thrown error is a status here.
pub mod Code
pub mod Thrown
use grpc_dgram.Prelude.{◌≡◌, refl, ◌⊎◌, inl, inr, ℕ, Option, none, some}
use grpc_dgram.Wire.Text.{Text}
use grpc_dgram.Wire.Flags.{Frame}

pub record Status : Type 0 where
  pub code : ℕ
  pub desc : Text

abbrev or_ok : Option ℕ → ℕ
or_ok none = Code.ok
or_ok (some c) = c

-- A value, or the status that is thrown instead.
pub data Try {ℓ} (A : Type ℓ) : Type ℓ where
  returns : A → Try A
  throws : Status → Try A

pub Try-cases {ℓ} :
    {A : Type ℓ} (t : Try A) → ((a : A) × (t ≡ returns a)) ⊎ ((st : Status) × (t ≡ throws st))
Try-cases (returns a) = inl (a, refl)
Try-cases (throws st) = inr (st, refl)

-- `frameStatus` of ts/src/wire.ts.
unfoldable pub frame_status : Frame → Status
frame_status f = record { code = or_ok f.code; desc = f.desc }

-- `setFrameError` of ts/src/wire.ts.
unfoldable pub set_frame_error : Status → Frame → Frame
set_frame_error st f = record f { code = some st.code; desc = st.desc }
