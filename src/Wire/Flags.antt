-- ===== src/Wire/Flags.antt =====
-- The frame and its flags, ts/src/wire.ts. `flags & bit` of a mask bit 2 ^ k is the k-th binary digit,
-- and `flags & 0x1f` is `flags % 32`.
use grpc_dgram.Prelude.{
  ℕ, ◌+◌, ◌/◌, ◌%◌, ◌<◌, ◌≡◌, Bool, true, false, not, ◌&&◌, ◌||◌, List, [], Option, none, some,
  arith, leb, ◌==◌, ℤ,
}
use grpc_dgram.Wire.Text.{Text}
use grpc_dgram.Wire.MetadataCodec.{Metadata}

abbrev pub flag_open : ℕ
flag_open = 1

abbrev pub flag_close : ℕ
flag_close = 2

abbrev pub flag_reset : ℕ
flag_reset = 4

abbrev pub flag_ping : ℕ
flag_ping = 8

abbrev pub flag_window : ℕ
flag_window = 16

abbrev pub flag_compressed : ℕ
flag_compressed = 32

pub record Any : Type 0 where
  pub type_url : Text
  pub value : List ℕ

-- `timeout` is in nanoseconds. No details and an empty list of them are the same value.
pub record Frame : Type 0 where
  pub epoch : ℕ
  pub sid : ℕ
  pub seq : ℕ
  pub flags : ℕ
  pub method : Text
  pub codec : Text
  pub timeout : Option ℤ
  pub payload : Option (List ℕ)
  pub code : Option ℕ
  pub desc : Text
  pub header : Option Metadata
  pub trailer : Option Metadata
  pub peer_epoch : ℕ
  pub window : ℕ
  pub compressor : Text
  pub details : List Any
  pub conn_window : ℕ

abbrev pub frame : Frame
frame = record {
  epoch = 0;
  sid = 0;
  seq = 0;
  flags = 0;
  method = [];
  codec = [];
  timeout = none;
  payload = none;
  code = none;
  desc = [];
  header = none;
  trailer = none;
  peer_epoch = 0;
  window = 0;
  compressor = [];
  details = [];
  conn_window = 0;
}

unfoldable pub is_open : Frame → Bool
is_open f = f.flags % 2 == 1

unfoldable pub is_close : Frame → Bool
is_close f = f.flags / 2 % 2 == 1

unfoldable pub is_reset : Frame → Bool
is_reset f = f.flags / 4 % 2 == 1

unfoldable pub is_ping : Frame → Bool
is_ping f = f.flags / 8 % 2 == 1

unfoldable pub is_window : Frame → Bool
is_window f = f.flags / 16 % 2 == 1

unfoldable pub is_compressed : Frame → Bool
is_compressed f = f.flags / 32 % 2 == 1

unfoldable pub shape_of : Frame → ℕ
shape_of f = f.flags % 32

-- `(f.flags & ~0x3f) !== 0`
unfoldable pub has_unknown_flags : Frame → Bool
has_unknown_flags f = leb 64 f.flags

unfoldable pub legal_shape : ℕ → Bool
legal_shape shape =
    (shape == 0)
    || ((shape == flag_open)
        || ((shape == flag_close)
            || ((shape == flag_open + flag_close)
                || ((shape == flag_reset) || ((shape == flag_ping) || (shape == flag_window))))))

abbrev is_some {ℓ} : {A : Type ℓ} → Option A → Bool
is_some none = false
is_some (some a) = true

unfoldable pub is_terminal : Frame → Bool
is_terminal f = (shape_of f == flag_close) && is_some f.code

unfoldable pub is_half_close : Frame → Bool
is_half_close f = (shape_of f == flag_close) && not (is_some f.code)

unfoldable pub is_data : Frame → Bool
is_data f = (shape_of f == 0) && is_some f.payload

unfoldable pub is_header_frame : Frame → Bool
is_header_frame f = (shape_of f == 0) && not (is_some f.payload)

unfoldable pub reset_for : Frame → Frame
reset_for f = record frame {
  flags = flag_reset;
  epoch = f.epoch;
  sid = f.sid;
  peer_epoch = f.peer_epoch;
}

abbrev pub count : Bool → ℕ
count true = 1
count false = 0

-- Every frame of a legal shape is exactly one of: an OPEN, a terminal or half CLOSE, a RESET, a PING, a
-- WINDOW, a data frame and a header frame; the OPEN that is also a CLOSE is a request in one frame.
pub legal_shape_one :
    (f : Frame)
    → legal_shape (shape_of f) ≡ true
    → count (is_open f)
        + count (is_terminal f)
        + count (is_half_close f)
        + count (is_reset f)
        + count (is_ping f)
        + count (is_window f)
        + count (is_data f)
        + count (is_header_frame f)
      ≡ 1
unfolding legal_shape shape_of is_open is_terminal is_half_close is_reset is_ping is_window is_data
    is_header_frame
legal_shape_one f h = ground arith

-- Where a frame has no flag but those of its shape, marking it as compressed changes nothing of what it
-- is, and the marked frame carries no unknown flag.
pub compressed_marker :
    (f : Frame)
    → f.flags < 32
    → let g = record f { flags = f.flags + flag_compressed } in
      (is_compressed f ≡ false)
      × (is_compressed g ≡ true)
      × (has_unknown_flags g ≡ false)
      × (shape_of g ≡ shape_of f)
      × (is_open g ≡ is_open f)
      × (is_terminal g ≡ is_terminal f)
      × (is_half_close g ≡ is_half_close f)
      × (is_data g ≡ is_data f)
      × (is_header_frame g ≡ is_header_frame f)
unfolding shape_of is_open is_terminal is_half_close is_data is_header_frame is_compressed
    has_unknown_flags
compressed_marker f h = ground arith
