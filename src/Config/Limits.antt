-- ===== src/Config/Limits.antt =====
-- ts/src/limits.ts. A limit is a whole number or left out; the peer window may also be `Infinity`.
-- Zero stands for every value that is not positive.
use grpc_dgram.Prelude.{ℕ, ◌≤◌, ◌<◌, Option, none, some, min, max, ltb, if◌then◌else◌, arith}
use grpc_dgram.Queue.{DropPolicy}

pub record RxBufferConfig : Type 0 where
  pub size : Option ℕ
  pub policy : Option DropPolicy

pub record ResolvedRxConfig : Type 0 where
  pub size : ℕ
  pub policy : DropPolicy

-- `v !== undefined && v > 0 ? v : d`
abbrev pub pos : Option ℕ → ℕ → ℕ
pos none d = d
pos (some v) d = if ltb 0 v then v else d

abbrev pub policy_or : Option DropPolicy → DropPolicy → DropPolicy
policy_or none d = d
policy_or (some p) d = p

unfoldable pub resolve_rx_config : RxBufferConfig → ResolvedRxConfig
resolve_rx_config c = record { size = pos c.size 32; policy = policy_or c.policy DropPolicy.newest }

pub data Window : Type 0 where
  whole : ℕ → Window
  infinity : Window

pub record Limits : Type 0 where
  pub max_tombstones : Option ℕ
  pub max_tombstone_bytes : Option ℕ
  pub max_dead_peers : Option ℕ
  pub max_pending_resets : Option ℕ
  pub max_live_calls : Option ℕ
  pub max_replies_per_rti : Option ℕ
  pub max_peer_window : Option Window

pub record ResolvedLimits : Type 0 where
  pub max_tombstones : ℕ
  pub max_tombstone_bytes : ℕ
  pub max_dead_peers : ℕ
  pub max_pending_resets : ℕ
  pub max_live_calls : ℕ
  pub max_replies_per_rti : ℕ
  pub max_peer_window : ℕ

abbrev pub default_max_peer_window : ℕ
default_max_peer_window = 1024

abbrev pub largest_peer_window : ℕ
largest_peer_window = 0xffff_ffff

-- The default for a value left out, the floor, then the cap, which is all that is left of `Infinity`.
abbrev pub clamp_window : Option Window → ℕ
clamp_window none = min (max default_max_peer_window default_max_peer_window) largest_peer_window
clamp_window (some (Window.whole n)) =
    min (max (pos (some n) default_max_peer_window) default_max_peer_window) largest_peer_window
clamp_window (some Window.infinity) = largest_peer_window

unfoldable pub resolve_limits : Limits → ResolvedLimits
resolve_limits l = record {
  max_tombstones = pos l.max_tombstones 1024;
  max_tombstone_bytes = pos l.max_tombstone_bytes 0x10_0000;
  max_dead_peers = pos l.max_dead_peers 4;
  max_pending_resets = pos l.max_pending_resets 1024;
  max_live_calls = pos l.max_live_calls 4096;
  max_replies_per_rti = pos l.max_replies_per_rti 64;
  max_peer_window = clamp_window l.max_peer_window;
}

-- Whatever is configured, every cap lets something through, and the peer window is at least what a
-- client assumes before it hears one and at most what the wire's field carries.
pub limits_in_range :
    (l : Limits)
    → (0 < (resolve_limits l).max_tombstones)
      × (0 < (resolve_limits l).max_tombstone_bytes)
      × (0 < (resolve_limits l).max_dead_peers)
      × (0 < (resolve_limits l).max_pending_resets)
      × (0 < (resolve_limits l).max_live_calls)
      × (0 < (resolve_limits l).max_replies_per_rti)
      × (1024 ≤ (resolve_limits l).max_peer_window)
      × ((resolve_limits l).max_peer_window < 0x1_0000_0000)
unfolding resolve_limits
limits_in_range l = ground arith
