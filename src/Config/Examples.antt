-- ===== src/Config/Examples.antt =====
-- The settings that are resolved when none is given.
use grpc_dgram.Prelude.{none, some}
use grpc_dgram.Config.Limits.{Limits, infinity}
use grpc_dgram.Config.Timing.{Timing}

abbrev no_limits : Limits
no_limits = record {
  max_tombstones = some 0;
  max_tombstone_bytes = none;
  max_dead_peers = none;
  max_pending_resets = none;
  max_live_calls = some 1;
  max_replies_per_rti = none;
  max_peer_window = some infinity;
}

abbrev short_liveness : Timing
short_liveness = record {
  call = none;
  liveness = some 40000;
  retransmit = some 300;
  tombstone = none;
  hold = none;
}
