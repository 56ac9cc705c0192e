-- ===== src/Config/Timing.antt =====
-- ts/src/timing.ts. The configured times are whole milliseconds; the two that `resolveTiming` divides
-- are kept in sixths of a millisecond, where the halves and thirds are exact.
use grpc_dgram.Prelude.{
  ℕ, ◌*◌, ◌/◌, ◌≤◌, ◌≡◌, ◌⊎◌, Option, none, some, min, max, ltb, if◌then◌else◌, arith,
}

pub record Timing : Type 0 where
  pub call : Option ℕ
  pub liveness : Option ℕ
  pub retransmit : Option ℕ
  pub tombstone : Option ℕ
  pub hold : Option ℕ

pub record ResolvedTiming : Type 0 where
  pub call : ℕ
  pub liveness : ℕ
  pub retransmit : ℕ
  pub tombstone : ℕ
  pub hold : ℕ
  pub probe_sixths : ℕ
  pub tick_sixths : ℕ

-- `v ?? d`
abbrev or_else : Option ℕ → ℕ → ℕ
or_else none d = d
or_else (some v) d = v

unfoldable pub resolve_timing : Timing → ResolvedTiming
resolve_timing t =
    let liveness = or_else t.liveness 15000 in
    let retransmit = or_else t.retransmit 1000 in
    let tombstone = or_else t.tombstone 30000 in
    let hold = or_else t.hold retransmit in
    record {
      call = or_else t.call 5000;
      liveness = liveness;
      retransmit = retransmit;
      tombstone = if ltb tombstone (2 * liveness) then 2 * liveness else tombstone;
      hold = hold;
      probe_sixths = liveness * 6 / 3;
      tick_sixths = max (1 * 6) (min (min retransmit hold * 6 / 2) (500 * 6));
    }

-- Whatever is configured, a tombstone outlives two liveness windows, three probes fit in one, and the
-- sweep ticks every millisecond, or at least twice per retransmission interval, per hold and per
-- second.
pub timing_in_range :
    (t : Timing)
    → let r = resolve_timing t in
      (2 * r.liveness ≤ r.tombstone)
      × (3 * r.probe_sixths ≡ 6 * r.liveness)
      × ((r.tick_sixths ≡ 6)
          ⊎ ((2 * r.tick_sixths ≤ 6 * r.retransmit)
              × (2 * r.tick_sixths ≤ 6 * r.hold)
              × (2 * r.tick_sixths ≤ 6000)
              × (6 ≤ r.tick_sixths)))
unfolding resolve_timing
timing_in_range t = ground arith
