-- ===== src/Hal/Cluster.antt =====
-- crates/led-hal/src/cluster_sync.rs: `SyncedCluster`, its segments' health and `send_frame`. The
-- locks hold for a whole operation. `R` is the text of a failure; `sends i` is what the `Hal` of
-- segment `i` answers, with the reason where it fails.
pub mod Health
use led_platform.Prelude.{
  u32, u64, is_some, not, [], false, if◌then◌else◌, leb, ltb, none, replicate, some, suc, true,
  zero, ◌*◌, ◌++◌, ◌+◌, ◌-◌, ◌||◌, ◌∷◌, Bool, Option, List, ℕ, arith, ◌≡◌,
}
use led_platform.Color.{PixelColor}

pub data SegmentState : Type 0 where
  healthy degraded failed : SegmentState

unfoldable pub is_failed : SegmentState → Bool
is_failed healthy = false
is_failed degraded = false
is_failed failed = true

pub record SegmentHealth (R : Type 0) : Type 0 where
  pub state : SegmentState
  pub consecutive_fails : ℕ
  pub frames_sent : ℕ
  pub last_fail_reason : Option R

pub data Metric : Type 0 where
  heartbeat_gap : ℕ → Metric
  frame : ℕ → Metric
  dropped : Metric

pub record SyncedCluster (R : Type 0) : Type 0 where
  pub segments : List (SegmentHealth R)
  pub drift_tolerance_ms : ℕ
  pub metrics : Option (List Metric)
  pub last_frame : Option (List PixelColor × ℕ)

-- The chain of thresholds in `record_failure`.
abbrev pub state_after : ℕ → SegmentState
state_after fails = if leb 10 fails then failed else if leb 3 fails then degraded else healthy

-- `abs_diff`.
abbrev pub drift_ms : ℕ → ℕ → ℕ
drift_ms now frame_ts = (now - frame_ts) + (frame_ts - now)

abbrev pub emit : Metric → Option (List Metric) → Option (List Metric)
emit m none = none
emit m (some ms) = some (ms ++ m ∷ [])

module _ {R : Type 0} where
  abbrev pub new_health : SegmentHealth R
  new_health = record {
    state = healthy;
    consecutive_fails = 0;
    frames_sent = 0;
    last_fail_reason = none;
  }

  unfoldable pub record_success : SegmentHealth R → SegmentHealth R
  record_success h = record h {
    consecutive_fails = 0;
    frames_sent = u64 (h.frames_sent + 1);
    state = healthy;
  }

  unfoldable pub record_failure : SegmentHealth R → R → SegmentHealth R
  record_failure h reason = record h {
    consecutive_fails = u32 (h.consecutive_fails + 1);
    last_fail_reason = some reason;
    state = state_after (u32 (h.consecutive_fails + 1));
  }

  -- `SyncedCluster::new` for so many segments.
  unfoldable pub new_cluster : ℕ → ℕ → SyncedCluster R
  new_cluster hals drift_tolerance_ms = record {
    segments = replicate hals new_health;
    drift_tolerance_ms = drift_tolerance_ms;
    metrics = none;
    last_frame = none;
  }

  unfoldable pub with_metrics : SyncedCluster R → SyncedCluster R
  with_metrics c = record c { metrics = some [] }

  unfoldable pub hot_join : SyncedCluster R → SyncedCluster R
  hot_join c = record c { segments = c.segments ++ new_health ∷ [] }

  unfoldable pub rejoin_at : List (SegmentHealth R) → ℕ → List (SegmentHealth R)
  rejoin_at [] i = []
  rejoin_at (h ∷ hs) zero =
      record h { consecutive_fails = 0; state = healthy; last_fail_reason = none } ∷ hs
  rejoin_at (h ∷ hs) (suc i) = h ∷ rejoin_at hs i

  unfoldable pub rejoin_segment : SyncedCluster R → ℕ → SyncedCluster R
  unfolding rejoin_at
  rejoin_segment c index = record c { segments = rejoin_at (c.segments) index }

  unfoldable pub active_in : List (SegmentHealth R) → ℕ
  unfolding is_failed
  active_in [] = 0
  active_in (h ∷ hs) = if is_failed (h.state) then active_in hs else suc (active_in hs)

  unfoldable pub active_segment_count : SyncedCluster R → ℕ
  unfolding active_in
  active_segment_count c = active_in (c.segments)

  abbrev pub settle : SegmentHealth R → Option R → SegmentHealth R
  settle h none = record_success h
  settle h (some reason) = record_failure h reason

  -- The loop over the segments from index `i` on, and `any_success`.
  unfoldable pub send_segments :
      (ℕ → Option R) → ℕ → List (SegmentHealth R) → List (SegmentHealth R) × Bool
  unfolding is_failed
  send_segments sends i [] = ([], false)
  send_segments sends i (h ∷ hs) =
      let (rest, any_success) = send_segments sends (suc i) hs in
      if is_failed (h.state)
      then (h ∷ rest, any_success)
      else (settle h (sends i) ∷ rest, not (is_some (sends i)) || any_success)

  unfoldable pub send_frame :
      (ℕ → Option R) → ℕ → ℕ → List PixelColor → ℕ → SyncedCluster R → SyncedCluster R × Bool
  unfolding send_segments
  send_frame sends now elapsed_us pixels timestamp_ms c =
      let drift = drift_ms now timestamp_ms in
      let metrics₁ =
        if ltb (c.drift_tolerance_ms) drift
        then emit (heartbeat_gap (drift * 1000)) (c.metrics)
        else c.metrics in
      let (segments, any_success) = send_segments sends 0 (c.segments) in
      (
        record {
          segments = segments;
          drift_tolerance_ms = c.drift_tolerance_ms;
          metrics = emit (if any_success then frame elapsed_us else dropped) metrics₁;
          last_frame = some (pixels, timestamp_ms);
        },
        any_success,
      )
