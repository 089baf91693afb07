-- ===== src/Quality.antt =====
-- src/ntp/sync.rs (`SyncQuality::compute_dispersion_ms`) and src/ntp/protocol.rs
-- (`precision_log2_to_ms`): the dispersion that a sync leaves, growing with its age.
use ntp_time_json_api.Common.{◌-◌}
use ntp_time_json_api.Common.Int.{ℤ, pos, negsuc}
use ntp_time_json_api.Common.Float.{Float, max_float}
use ntp_time_json_api.Samples.{Instant, Duration, SyncQuality}

module _ (F : Type 0) ⦃fl : Float F⦄ where
  -- `2f64.powi(p as i32) * 1000.0`
  abbrev pub precision_log2_to_ms : ℤ → F
  precision_log2_to_ms p = fl.mul (fl.exp2 p) (fl.of_int (pos 1000))

  -- `Duration::as_secs_f64`.
  abbrev pub as_secs_f64 : Duration → F
  as_secs_f64 d = fl.div (fl.of_int (pos d)) (fl.literal 1 (pos 9))

  -- 15e-6.
  abbrev pub phi : F
  phi = fl.literal 15 (negsuc 5)

  unfoldable pub compute_dispersion_ms : Instant → SyncQuality → F
  compute_dispersion_ms now q =
      let age_s = as_secs_f64 (now - q.last_sync_instant) in
      let precision_ms = fl.abs (precision_log2_to_ms q.precision_log2) in
      let base = fl.add (fl.of_int (pos q.upstream_root_dispersion_ms)) precision_ms in
      let jittery = fl.add base (fl.of_int (pos q.jitter_ms)) in
      let aged = fl.add jittery (fl.mul (fl.mul phi age_s) (fl.of_int (pos 1000))) in
      let total = fl.add aged (fl.div (fl.of_int (pos q.measured_rtt_ms)) (fl.of_int (pos 2))) in
      max_float total (fl.of_int (pos 0))
