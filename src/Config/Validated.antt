-- ===== src/Config/Validated.antt =====
-- src/config.rs: what a configuration that the service starts with has.
use Prim.Native.String.{len}
use ntp_time_json_api.Common.{◌≤◌, ◌<◌, ◌≡◌, ◌↔◌, true, false, ◌||◌, length, ok, arith}
use ntp_time_json_api.Common.Int.{pos}
use ntp_time_json_api.Common.Float.{Float, F64, nan, number, NanOr, ◌<?◌, ◌≤?◌, ◌≤f64◌, ◌<f64◌}
use ntp_time_json_api.Selection.{SelectionConfig}
use ntp_time_json_api.Config.{
  Config, AdminConfig, ReplicaConfig, zero_float, validate, validate_admin, validate_selection,
}

pub record IsSoundAdmin (admin : AdminConfig) (replica : ReplicaConfig) : Type 0 where
  pub token : admin.enabled ≡ true → 0 < len admin.token
  pub max_ttl : admin.enabled ≡ true → 0 < admin.max_ttl_secs
  pub dispersion : admin.enabled ≡ true → 0 < admin.dispersion_ms
  pub replica_named : 0 < len replica.replica_id
  pub replica_short : len replica.replica_id ≤ 128

validate_admin_iff :
    (admin : AdminConfig) (replica : ReplicaConfig)
    → (validate_admin admin replica ≡ ok tt) ↔ IsSoundAdmin admin replica
unfolding validate_admin
validate_admin_iff admin replica = ground arith

module _ {F : Type 0} ⦃fl : Float F⦄ where
  pub record IsSoundSelection (sel : SelectionConfig F) : Type 0 where
    pub stratum : 0 < sel.max_stratum
    pub quorum : 0 < sel.min_quorum
    pub root_distance : NanOr (λ x. (zero_float <? x) ≡ true) sel.max_root_distance_ms
    pub sample_age : 0 < sel.max_sample_age_secs
    pub fraction :
        NanOr
          (λ x. ((zero_float <? x) ≡ true) × ((x ≤? fl.of_int (pos 1)) ≡ true))
          sel.provider_group_max_fraction

  pub record IsSound (c : Config F) : Type 0 where
    pub servers : 0 < length c.ntp.servers
    pub sync_interval : 0 < c.ntp.sync_interval_secs
    pub timeout : 0 < c.ntp.timeout_secs
    pub probe_range : c.ntp.probe_min_interval_secs ≤ c.ntp.probe_max_interval_secs
    pub packet_size : 48 ≤ c.ntp_server.max_packet_size
    pub root_dispersion : 0 < c.ntp_server.max_root_dispersion_ms
    pub ws_interval : 0 < c.ws.update_interval_ms
    pub ok_positive : NanOr (λ x. (zero_float <? x) ≡ true) c.quality.serve_ok_max_uncertainty_ms
    pub ok_below_degraded :
        NanOr
          (λ x. NanOr (λ y. (x <? y) ≡ true) c.quality.serve_degraded_max_uncertainty_ms)
          c.quality.serve_ok_max_uncertainty_ms
    pub admin : IsSoundAdmin c.admin c.replica
    pub selection : IsSoundSelection c.ntp.selection

  not_positive_iff :
      (a : F64 F) → ((a ≤f64 number zero_float) ≡ false) ↔ NanOr (λ x. (zero_float <? x) ≡ true) a
  not_positive_iff nan = ground arith
  not_positive_iff (number x) = ground arith

  not_fraction_iff :
      (a : F64 F)
      → (((a ≤f64 number zero_float) || (number (fl.of_int (pos 1)) <f64 a)) ≡ false)
        ↔ NanOr (λ x. ((zero_float <? x) ≡ true) × ((x ≤? fl.of_int (pos 1)) ≡ true)) a
  not_fraction_iff nan = ground arith
  not_fraction_iff (number x) = ground arith

  not_below_iff :
      (a b : F64 F) → ((b ≤f64 a) ≡ false) ↔ NanOr (λ x. NanOr (λ y. (x <? y) ≡ true) b) a
  not_below_iff nan nan = ground arith
  not_below_iff nan (number y) = ground arith
  not_below_iff (number x) nan = ground arith
  not_below_iff (number x) (number y) = ground arith

  validate_selection_iff :
      (sel : SelectionConfig F) → (validate_selection sel ≡ ok tt) ↔ IsSoundSelection sel
  unfolding validate_selection
  validate_selection_iff sel = ground (
    arith,
    not_positive_iff sel.max_root_distance_ms,
    not_fraction_iff sel.provider_group_max_fraction,
  )

  -- The service starts exactly with a configuration that is sound; NaN is let through.
  pub validate_iff : (c : Config F) → (validate c ≡ ok tt) ↔ IsSound c
  unfolding validate
  validate_iff c = ground (
    arith,
    validate_admin_iff c.admin c.replica,
    validate_selection_iff c.ntp.selection,
    not_positive_iff c.quality.serve_ok_max_uncertainty_ms,
    not_below_iff c.quality.serve_ok_max_uncertainty_ms c.quality.serve_degraded_max_uncertainty_ms,
  )
