-- ===== src/Monitoring/Upkeep.antt =====
-- packages/api/src/persistence/repositories/docker-monitoring.repository.ts: acknowledging and resolving
-- alerts, `cleanupForVps`, and the reads of one entry.
pub mod Cleanup
use vps_manager_nodejs.Prelude.{
  ℕ, String, Bool, true, false, not, ◌&&◌, List, [], ◌∷◌, Option, none, some, map, find, filterb,
  count_if, if◌then◌else◌, str_eq, Outcome, ok, err,
}
use vps_manager_nodejs.Alerts.Unavailable as unavailable_rule
use vps_manager_nodejs.Alerts.RuleState.{TypedState}
use vps_manager_nodejs.Monitoring.Records.{
  AlertState, open_alert, acknowledged, resolved, ResolutionReason, Alert, Latest, StorageLatest,
  Store,
}
use vps_manager_nodejs.Monitoring.Tables.{update_first, set_entry}
use vps_manager_nodejs.Monitoring.HostRule.{is_live}

-- The error "Docker alert not found".
pub data Error : Type 0 where
  alert_not_found : Error

abbrev pub is_alert : String → String → Alert → Bool
is_alert vps_id id a = str_eq a.vps_id vps_id && str_eq a.id id

abbrev pub is_open : AlertState → Bool
is_open open_alert = true
is_open _ = false

abbrev pub as_acknowledged : String → String → Alert → Alert
as_acknowledged by at a = record a {
  state = acknowledged;
  acknowledged_at = some at;
  acknowledged_by = some by;
}

abbrev is_active_of : String → Alert → Bool
is_active_of vps_id a = str_eq a.vps_id vps_id && is_live a.state

abbrev as_resolved : ResolutionReason → String → Alert → Alert
as_resolved reason at a = record a {
  state = resolved;
  resolved_at = some at;
  resolution_reason = some reason;
}

-- `row.vpsId !== vpsId`
abbrev pub is_other : String → String → Bool
is_other vps_id given = not (str_eq given vps_id)

-- The entries of rule states whose own `vpsId` is another one.
abbrev pub keep_host : String → Option unavailable_rule.State → Option unavailable_rule.State
keep_host vps_id none = none
keep_host vps_id (some s) = if is_other vps_id s.vps_id then some s else none

abbrev pub keep_typed : String → Option TypedState → Option TypedState
keep_typed vps_id none = none
keep_typed vps_id (some s) = if is_other vps_id s.vps_id then some s else none

module _ {R : Type 0} where
  -- acknowledgeAlert, with the alert and whether it changed.
  unfoldable pub acknowledge_alert :
      String → String → String → String → Store R → Outcome Error (Store R × (Alert × Bool))
  acknowledge_alert vps_id id by at s = elim (find (is_alert vps_id id) s.alerts) [
    | none ↦ err alert_not_found
    | some a ↦
        if is_open a.state
        then ok (
          record s { alerts = update_first (is_alert vps_id id) (as_acknowledged by at) s.alerts },
          (as_acknowledged by at a, true),
        )
        else ok (s, (a, false))
  ]

  -- resolveActiveAlertsForVps, with the number of alerts that it resolved.
  pub resolve_active_alerts_for_vps : String → ResolutionReason → String → Store R → Store R × ℕ
  resolve_active_alerts_for_vps vps_id reason at s = (
    record s {
      alerts = map (λ a. if is_active_of vps_id a then as_resolved reason at a else a) s.alerts;
    },
    count_if (is_active_of vps_id) s.alerts,
  )

  -- cleanupForVps
  pub cleanup_for_vps : String → Store R → Store R
  cleanup_for_vps vps_id s = record s {
    samples = filterb (λ x. is_other vps_id x.vps_id) s.samples;
    events = filterb (λ x. is_other vps_id x.vps_id) s.events;
    rollups = filterb (λ x. is_other vps_id x.vps_id) s.rollups;
    alerts = filterb (λ x. is_other vps_id x.vps_id) s.alerts;
    snapshots = filterb (λ x. is_other vps_id x.vps_id) s.snapshots;
    watermarks = filterb (λ x. is_other vps_id x.vps_id) s.watermarks;
    batches = filterb (λ x. is_other vps_id x.vps_id) s.batches;
    latest_storage = set_entry vps_id none s.latest_storage;
    latest_by_vps = set_entry vps_id none s.latest_by_vps;
    unavailable_states = λ key. keep_host vps_id (s.unavailable_states key);
    typed_states = λ key. keep_typed vps_id (s.typed_states key);
  }

  pub get_storage_latest : String → Store R → Option StorageLatest
  get_storage_latest vps_id s = s.latest_storage vps_id

  pub get_authoritative_latest : String → Store R → Option Latest
  get_authoritative_latest vps_id s = s.latest_by_vps vps_id

-- emptyStore
abbrev pub empty_store : {R : Type 0} → Store R
empty_store = record {
  revision = 0;
  last_maintenance_at = none;
  samples = [];
  rollups = [];
  events = [];
  latest_storage = λ vps_id. none;
  latest_by_vps = λ vps_id. none;
  snapshots = [];
  watermarks = [];
  batches = [];
  alerts = [];
  unavailable_states = λ key. none;
  typed_states = λ key. none;
}
