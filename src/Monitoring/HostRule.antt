-- ===== src/Monitoring/HostRule.antt =====
-- packages/api/src/persistence/repositories/docker-monitoring.repository.ts: the alert docker_unavailable
-- of a server, from `applyUnavailableObservation` and from the `monitoring` of an ingested unit.
pub mod Acknowledged
use vps_manager_nodejs.Prelude.{
  ℕ, String, Bool, true, false, ◌&&◌, List, [], ◌∷◌, ◌++◌, Option, none, some, length, or_else,
  find, if◌then◌else◌, str_eq, text_append, Outcome, ok, err,
}
use vps_manager_nodejs.Alerts.Unavailable as rule
use vps_manager_nodejs.Alerts.Unavailable.{evaluate}
use vps_manager_nodejs.Monitoring.Records.{
  AlertState, open_alert, acknowledged, resolved, condition_cleared, Alert, Store,
}
use vps_manager_nodejs.Monitoring.Runtime.{Runtime}
use vps_manager_nodejs.Monitoring.Tables.{update_first, upsert, set_entry, truthy}

-- `a.state === "open" || a.state === "acknowledged"`
abbrev pub is_live : AlertState → Bool
is_live open_alert = true
is_live acknowledged = true
is_live resolved = false

-- dockerUnavailableFingerprint
pub unavailable_fingerprint : String → String
unavailable_fingerprint vps_id = text_append "docker_unavailable:v1:" vps_id

unfoldable pub unavailable_alert_id : String → String
unavailable_alert_id vps_id = text_append vps_id ":docker_unavailable"

abbrev pub is_host_alert : String → Alert → Bool
unfolding unavailable_fingerprint
is_host_alert vps_id a =
    str_eq a.vps_id vps_id
    && str_eq a.fingerprint (unavailable_fingerprint vps_id)
    && is_live a.state

abbrev pub listed_state : rule.AlertState → AlertState
listed_state rule.AlertState.open_alert = open_alert
listed_state rule.AlertState.acknowledged = acknowledged

abbrev pub is_resolution : rule.Transition → Bool
is_resolution rule.Transition.resolved = true
is_resolution _ = false

-- The state of the rule that a server without one starts from.
abbrev pub first_state : String → rule.State
first_state vps_id = record { vps_id = vps_id; window = []; alert = none }

module _ {R : Type 0} (runtime : Runtime R) where
  -- buildDockerUnavailableSummary
  unavailable_summary : ℕ → ℕ → String
  unavailable_summary unavailable_count window_size = text_append "docker unavailable: " (
      text_append (runtime.show unavailable_count) (
        text_append " of last "
          (text_append (runtime.show window_size) " complete observations unavailable")))

  -- The alert that is listed for an active alert of the rule.
  pub listed_alert : String → String → rule.ActiveAlert → rule.Result → Alert
  unfolding unavailable_fingerprint unavailable_alert_id unavailable_summary
  listed_alert vps_id instance active r = record {
    id = unavailable_alert_id vps_id;
    vps_id = vps_id;
    agent_instance_id = some instance;
    rule_kind = "docker_unavailable";
    container_key = none;
    state = listed_state active.state;
    fingerprint = unavailable_fingerprint vps_id;
    opened_at = active.opened_at;
    last_observed_at = some active.last_observed_at;
    resolved_at = none;
    acknowledged_at = active.acknowledged_at;
    acknowledged_by = active.acknowledged_by;
    occurrences = active.occurrences;
    summary = unavailable_summary r.unavailable_count (length r.window);
    resolution_reason = none;
  }

  abbrev pub cleared : String → Alert → Alert
  cleared at a = record a {
    state = resolved;
    resolved_at = some at;
    resolution_reason = some condition_cleared;
  }

  -- The alerts after an observation of `at`, with the alert to list where there is one, and the alert
  -- that is answered.
  pub settle_alerts :
      String
      → String
      → String
      → Option rule.ActiveAlert
      → rule.Result
      → List Alert
      → List Alert × Option Alert
  unfolding listed_alert is_host_alert
  settle_alerts vps_id instance at (some active) r alerts =
      let listed = listed_alert vps_id instance active r in
      (upsert (is_host_alert vps_id) listed alerts, some listed)
  settle_alerts vps_id instance at none r alerts = elim (find (is_host_alert vps_id) alerts) [
    | none ↦ (alerts, none)
    | some old ↦
        if is_resolution r.transition
        then (update_first (is_host_alert vps_id) (cleared at) alerts, some (cleared at old))
        else (alerts, none)
  ]

  -- The store after an observation, with the answer of applyUnavailableObservation.
  pub settle :
      String
      → String
      → String
      → Option rule.ActiveAlert
      → rule.Result
      → Store R
      → Store R × (Option Alert × rule.Transition)
  unfolding settle_alerts
  settle vps_id instance at active r s =
      let settled = settle_alerts vps_id instance at active r s.alerts in
      (
        record s {
          unavailable_states = set_entry vps_id (some r.next) s.unavailable_states;
          alerts = settled.0;
        },
        (settled.1, r.transition),
      )

  abbrev pub observation_of : rule.Availability → String → rule.Observation
  observation_of availability at = record {
    availability = some availability;
    complete = none;
    stale = none;
    gap = none;
    observed_at = at;
  }

  -- evaluateDockerUnavailable on the state that the store keeps for the server.
  pub judge : String → rule.Availability → String → Store R → Outcome rule.Error rule.Result
  unfolding evaluate
  judge vps_id availability at s =
      evaluate runtime.is_valid_date (or_else (s.unavailable_states vps_id) (first_state vps_id))
        (some (observation_of availability at))

  -- applyUnavailableObservation
  unfoldable pub apply_unavailable_observation :
      String
      → String
      → rule.Availability
      → String
      → Store R
      → Outcome rule.Error (Store R × (Option Alert × rule.Transition))
  unfolding judge settle
  apply_unavailable_observation vps_id instance availability at s =
      elim (judge vps_id availability at s) [
        | err thrown ↦ err thrown
        | ok r ↦ ok (settle vps_id instance at r.next.alert r s)
      ]

  abbrev shown : Option rule.ActiveAlert → Option rule.ActiveAlert
  shown none = none
  shown (some a) = some (record a {
    acknowledged_at = truthy a.acknowledged_at;
    acknowledged_by = truthy a.acknowledged_by;
  })

  -- The part of `ingestUnit` for `unit.monitoring`.
  unfoldable pub ingest_availability :
      String → String → rule.Availability → String → Store R → Outcome rule.Error (Store R)
  unfolding judge settle
  ingest_availability vps_id instance availability at s = elim (judge vps_id availability at s) [
    | err thrown ↦ err thrown
    | ok r ↦ ok ((settle vps_id instance at (shown r.next.alert) r s).0)
  ]
