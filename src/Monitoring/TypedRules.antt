-- ===== src/Monitoring/TypedRules.antt =====
-- packages/api/src/persistence/repositories/docker-monitoring.repository.ts: the loop of `ingestUnit` that
-- hands its evidence to the typed alert rules and lists their alerts.
use vps_manager_nodejs.Prelude.{
  String, Bool, true, false, ◌&&◌, List, [], ◌∷◌, Option, none, some, or_else, if◌then◌else◌,
  str_eq, text_append, Outcome, ok, ◌>>=◌,
}
use vps_manager_nodejs.Alerts.Evidence.{
  RuleKind, container_unhealthy, container_restart_loop, container_cpu_high, container_memory_high,
  docker_storage_pressure, docker_event_gap,
}
use vps_manager_nodejs.Alerts.RuleState as rule
use vps_manager_nodejs.Alerts.RuleState.{create_initial_alert_state}
use vps_manager_nodejs.Alerts.Typed.{evaluate}
use vps_manager_nodejs.Monitoring.Records.{
  AlertState, open_alert, acknowledged, resolved, ResolutionReason, condition_cleared,
  container_removed, Alert, RuleKey, Store,
}
use vps_manager_nodejs.Monitoring.Runtime.{Runtime}
use vps_manager_nodejs.Monitoring.Tables.{update_first, upsert}
use vps_manager_nodejs.Monitoring.HostRule.{is_live}
use vps_manager_nodejs.Monitoring.Evidence.{Item}

abbrev pub kind_name : RuleKind → String
kind_name container_unhealthy = "container_unhealthy"
kind_name container_restart_loop = "container_restart_loop"
kind_name container_cpu_high = "container_cpu_high"
kind_name container_memory_high = "container_memory_high"
kind_name docker_storage_pressure = "docker_storage_pressure"
kind_name docker_event_gap = "docker_event_gap"

-- `id ?? "host"`
abbrev or_host : Option String → String
or_host id = or_else id "host"

-- dockerAlertFingerprint
unfoldable pub typed_fingerprint : String → RuleKind → Option String → Option String → String
typed_fingerprint vps_id kind instance key = text_append (kind_name kind) (
    text_append ":v1:" (
      text_append vps_id
        (text_append ":" (text_append (or_host instance) (text_append ":" (or_host key))))))

abbrev is_alert_of : String → Alert → Bool
is_alert_of fingerprint a = str_eq a.fingerprint fingerprint && is_live a.state

abbrev listed_state : rule.AlertState → AlertState
listed_state rule.AlertState.open_alert = open_alert
listed_state rule.AlertState.acknowledged = acknowledged

-- `evaluated.transition.startsWith("resolved")`
abbrev is_resolution : rule.Transition → Bool
is_resolution rule.Transition.resolved = true
is_resolution rule.Transition.resolved_container_removed = true
is_resolution rule.Transition.resolved_baseline = true
is_resolution _ = false

abbrev reason_of : Option rule.Resolution → ResolutionReason
reason_of (some rule.Resolution.container_removed) = container_removed
reason_of _ = condition_cleared

abbrev same_kind : RuleKind → RuleKind → Bool
same_kind a b = str_eq (kind_name a) (kind_name b)

abbrev same_rule_key : RuleKey → RuleKey → Bool
same_rule_key a b =
    str_eq a.vps_id b.vps_id
    && same_kind a.kind b.kind
    && str_eq a.instance_or_host b.instance_or_host
    && str_eq a.container_or_host b.container_or_host

abbrev key_of : {R : Type 0} → String → Item R → RuleKey
key_of vps_id (kind, o) = record {
  vps_id = vps_id;
  kind = kind;
  instance_or_host = or_host o.agent_instance_id;
  container_or_host = or_host o.container_key;
}

-- The alert that is listed for an active alert of a typed rule; its id is its fingerprint.
pub listed_typed_alert : {R : Type 0} → String → Item R → rule.ActiveAlert → Alert
unfolding typed_fingerprint
listed_typed_alert vps_id (kind, o) active = record {
  id = typed_fingerprint vps_id kind o.agent_instance_id o.container_key;
  vps_id = vps_id;
  agent_instance_id = o.agent_instance_id;
  rule_kind = kind_name kind;
  container_key = o.container_key;
  state = listed_state active.state;
  fingerprint = typed_fingerprint vps_id kind o.agent_instance_id o.container_key;
  opened_at = active.opened_at;
  last_observed_at = some active.last_observed_at;
  resolved_at = none;
  acknowledged_at = active.acknowledged_at;
  acknowledged_by = active.acknowledged_by;
  occurrences = active.occurrences;
  summary = text_append (kind_name kind) ": threshold condition detected";
  resolution_reason = none;
}

pub settle_typed_alerts :
    {R : Type 0} → String → Item R → rule.TypedResult → List Alert → List Alert
unfolding listed_typed_alert
settle_typed_alerts vps_id item r alerts =
    let (kind, o) = item in
    let fingerprint = typed_fingerprint vps_id kind o.agent_instance_id o.container_key in
    elim r.next.alert [
      | some active ↦
          upsert (is_alert_of fingerprint) (listed_typed_alert vps_id item active) alerts
      | none ↦
          if is_resolution r.transition
          then update_first (is_alert_of fingerprint)
              (λ old. record old {
                state = resolved;
                resolved_at = some o.observed_at;
                resolution_reason = some (reason_of r.resolution);
              })
              alerts
          else alerts
    ]

module _ {R : Type 0} (runtime : Runtime R) where
  -- The state that the store keeps for the item's rule, or a first one.
  pub typed_state : String → Item R → Store R → Outcome rule.Error rule.TypedState
  unfolding create_initial_alert_state
  typed_state vps_id (kind, o) s = elim (s.typed_states (key_of {R = R} vps_id (kind, o))) [
    | some state ↦ ok state
    | none ↦ create_initial_alert_state kind vps_id o.agent_instance_id o.container_key
  ]

  pub settle_typed : String → Item R → rule.TypedResult → Store R → Store R
  unfolding settle_typed_alerts
  settle_typed vps_id item r s = record s {
    typed_states =
        λ key. if same_rule_key (key_of vps_id item) key then some r.next else s.typed_states key;
    alerts = settle_typed_alerts vps_id item r s.alerts;
  }

  -- One round of the loop.
  unfoldable pub typed_step : String → Item R → Store R → Outcome rule.Error (Store R)
  unfolding typed_state evaluate settle_typed
  typed_step vps_id item s = typed_state vps_id item s >>= λ previous.
      evaluate runtime.ratios runtime.is_valid_date previous (some (item.1)) >>= λ r.
      ok (settle_typed vps_id item r s)

  unfoldable pub typed_steps : String → List (Item R) → Store R → Outcome rule.Error (Store R)
  unfolding typed_step
  typed_steps vps_id [] s = ok s
  typed_steps vps_id (item ∷ items) s =
      typed_step vps_id item s >>= λ next. typed_steps vps_id items next
