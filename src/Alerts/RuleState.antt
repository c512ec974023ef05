-- ===== src/Alerts/RuleState.antt =====
-- packages/api/src/docker/docker-alert-evaluator.ts, second half: the state that a typed alert rule
-- keeps, its results, and the pieces of `evaluateDockerAlert` that build them.
use vps_manager_nodejs.Prelude.{
  ℕ, ◌+◌, String, Bool, true, false, ◌&&◌, ◌||◌, List, [], ◌∷◌, ◌++◌, Option, none, some, take_last,
  if◌then◌else◌, str_eq, Outcome, ok, err,
}
use vps_manager_nodejs.Alerts.Evidence.{
  RuleKind, docker_storage_pressure, docker_event_gap, Severity, Observation, docker_alert_rules,
  is_container_rule,
}

-- The signals that a window holds.
pub data Slot : Type 0 where
  positive negative neutral : Slot

pub data AlertState : Type 0 where
  open_alert acknowledged : AlertState

-- DockerAlertActive
pub record ActiveAlert : Type 0 where
  pub state : AlertState
  pub opened_at : String
  pub last_observed_at : String
  pub occurrences : ℕ
  pub acknowledged_at : Option String
  pub acknowledged_by : Option String

-- DockerTypedAlertState
pub record TypedState : Type 0 where
  pub rule_kind : RuleKind
  pub vps_id : String
  pub agent_instance_id : Option String
  pub container_key : Option String
  pub window : List Slot
  pub quiet_count : ℕ
  pub cooldown_remaining : ℕ
  pub alert : Option ActiveAlert

pub data Transition : Type 0 where
  opened persisted acknowledged_persisted resolved : Transition
  resolved_container_removed resolved_baseline no_change frozen : Transition

pub data Resolution : Type 0 where
  condition_cleared container_removed baseline_reset : Resolution

-- DockerTypedAlertResult; its `ruleVersion` is the constant 1.
pub record TypedResult : Type 0 where
  pub next : TypedState
  pub transition : Transition
  pub resolution : Option Resolution
  pub rule_kind : RuleKind
  pub severity : Severity

pub data Error : Type 0 where
  empty_vps_id missing_container_identity invalid_observed_at : Error

-- `prev` with another window, quiet count, cooldown and alert.
abbrev pub moved : TypedState → List Slot → ℕ → ℕ → Option ActiveAlert → TypedState
moved prev window quiet cooldown alert = record prev {
  window = window;
  quiet_count = quiet;
  cooldown_remaining = cooldown;
  alert = alert;
}

abbrev pub answer : TypedState → TypedState → Transition → Option Resolution → TypedResult
answer prev next transition resolution = record {
  next = next;
  transition = transition;
  resolution = resolution;
  rule_kind = prev.rule_kind;
  severity = (docker_alert_rules prev.rule_kind).severity;
}

unfoldable pub frozen_alert_result : TypedState → TypedResult
frozen_alert_result prev = answer prev prev frozen none

abbrev same_optional : Option String → Option String → Bool
same_optional none none = true
same_optional (some a) (some b) = str_eq a b
same_optional _ _ = false

abbrev same_or_any : Option String → Option String → Bool
same_or_any none given = true
same_or_any (some a) given = same_optional given (some a)

-- The part of `identityMatches` behind the test of the server.
abbrev pub identity_of_rule :
    RuleKind → Option String → Option String → Option String → Option String → Bool
identity_of_rule docker_event_gap instance key seen_instance seen_key =
    same_or_any instance seen_instance
identity_of_rule docker_storage_pressure instance key seen_instance seen_key = true
identity_of_rule _ instance key seen_instance seen_key =
    same_optional seen_instance instance && same_optional seen_key key

unfoldable pub identity_matches : {R : Type 0} → TypedState → Observation R → Bool
identity_matches s o =
    str_eq o.vps_id s.vps_id
    && identity_of_rule s.rule_kind s.agent_instance_id s.container_key o.agent_instance_id
        o.container_key

unfoldable pub create_initial_alert_state :
    RuleKind → String → Option String → Option String → Outcome Error TypedState
create_initial_alert_state kind vps_id instance key =
    if str_eq vps_id ""
    then err empty_vps_id
    else if is_container_rule kind && (same_optional instance none || same_optional key none)
    then err missing_container_identity
    else ok (record {
      rule_kind = kind;
      vps_id = vps_id;
      agent_instance_id = instance;
      container_key = key;
      window = [];
      quiet_count = 0;
      cooldown_remaining = 0;
      alert = none;
    })

abbrev pub persist_active : ActiveAlert → String → ActiveAlert
persist_active a at = record a { last_observed_at = at; occurrences = a.occurrences + 1 }

abbrev pub persisted_as : AlertState → Transition
persisted_as open_alert = persisted
persisted_as acknowledged = acknowledged_persisted

abbrev pub open_active : String → ActiveAlert
open_active at = record {
  state = open_alert;
  opened_at = at;
  last_observed_at = at;
  occurrences = 1;
  acknowledged_at = none;
  acknowledged_by = none;
}

abbrev pub is_positive : Slot → Bool
is_positive positive = true
is_positive _ = false

abbrev pub is_negative : Slot → Bool
is_negative negative = true
is_negative _ = false

abbrev pub is_neutral : Slot → Bool
is_neutral neutral = true
is_neutral _ = false

abbrev pub slide_window : TypedState → Slot → ℕ → List Slot
slide_window prev slot size = take_last size (prev.window ++ slot ∷ [])
