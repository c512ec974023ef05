-- ===== src/Alerts/Evidence.antt =====
-- packages/api/src/docker/docker-alert-evaluator.ts, second half: the observations that the typed
-- alert rules accept as evidence, and the signal that each rule reads from one.
-- An optional field is an `Option`; `null` and `undefined` are both `none` where the code treats
-- them alike. A ratio is a JavaScript number: its type and the few operations that the code uses of
-- it are the parameter `Ratios`.
use vps_manager_nodejs.Prelude.{
  ℕ, String, Bool, true, false, not, ◌&&◌, ◌||◌, Option, none, some, is_true, is_false, is_some,
  if◌then◌else◌, str_eq, ◌==◌,
}

pub data RuleKind : Type 0 where
  container_unhealthy container_restart_loop container_cpu_high : RuleKind
  container_memory_high docker_storage_pressure docker_event_gap : RuleKind

pub data Severity : Type 0 where
  warning critical : Severity

pub data EvidenceStatus : Type 0 where
  complete unknown gap : EvidenceStatus

pub data Signal : Type 0 where
  positive negative neutral removed baseline : Signal

pub data Health : Type 0 where
  healthy running unhealthy starting unknown : Health

pub data EventAction : Type 0 where
  start restart die destroy remove create stop kill health_status : EventAction

-- What the code uses of JavaScript numbers: `>=`, `<`, `Number.isFinite` and its literals.
pub record Ratios (R : Type 0) : Type 0 where
  pub at_least : R → R → Bool
  pub below : R → R → Bool
  pub is_finite : R → Bool
  pub ratio_0_8 : R
  pub ratio_0_85 : R
  pub ratio_0_9 : R

-- DockerAlertObservation
pub record Observation (R : Type 0) : Type 0 where
  pub observed_at : String
  pub vps_id : String
  pub agent_instance_id : Option String
  pub container_key : Option String
  pub status : Option EvidenceStatus
  pub stale : Option Bool
  pub gap : Option Bool
  pub partial : Option Bool
  pub complete : Option Bool
  pub exact_container : Option Bool
  pub coverage_complete : Option Bool
  pub from_aggregate : Option Bool
  pub supported : Option Bool
  pub formula_version : Option ℕ
  pub health : Option Health
  pub healthy_sample : Option Bool
  pub event_action : Option EventAction
  pub cpu_ratio : Option R
  pub memory_ratio : Option R
  pub storage_ratio : Option R
  pub gap_reason : Option String
  pub gap_free : Option Bool
  pub baseline_reset : Option Bool

-- DOCKER_ALERT_RULES, without the ratios. `clear` also stands for `clearQuiet` and `clearGapFree`.
pub record RuleConfig : Type 0 where
  pub severity : Severity
  pub open_count : ℕ
  pub window_size : ℕ
  pub clear : ℕ
  pub cooldown : ℕ

abbrev config_of : Severity → ℕ → ℕ → ℕ → ℕ → RuleConfig
config_of severity o w c d = record {
  severity = severity;
  open_count = o;
  window_size = w;
  clear = c;
  cooldown = d;
}

abbrev pub docker_alert_rules : RuleKind → RuleConfig
docker_alert_rules container_unhealthy = config_of critical 1 1 3 2
docker_alert_rules container_restart_loop = config_of warning 3 5 3 2
docker_alert_rules container_cpu_high = config_of warning 3 5 3 2
docker_alert_rules container_memory_high = config_of warning 3 5 3 2
docker_alert_rules docker_storage_pressure = config_of warning 1 2 2 2
docker_alert_rules docker_event_gap = config_of warning 1 1 3 0

abbrev pub is_container_rule : RuleKind → Bool
is_container_rule container_unhealthy = true
is_container_rule container_restart_loop = true
is_container_rule container_cpu_high = true
is_container_rule container_memory_high = true
is_container_rule _ = false

-- `status === "unknown" || status === "gap"`, or any status but `complete`.
abbrev status_freezes : Option EvidenceStatus → Bool
status_freezes none = false
status_freezes (some complete) = false
status_freezes (some _) = true

abbrev status_is_complete : Option EvidenceStatus → Bool
status_is_complete (some complete) = true
status_is_complete _ = false

abbrev is_removal : Option EventAction → Bool
is_removal (some destroy) = true
is_removal (some remove) = true
is_removal _ = false

abbrev is_restart_event : Option EventAction → Bool
is_restart_event (some start) = true
is_restart_event (some restart) = true
is_restart_event (some die) = true
is_restart_event _ = false

abbrev pub is_healthy : Option Health → Bool
is_healthy (some healthy) = true
is_healthy (some running) = true
is_healthy _ = false

abbrev is_unhealthy : Option Health → Bool
is_unhealthy (some unhealthy) = true
is_unhealthy _ = false

-- `typeof text === "string" && text.length > 0`
abbrev non_empty : Option String → Bool
non_empty none = false
non_empty (some s) = not (str_eq s "")

abbrev is_version_one : Option ℕ → Bool
is_version_one none = false
is_version_one (some v) = v == 1

module _ {R : Type 0} where
  -- isFrozenBase on an observation that is there.
  pub is_frozen_base : Observation R → Bool
  is_frozen_base o =
      status_freezes o.status
      || is_true o.stale
      || is_true o.gap
      || is_true o.partial
      || is_false o.complete

  pub classify_removal : Observation R → Bool
  classify_removal o = not (is_false o.exact_container) && is_removal o.event_action

  pub classify_container_unhealthy : Observation R → Option Signal
  unfolding is_frozen_base classify_removal
  classify_container_unhealthy o =
      if is_frozen_base o
      then none
      else if is_false o.exact_container
      then none
      else if classify_removal o
      then some removed
      else if is_unhealthy o.health
      then some positive
      else if is_healthy o.health
      then some negative
      else none

  pub classify_restart_loop : Observation R → Option Signal
  unfolding is_frozen_base classify_removal
  classify_restart_loop o =
      if is_frozen_base o
      then none
      else if is_false o.exact_container
      then none
      else if classify_removal o
      then some removed
      else if is_restart_event o.event_action
      then some positive
      else if is_true o.healthy_sample || is_healthy o.health
      then some negative
      else if not (is_some o.event_action) && not (is_some o.health)
      then some negative
      else none

  -- classifyEventGapObservation; `is_valid_date` is `!Number.isNaN(Date.parse(text))`.
  unfoldable pub classify_event_gap : (String → Bool) → Observation R → Option Signal
  classify_event_gap is_valid_date o =
      if not (is_valid_date o.observed_at)
      then none
      else if is_true o.baseline_reset
      then some baseline
      else if non_empty o.gap_reason
      then some positive
      else if status_is_complete o.status && is_true o.gap_free
      then some negative
      else none

  module _ (n : Ratios R) where
    -- The three tests that end every ratio rule, on a number that is there.
    pub signal_of_ratio : Option R → R → R → Option Signal
    signal_of_ratio none open_ratio clear_ratio = none
    signal_of_ratio (some r) open_ratio clear_ratio =
        if not (n.is_finite r)
        then none
        else if n.at_least r open_ratio
        then some positive
        else if n.below r clear_ratio
        then some negative
        else some neutral

    pub classify_ratio : Observation R → Option R → R → R → Option Signal
    unfolding is_frozen_base classify_removal signal_of_ratio
    classify_ratio o ratio open_ratio clear_ratio =
        if is_frozen_base o
        then none
        else if is_false o.exact_container
        then none
        else if is_true o.from_aggregate
        then none
        else if is_false o.coverage_complete
        then none
        else if classify_removal o
        then some removed
        else signal_of_ratio ratio open_ratio clear_ratio

    pub classify_storage_pressure : Observation R → Option Signal
    unfolding is_frozen_base signal_of_ratio
    classify_storage_pressure o =
        if is_frozen_base o
        then none
        else if is_false o.supported
        then none
        else if not (is_version_one o.formula_version)
        then none
        else signal_of_ratio o.storage_ratio n.ratio_0_9 n.ratio_0_85

    -- classifyDockerAlertObservation on an observation that is there.
    unfoldable pub classify : (String → Bool) → RuleKind → Observation R → Option Signal
    unfolding classify_container_unhealthy classify_restart_loop classify_ratio
        classify_storage_pressure classify_event_gap
    classify is_valid_date container_unhealthy o = classify_container_unhealthy o
    classify is_valid_date container_restart_loop o = classify_restart_loop o
    classify is_valid_date container_cpu_high o =
        classify_ratio o o.cpu_ratio n.ratio_0_9 n.ratio_0_8
    classify is_valid_date container_memory_high o =
        classify_ratio o o.memory_ratio n.ratio_0_9 n.ratio_0_8
    classify is_valid_date docker_storage_pressure o = classify_storage_pressure o
    classify is_valid_date docker_event_gap o = classify_event_gap is_valid_date o
