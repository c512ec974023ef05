-- ===== src/Alerts/Typed.antt =====
-- packages/api/src/docker/docker-alert-evaluator.ts, second half: `evaluateDockerAlert`, the state
-- machine of the six typed alert rules, over the states of Alerts/RuleState.antt and the evidence of
-- Alerts/Evidence.antt.
pub mod Rules
pub mod Branches
pub mod Cooldown
pub mod Clearing
mod Tests
use vps_manager_nodejs.Prelude.{
  ℕ, suc, ◌+◌, ◌-◌, String, Bool, true, false, not, ◌&&◌, ◌||◌, List, [], ◌∷◌, ◌++◌, Option, none,
  some, length, take_last, every, count_if, ltb, leb, is_true, if◌then◌else◌, str_eq, Outcome, ok,
  err, ◌>>=◌, ◌>>◌, guard,
}
use vps_manager_nodejs.Alerts.Evidence.{
  RuleKind, container_unhealthy, container_restart_loop, container_cpu_high, container_memory_high,
  docker_storage_pressure, docker_event_gap, Signal, removed, baseline, Ratios, Observation,
  RuleConfig, docker_alert_rules, is_healthy, classify,
}
use vps_manager_nodejs.Alerts.RuleState.{
  Slot, positive, negative, neutral, ActiveAlert, TypedState, opened, resolved,
  resolved_container_removed, resolved_baseline, no_change, condition_cleared, container_removed,
  baseline_reset, TypedResult, Error, invalid_observed_at, moved, answer, frozen_alert_result,
  identity_matches, persist_active, persisted_as, open_active, is_positive, is_negative, is_neutral,
  slide_window,
}

-- `clearRun`: the window holds `clear` entries, and the last `clear` are all negative.
abbrev pub clear_run : ℕ → List Slot → Bool
clear_run clear window = leb clear (length window) && every is_negative (take_last clear window)

-- `evaluateSimpleThreshold` with an active alert.
pub simple_active : TypedState → ActiveAlert → String → Slot → List Slot → RuleConfig → TypedResult
simple_active prev a at slot window config =
    if clear_run config.clear window
    then answer prev (moved prev window 0 config.cooldown none) resolved (some condition_cleared)
    else if is_positive slot
    then answer prev
        (moved prev window prev.quiet_count prev.cooldown_remaining (some (persist_active a at)))
        (persisted_as a.state) none
    else answer prev (moved prev window prev.quiet_count prev.cooldown_remaining (some a)) no_change
        none

-- `evaluateSimpleThreshold` with no alert.
pub simple_idle : TypedState → String → Slot → List Slot → RuleConfig → TypedResult
simple_idle prev at slot window config =
    if is_neutral slot
    then answer prev (moved prev window 0 prev.cooldown_remaining none) no_change none
    else if ltb 0 prev.cooldown_remaining
    then answer prev (moved prev window prev.quiet_count (prev.cooldown_remaining - 1) none)
        no_change none
    else if leb config.open_count (count_if is_positive window)
    then answer prev (moved prev window 0 prev.cooldown_remaining (some (open_active at))) opened
        none
    else answer prev (moved prev window prev.quiet_count prev.cooldown_remaining none) no_change
        none

-- evaluateSimpleThreshold
pub evaluate_simple_threshold : TypedState → String → Slot → RuleConfig → TypedResult
unfolding simple_active simple_idle
evaluate_simple_threshold prev at slot config =
    let window = slide_window prev slot config.window_size in
    elim prev.alert [
      | some a ↦ simple_active prev a at slot window config
      | none ↦ simple_idle prev at slot window config
    ]

-- The tests on an active or missing alert that the restart loop and the event gap end with, each
-- with its own reason to clear. The event gap has no cooldown and opens on one positive.
pub quiet_active : TypedState → ActiveAlert → String → Slot → List Slot → ℕ → Bool → ℕ → TypedResult
quiet_active prev a at slot window quiet clears cooldown =
    if clears
    then answer prev (moved prev window 0 cooldown none) resolved (some condition_cleared)
    else if is_positive slot
    then answer prev (moved prev window quiet prev.cooldown_remaining (some (persist_active a at)))
        (persisted_as a.state) none
    else answer prev (moved prev window quiet prev.cooldown_remaining (some a)) no_change none

abbrev pub quiet_after : TypedState → Slot → ℕ
quiet_after prev slot = if is_positive slot then 0 else prev.quiet_count + 1

-- The event-gap branch of `evaluateDockerAlert` on a signal that is not `baseline`.
pub evaluate_event_gap : TypedState → String → Slot → RuleConfig → TypedResult
unfolding quiet_active
evaluate_event_gap prev at slot config =
    let window = slide_window prev slot config.window_size in
    let quiet = quiet_after prev slot in
    elim prev.alert [
      | some a ↦ quiet_active prev a at slot window quiet (leb 3 quiet) config.cooldown
      | none ↦
          if is_positive slot
          then answer prev (moved prev window quiet prev.cooldown_remaining (some (open_active at)))
              opened none
          else answer prev (moved prev window quiet prev.cooldown_remaining none) no_change none
    ]

pub evaluate_baseline : TypedState → RuleConfig → TypedResult
evaluate_baseline prev config = elim prev.alert [
  | none ↦ answer prev (record prev { quiet_count = 0 }) no_change none
  | some _ ↦
      answer prev (moved prev [] 0 config.cooldown none) resolved_baseline (some baseline_reset)
]

-- The restart-loop branch, where `healthy` is the code's test of a healthy sample.
pub evaluate_restart_loop : TypedState → String → Slot → Bool → RuleConfig → TypedResult
unfolding quiet_active
evaluate_restart_loop prev at slot healthy config =
    let window = slide_window prev slot config.window_size in
    let quiet = quiet_after prev slot in
    elim prev.alert [
      | some a ↦ quiet_active prev a at slot window quiet (healthy && leb 3 quiet) config.cooldown
      | none ↦
          if ltb 0 prev.cooldown_remaining
          then answer prev (moved prev window quiet (prev.cooldown_remaining - 1) none) no_change
              none
          else if leb config.open_count (count_if is_positive window)
          then answer prev (moved prev window quiet prev.cooldown_remaining (some (open_active at)))
              opened none
          else answer prev (moved prev window quiet prev.cooldown_remaining none) no_change none
    ]

pub evaluate_removed : TypedState → TypedResult
evaluate_removed prev = elim prev.alert [
  | none ↦ answer prev prev no_change none
  | some _ ↦
      answer prev (moved prev prev.window 0 0 none) resolved_container_removed
        (some container_removed)
]

-- `signal === "positive" ? "positive" : "negative"`
abbrev pub binary_slot : Signal → Slot
binary_slot Signal.positive = positive
binary_slot _ = negative

abbrev pub threshold_slot : Signal → Slot
threshold_slot Signal.positive = positive
threshold_slot Signal.neutral = neutral
threshold_slot _ = negative

-- The event-gap rule on a signal.
pub gap_step : TypedState → String → Signal → RuleConfig → TypedResult
unfolding evaluate_event_gap evaluate_baseline
gap_step prev at baseline config = evaluate_baseline prev config
gap_step prev at signal config = evaluate_event_gap prev at (binary_slot signal) config

-- The other rules on a signal of their own container or host.
pub rule_step : RuleKind → TypedState → String → Bool → Signal → RuleConfig → TypedResult
unfolding evaluate_restart_loop evaluate_simple_threshold evaluate_removed frozen_alert_result
rule_step kind prev at healthy removed config = evaluate_removed prev
rule_step kind prev at healthy baseline config = frozen_alert_result prev
rule_step container_restart_loop prev at healthy signal config =
    evaluate_restart_loop prev at (binary_slot signal) healthy config
rule_step _ prev at healthy signal config =
    evaluate_simple_threshold prev at (threshold_slot signal) config

module _ {R : Type 0} (n : Ratios R) (is_valid_date : String → Bool) where
  pub dated : String → TypedResult → Outcome Error TypedResult
  dated at r = if is_valid_date at then ok r else err invalid_observed_at

  -- `evaluateDockerAlert` on an observation that is there, with its signal.
  pub evaluate_signal :
      RuleKind → TypedState → Observation R → Option Signal → Outcome Error TypedResult
  unfolding gap_step rule_step dated
  evaluate_signal kind prev o none = ok (frozen_alert_result prev)
  evaluate_signal docker_event_gap prev o (some signal) =
      dated o.observed_at (gap_step prev o.observed_at signal (docker_alert_rules docker_event_gap))
  evaluate_signal kind prev o (some signal) =
      if identity_matches prev o
      then dated o.observed_at (
          rule_step kind prev o.observed_at (is_true o.healthy_sample || is_healthy o.health) signal
            (docker_alert_rules kind))
      else ok (frozen_alert_result prev)

  -- evaluateDockerAlert
  unfoldable pub evaluate : TypedState → Option (Observation R) → Outcome Error TypedResult
  unfolding evaluate_signal frozen_alert_result
  evaluate prev none = ok (frozen_alert_result prev)
  evaluate prev (some o) =
      evaluate_signal prev.rule_kind prev o (classify n is_valid_date prev.rule_kind o)
