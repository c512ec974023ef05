-- ===== src/Alerts/Typed/Rules/Effect.antt =====
-- The meaning of a transition of `evaluateDockerAlert`
-- (packages/api/src/docker/docker-alert-evaluator.ts), and the invariant of a rule's state.
use vps_manager_nodejs.Prelude.{◌+◌, ◌≡◌, refl, String, Bool, Option, none, some, arith, ok}
use vps_manager_nodejs.Alerts.Evidence.{
  docker_event_gap, Ratios, Observation, RuleConfig, docker_alert_rules,
}
use vps_manager_nodejs.Alerts.RuleState.{
  Slot, AlertState, open_alert, acknowledged, ActiveAlert, Transition, opened, persisted,
  acknowledged_persisted, resolved, resolved_container_removed, resolved_baseline, no_change,
  frozen, Resolution, condition_cleared, container_removed, baseline_reset, TypedState, TypedResult,
  frozen_alert_result,
}
use vps_manager_nodejs.Alerts.Typed.{
  evaluate_simple_threshold, evaluate_event_gap, evaluate_baseline, evaluate_restart_loop,
  evaluate_removed, evaluate,
}
use vps_manager_nodejs.Alerts.Typed.Rules.{gap_step-cases, rule_step-cases, evaluate-cases}

-- An alert seen once more: still in `state`, with one more occurrence.
abbrev Persists : AlertState → Option ActiveAlert → Option ActiveAlert → Type 0
Persists state (some a) (some b) =
    (a.state ≡ state)
    × (b.state ≡ state)
    × (b.opened_at ≡ a.opened_at)
    × (b.occurrences ≡ a.occurrences + 1)
    × (b.acknowledged_by ≡ a.acknowledged_by)
Persists state _ _ = ⊥

abbrev Opens : Option ActiveAlert → Option ActiveAlert → Type 0
Opens none (some b) = (b.state ≡ open_alert) × (b.occurrences ≡ 1) × (b.acknowledged_by ≡ none)
Opens _ _ = ⊥

abbrev Ends : Option ActiveAlert → Option ActiveAlert → Type 0
Ends (some a) none = Unit
Ends _ _ = ⊥

-- What each transition says of the alert before and after, and of the resolution.
abbrev pub Says : Transition → Option Resolution → Option ActiveAlert → Option ActiveAlert → Type 0
Says opened why before after = (why ≡ none) × Opens before after
Says persisted why before after = (why ≡ none) × Persists open_alert before after
Says acknowledged_persisted why before after = (why ≡ none) × Persists acknowledged before after
Says resolved why before after = (why ≡ some condition_cleared) × Ends before after
Says resolved_container_removed why before after =
    (why ≡ some container_removed) × Ends before after
Says resolved_baseline why before after = (why ≡ some baseline_reset) × Ends before after
Says no_change why before after = (why ≡ none) × (before ≡ after)
Says frozen why before after = (why ≡ none) × (before ≡ after)

abbrev IsTruthful : TypedState → TypedResult → Type 0
IsTruthful prev r = Says r.transition r.resolution prev.alert r.next.alert

simple-IsTruthful :
    (prev : TypedState) (at : String) (slot : Slot) (config : RuleConfig)
    → IsTruthful prev (evaluate_simple_threshold prev at slot config)
unfolding evaluate_simple_threshold
simple-IsTruthful prev at slot config = ground arith

gap-IsTruthful :
    (prev : TypedState) (at : String) (slot : Slot) (config : RuleConfig)
    → IsTruthful prev (evaluate_event_gap prev at slot config)
unfolding evaluate_event_gap
gap-IsTruthful prev at slot config = ground arith

loop-IsTruthful :
    (prev : TypedState) (at : String) (slot : Slot) (healthy : Bool) (config : RuleConfig)
    → IsTruthful prev (evaluate_restart_loop prev at slot healthy config)
unfolding evaluate_restart_loop
loop-IsTruthful prev at slot healthy config = ground arith

baseline-IsTruthful :
    (prev : TypedState) (config : RuleConfig) → IsTruthful prev (evaluate_baseline prev config)
unfolding evaluate_baseline
baseline-IsTruthful prev config = ground arith

removed-IsTruthful : (prev : TypedState) → IsTruthful prev (evaluate_removed prev)
unfolding evaluate_removed
removed-IsTruthful prev = ground arith

frozen-IsTruthful : (prev : TypedState) → IsTruthful prev (frozen_alert_result prev)
unfolding frozen_alert_result
frozen-IsTruthful prev = (refl, refl)

module _ {R : Type 0} (n : Ratios R) (is_valid_date : String → Bool) where
  -- On every branch of every rule the transition and the resolution that a call reports say what
  -- became of the alert: opened from none with one occurrence, persisted in its own state with one
  -- occurrence more, ended for the reason given, or left as it was.
  pub evaluate-IsTruthful :
      (prev : TypedState) (o : Option (Observation R)) (r : TypedResult)
      → evaluate n is_valid_date prev o ≡ ok r
      → Says r.transition r.resolution prev.alert r.next.alert
  evaluate-IsTruthful prev o r e =
      evaluate-cases (IsTruthful prev) prev n is_valid_date o r (frozen-IsTruthful prev)
        (λ _ at s.
          gap_step-cases (IsTruthful prev) prev at s _
            (baseline-IsTruthful prev (docker_alert_rules docker_event_gap))
            (λ slot. gap-IsTruthful prev at slot (docker_alert_rules docker_event_gap)))
        (λ _ at healthy s.
          rule_step-cases (IsTruthful prev) prev prev.rule_kind at healthy s _
            (removed-IsTruthful prev) (frozen-IsTruthful prev)
            (λ _ slot. loop-IsTruthful prev at slot healthy (docker_alert_rules prev.rule_kind))
            (λ _ slot. simple-IsTruthful prev at slot (docker_alert_rules prev.rule_kind)))
        e
