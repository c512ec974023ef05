-- ===== src/Alerts/Typed/Rules/Sound.antt =====
-- The invariant of the state of a typed alert rule, kept by `evaluateDockerAlert`
-- (packages/api/src/docker/docker-alert-evaluator.ts).
use vps_manager_nodejs.Prelude.{
  ℕ, ◌≤◌, ◌≡◌, refl, String, Bool, [], ◌∷◌, ◌++◌, Option, none, some, arith, length,
  length-take_last, ok, ap, subst,
}
use vps_manager_nodejs.Alerts.Evidence.{
  docker_event_gap, Ratios, Observation, RuleConfig, docker_alert_rules,
}
use vps_manager_nodejs.Alerts.RuleState.{
  Slot, ActiveAlert, TypedState, TypedResult, frozen_alert_result, slide_window,
}
use vps_manager_nodejs.Alerts.Typed.{
  evaluate_simple_threshold, evaluate_event_gap, evaluate_baseline, evaluate_restart_loop, gap_step,
  evaluate_removed, evaluate,
}
use vps_manager_nodejs.Alerts.Typed.Rules.{gap_step-cases, rule_step-cases, evaluate-cases}

-- No cooldown runs under an alert.
abbrev pub CoolsOnlyIdle : Option ActiveAlert → ℕ → Type 0
CoolsOnlyIdle none cooldown = Unit
CoolsOnlyIdle (some a) cooldown = cooldown ≡ 0

pub record IsSound (s : TypedState) : Type 0 where
  pub bounded : length s.window ≤ (docker_alert_rules s.rule_kind).window_size
  pub cooling : s.cooldown_remaining ≤ (docker_alert_rules s.rule_kind).cooldown
  pub idle : CoolsOnlyIdle s.alert s.cooldown_remaining

-- The same relative to the rule that answers, with what a step leaves alone.
record Keeps (prev : TypedState) (config : RuleConfig) (r : TypedResult) : Type 0 where
  bounded : length r.next.window ≤ config.window_size
  cooling : r.next.cooldown_remaining ≤ config.cooldown
  idle : CoolsOnlyIdle r.next.alert r.next.cooldown_remaining
  kind : r.next.rule_kind ≡ prev.rule_kind
  vps : r.next.vps_id ≡ prev.vps_id
  instance : r.next.agent_instance_id ≡ prev.agent_instance_id
  container : r.next.container_key ≡ prev.container_key

module _ (prev : TypedState) (config : RuleConfig)
    (bounded : length prev.window ≤ config.window_size)
    (cooling : prev.cooldown_remaining ≤ config.cooldown)
    (idle : CoolsOnlyIdle prev.alert prev.cooldown_remaining) where
  slid : (slot : Slot) → length (slide_window prev slot config.window_size) ≤ config.window_size
  slid slot = omega (arith, length-take_last config.window_size (prev.window ++ slot ∷ []))

  simple-Keeps :
      (at : String) (slot : Slot)
      → Keeps prev config (evaluate_simple_threshold prev at slot config)
  unfolding evaluate_simple_threshold
  simple-Keeps at slot = ground (arith, slid slot)

  loop-Keeps :
      (at : String) (slot : Slot) (healthy : Bool)
      → Keeps prev config (evaluate_restart_loop prev at slot healthy config)
  unfolding evaluate_restart_loop
  loop-Keeps at slot healthy = ground (arith, slid slot)

  removed-Keeps : Keeps prev config (evaluate_removed prev)
  unfolding evaluate_removed
  removed-Keeps = ground arith

  frozen-Keeps : Keeps prev config (frozen_alert_result prev)
  unfolding frozen_alert_result
  frozen-Keeps = ground arith

  gap-Keeps :
      (at : String) (slot : Slot)
      → config.cooldown ≡ 0
      → Keeps prev config (evaluate_event_gap prev at slot config)
  unfolding evaluate_event_gap
  gap-Keeps at slot none_left = ground (arith, slid slot)

  baseline-Keeps : config.cooldown ≡ 0 → Keeps prev config (evaluate_baseline prev config)
  unfolding evaluate_baseline
  baseline-Keeps none_left = ground arith

Keeps-IsSound :
    (prev : TypedState) (r : TypedResult)
    → Keeps prev (docker_alert_rules prev.rule_kind) r
    → IsSound r.next
Keeps-IsSound prev r k = record {
  bounded = rw k.kind k.bounded;
  cooling = rw k.kind k.cooling;
  idle = k.idle;
}

module _ {R : Type 0} (n : Ratios R) (is_valid_date : String → Bool) where
  evaluate-Keeps :
      (prev : TypedState) (o : Option (Observation R)) (r : TypedResult)
      → IsSound prev
      → evaluate n is_valid_date prev o ≡ ok r
      → Keeps prev (docker_alert_rules prev.rule_kind) r
  evaluate-Keeps prev o r v e =
      let config = docker_alert_rules prev.rule_kind in
      evaluate-cases (Keeps prev config) prev n is_valid_date o r
        (frozen-Keeps prev config v.bounded v.cooling v.idle)
        (λ is_gap at s.
          let gap_rule : config ≡ docker_alert_rules docker_event_gap =
            ap docker_alert_rules is_gap in
          let none_left : config.cooldown ≡ 0 = rw is_gap refl in
          subst (λ c. Keeps prev config (gap_step prev at s c)) gap_rule
            (gap_step-cases (Keeps prev config) prev at s config
              (baseline-Keeps prev config v.bounded v.cooling v.idle none_left)
              (λ slot. gap-Keeps prev config v.bounded v.cooling v.idle at slot none_left)))
        (λ _ at healthy s.
          rule_step-cases (Keeps prev config) prev prev.rule_kind at healthy s config
            (removed-Keeps prev config v.bounded v.cooling v.idle)
            (frozen-Keeps prev config v.bounded v.cooling v.idle)
            (λ _ slot. loop-Keeps prev config v.bounded v.cooling v.idle at slot healthy)
            (λ _ slot. simple-Keeps prev config v.bounded v.cooling v.idle at slot))
        e

  -- Every call that returns keeps the state of a rule sound: a window no longer than the rule's, a
  -- cooldown no longer than the rule's, and none running under an alert; and it never changes which
  -- rule, server, agent or container the state is about.
  pub evaluate-IsSound :
      (prev : TypedState) (o : Option (Observation R)) (r : TypedResult)
      → IsSound prev
      → evaluate n is_valid_date prev o ≡ ok r
      → IsSound r.next
        × (r.next.rule_kind ≡ prev.rule_kind)
        × (r.next.vps_id ≡ prev.vps_id)
        × (r.next.agent_instance_id ≡ prev.agent_instance_id)
        × (r.next.container_key ≡ prev.container_key)
  evaluate-IsSound prev o r v e =
      let k = evaluate-Keeps prev o r v e in
      (Keeps-IsSound prev r k, k.kind, k.vps, k.instance, k.container)
