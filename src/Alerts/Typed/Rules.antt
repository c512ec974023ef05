-- ===== src/Alerts/Typed/Rules.antt =====
-- What one call of `evaluateDockerAlert` (packages/api/src/docker/docker-alert-evaluator.ts) may do,
-- on every branch: proofs by cases on the branch that answered.
pub mod Effect
pub mod Sound
use vps_manager_nodejs.Prelude.{
  ◌≡◌, refl, subst, ◌≢◌, String, Bool, true, false, ◌||◌, inl, inr, Option, none, some, arith,
  is_true, ok, Bool-cases, Option-cases,
}
use vps_manager_nodejs.Alerts.Evidence.{
  RuleKind, container_unhealthy, container_restart_loop, container_cpu_high, container_memory_high,
  docker_storage_pressure, docker_event_gap, Signal, positive, negative, neutral, removed, baseline,
  Ratios, Observation, RuleConfig, docker_alert_rules, is_healthy, classify,
}
use vps_manager_nodejs.Alerts.RuleState.{
  Slot, TypedState, TypedResult, frozen_alert_result, identity_matches,
}
use vps_manager_nodejs.Alerts.Typed.{
  evaluate_simple_threshold, evaluate_event_gap, evaluate_baseline, evaluate_restart_loop,
  evaluate_removed, binary_slot, threshold_slot, dated, gap_step, rule_step, evaluate_signal,
  evaluate,
}

module _ {ℓ} (P : TypedResult → Type ℓ) (prev : TypedState) where
  pub gap_step-cases :
      (at : String) (signal : Signal) (config : RuleConfig)
      → P (evaluate_baseline prev config)
      → ((slot : Slot) → P (evaluate_event_gap prev at slot config))
      → P (gap_step prev at signal config)
  unfolding gap_step
  gap_step-cases at baseline config reset other = reset
  gap_step-cases at signal config reset other = other (binary_slot signal)

  pub rule_step-cases :
      (kind : RuleKind) (at : String) (healthy : Bool) (signal : Signal) (config : RuleConfig)
      → P (evaluate_removed prev)
      → P (frozen_alert_result prev)
      → (kind ≡ container_restart_loop
          → (slot : Slot) → P (evaluate_restart_loop prev at slot healthy config))
      → (kind ≢ container_restart_loop
          → (slot : Slot) → P (evaluate_simple_threshold prev at slot config))
      → P (rule_step kind prev at healthy signal config)
  unfolding rule_step
  rule_step-cases kind at healthy removed config gone held loop simple = gone
  rule_step-cases kind at healthy baseline config gone held loop simple = held
  rule_step-cases container_restart_loop at healthy signal config gone held loop simple =
      loop refl (binary_slot signal)
  rule_step-cases _ at healthy signal config gone held loop simple =
      simple (cc) (threshold_slot signal)

  module _ {R : Type 0} (n : Ratios R) (is_valid_date : String → Bool) where
    pub dated-eq-ok : (at : String) (x r : TypedResult) → dated n is_valid_date at x ≡ ok r → x ≡ r
    unfolding dated
    dated-eq-ok at x r e = ground arith

    pub signal-cases :
        (kind : RuleKind) (o : Observation R) (signal : Option Signal) (r : TypedResult)
        → P (frozen_alert_result prev)
        → (kind ≡ docker_event_gap
            → (s : Signal)
            → P (gap_step prev o.observed_at s (docker_alert_rules docker_event_gap)))
        → (kind ≢ docker_event_gap
            → identity_matches prev o ≡ true
            → (s : Signal)
            → P (
                rule_step kind prev o.observed_at
                  (is_true o.healthy_sample || is_healthy o.health)
                  s
                  (docker_alert_rules kind)))
        → evaluate_signal n is_valid_date kind prev o signal ≡ ok r
        → P r
    unfolding evaluate_signal
    signal-cases kind o none r held gap rule e = subst P (cc) held
    signal-cases docker_event_gap o (some s) r held gap rule e =
        subst P (dated-eq-ok o.observed_at _ r e) (gap refl s)
    signal-cases kind o (some s) r held gap rule e = elim (Bool-cases (identity_matches prev o)) [
      | inl own ↦ subst P (dated-eq-ok o.observed_at _ r (ground arith)) (rule (cc) own s)
      | inr other ↦ subst P (ground arith) held
    ]

    -- Whatever holds of the frozen answer and of the answers of both kinds of rule holds of every
    -- answer that `evaluate` gives.
    pub evaluate-cases :
        (o : Option (Observation R)) (r : TypedResult)
        → P (frozen_alert_result prev)
        → (prev.rule_kind ≡ docker_event_gap
            → (at : String) (s : Signal)
            → P (gap_step prev at s (docker_alert_rules docker_event_gap)))
        → (prev.rule_kind ≢ docker_event_gap
            → (at : String) (healthy : Bool) (s : Signal)
            → P (rule_step prev.rule_kind prev at healthy s (docker_alert_rules prev.rule_kind)))
        → evaluate n is_valid_date prev o ≡ ok r
        → P r
    unfolding evaluate
    evaluate-cases none r held gap rule e = subst P (cc) held
    evaluate-cases (some o) r held gap rule e =
        signal-cases prev.rule_kind o (classify n is_valid_date prev.rule_kind o) r held
          (λ k s. gap k o.observed_at s)
          (λ k _ s. rule k o.observed_at (is_true o.healthy_sample || is_healthy o.health) s) e
