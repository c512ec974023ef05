-- ===== src/Alerts/Typed/Clearing.antt =====
-- Which observations cannot clear an alert of their rule
-- (packages/api/src/docker/docker-alert-evaluator.ts).
use vps_manager_nodejs.Prelude.{
  String, Bool, false, ◌||◌, none, some, ◌≡◌, ◌≢◌, refl, sym, ap, ◌∙◌, subst, ◌⊎◌, inl, inr, arith,
  is_true, ok, ok-eq,
}
use vps_manager_nodejs.Alerts.Evidence.{
  RuleKind, container_restart_loop, container_unhealthy, docker_event_gap, positive, Ratios,
  Observation, RuleConfig, docker_alert_rules, is_healthy, classify,
}
use vps_manager_nodejs.Alerts.RuleState.{
  Slot, resolved, TypedState, TypedResult, frozen_alert_result,
}
use vps_manager_nodejs.Alerts.Typed.{
  evaluate_restart_loop, evaluate_removed, gap_step, evaluate_signal, evaluate,
}
use vps_manager_nodejs.Alerts.Typed.Rules.{rule_step-cases, signal-cases, dated-eq-ok}
use vps_manager_nodejs.Alerts.Typed.Cooldown.{container_unhealthy_never_clears}

-- An answer that does not report the condition as cleared.
abbrev NotCleared : TypedResult → Type 0
NotCleared r = r.transition ≢ resolved

loop-NotCleared :
    (prev : TypedState) (at : String) (slot : Slot) (config : RuleConfig)
    → NotCleared (evaluate_restart_loop prev at slot false config)
unfolding evaluate_restart_loop
loop-NotCleared prev at slot config = ground arith

removed-NotCleared : (prev : TypedState) → NotCleared (evaluate_removed prev)
unfolding evaluate_removed
removed-NotCleared prev = ground arith

gap-NotCleared :
    (prev : TypedState) (at : String) (config : RuleConfig)
    → NotCleared (gap_step prev at positive config)
unfolding gap_step
gap-NotCleared prev at config = ground arith

frozen-NotCleared : (prev : TypedState) → NotCleared (frozen_alert_result prev)
unfolding frozen_alert_result
frozen-NotCleared prev = cc

module _ {R : Type 0} (n : Ratios R) (is_valid_date : String → Bool) where
  -- No state of the rule is cleared by the observation.
  abbrev pub CannotClear : RuleKind → Observation R → Type 0
  CannotClear kind o =
      (prev : TypedState) (r : TypedResult)
      → prev.rule_kind ≡ kind
      → evaluate n is_valid_date prev (some o) ≡ ok r
      → r.transition ≢ resolved

  pub loop-CannotClear :
      (o : Observation R)
      → (is_true o.healthy_sample || is_healthy o.health) ≡ false
      → CannotClear container_restart_loop o
  unfolding evaluate
  loop-CannotClear o unhealthy prev r is_loop returned =
      signal-cases NotCleared prev n is_valid_date container_restart_loop o
        (classify n is_valid_date container_restart_loop o) r (frozen-NotCleared prev)
        (λ is_gap s. absurd (not_gap is_gap))
        (λ _ _ s.
          rule_step-cases NotCleared prev container_restart_loop o.observed_at
            (is_true o.healthy_sample || is_healthy o.health) s
            (docker_alert_rules container_restart_loop) (removed-NotCleared prev)
            (frozen-NotCleared prev)
            (λ _ slot.
              rw (unhealthy) (
                loop-NotCleared prev o.observed_at slot
                  (docker_alert_rules container_restart_loop)))
            (λ other slot. absurd (other refl)))
        (subst (λ k. evaluate_signal n is_valid_date k prev o (classify n is_valid_date k o) ≡ ok r)
          is_loop returned)
    where
      not_gap : container_restart_loop ≡ docker_event_gap → ⊥
      not_gap is_gap = cc

  -- An observation that gives no signal of its rule.
  pub mute-CannotClear :
      (kind : RuleKind) (o : Observation R)
      → classify n is_valid_date kind o ≡ none
      → CannotClear kind o
  unfolding evaluate
  mute-CannotClear kind o mute prev r is_kind returned =
      subst NotCleared
        (ok-eq (
          ap (evaluate_signal n is_valid_date prev.rule_kind prev o)
            (sym (ap (λ k. classify n is_valid_date k o) is_kind ∙ mute))
          ∙ returned))
        (frozen-NotCleared prev)

  pub gap-CannotClear :
      (o : Observation R)
      → (classify n is_valid_date docker_event_gap o ≡ none)
        ⊎ (classify n is_valid_date docker_event_gap o ≡ some positive)
      → CannotClear docker_event_gap o
  unfolding evaluate evaluate_signal
  gap-CannotClear o (inl mute) prev r is_gap returned =
      mute-CannotClear docker_event_gap o mute prev r is_gap returned
  gap-CannotClear o (inr gap) prev r is_gap returned =
      subst NotCleared
        (dated-eq-ok NotCleared prev n is_valid_date o.observed_at _ r (
          subst (λ x. evaluate_signal n is_valid_date docker_event_gap prev o x ≡ ok r) gap
            (subst
              (λ k. evaluate_signal n is_valid_date k prev o (classify n is_valid_date k o) ≡ ok r)
              is_gap returned)))
        (gap-NotCleared prev o.observed_at (docker_alert_rules docker_event_gap))

  pub unhealthy-CannotClear : (o : Observation R) → CannotClear container_unhealthy o
  unhealthy-CannotClear o prev r is_unhealthy returned =
      (container_unhealthy_never_clears n is_valid_date prev (some o) r is_unhealthy returned).0
