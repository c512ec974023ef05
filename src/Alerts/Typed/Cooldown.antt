-- ===== src/Alerts/Typed/Cooldown.antt =====
-- When `evaluateDockerAlert` (packages/api/src/docker/docker-alert-evaluator.ts) may open an alert,
-- when it may not, and what two of its rules do against their description.
use vps_manager_nodejs.Prelude.{
  ◌≤◌, ◌≡◌, refl, ◌≢◌, String, Bool, true, List, [], ◌∷◌, Option, none, some, arith, length,
  Outcome, ok, ◌>>=◌, >>=-eq-ok, sym, subst,
}
use vps_manager_nodejs.Alerts.Evidence.{
  RuleKind, container_unhealthy, container_restart_loop, docker_event_gap, Signal, Ratios,
  Observation, RuleConfig, docker_alert_rules, classify, classify_event_gap,
}
use vps_manager_nodejs.Alerts.RuleState.{
  Error, opened, resolved, resolved_container_removed, TypedState, TypedResult,
}
use vps_manager_nodejs.Alerts.Typed.{evaluate, rule_step, gap_step, evaluate_signal}
use vps_manager_nodejs.Alerts.Typed.Rules.{rule_step-cases, evaluate-cases}
use vps_manager_nodejs.Alerts.Typed.Branches.{
  IsEarned, Earned, simple-Earned, loop-Earned, removed-Earned, frozen-Earned, Waits, simple-Waits,
  loop-Waits, removed-Waits, frozen-Waits, Cools, simple-Cools, loop-Cools, removed-Cools,
  frozen-Cools, Stuck, simple-Stuck, removed-Stuck, frozen-Stuck,
}

module _ {R : Type 0} (n : Ratios R) (is_valid_date : String → Bool) where
  -- Each result's `next` is the state of the next call.
  unfoldable pub run : TypedState → List (Option (Observation R)) → Outcome Error TypedState
  run s [] = ok s
  run s (o ∷ os) = do r ← evaluate n is_valid_date s o; run r.next os

  -- Every rule but the event gap opens an alert only where none stands, after its cooldown, and over
  -- a window that holds its number of positive signals.
  pub evaluate-IsEarned :
      (prev : TypedState) (o : Option (Observation R)) (r : TypedResult)
      → prev.rule_kind ≢ docker_event_gap
      → evaluate n is_valid_date prev o ≡ ok r
      → r.transition ≡ opened
      → IsEarned prev (docker_alert_rules prev.rule_kind) r
  evaluate-IsEarned prev o r other e =
      let config = docker_alert_rules prev.rule_kind in
      evaluate-cases (Earned prev config) prev n is_valid_date o r (frozen-Earned prev config)
        (λ is_gap at s. absurd (other is_gap))
        (λ _ at healthy s.
          rule_step-cases (Earned prev config) prev prev.rule_kind at healthy s config
            (removed-Earned prev config) (frozen-Earned prev config)
            (λ _ slot. loop-Earned prev at slot healthy config)
            (λ _ slot. simple-Earned prev at slot config))
        e

  evaluate-Waits :
      (prev : TypedState) (o : Option (Observation R)) (r : TypedResult)
      → prev.rule_kind ≢ docker_event_gap
      → evaluate n is_valid_date prev o ≡ ok r
      → Waits prev r
  evaluate-Waits prev o r other e =
      evaluate-cases (Waits prev) prev n is_valid_date o r (frozen-Waits prev)
        (λ is_gap at s. absurd (other is_gap))
        (λ _ at healthy s.
          rule_step-cases (Waits prev) prev prev.rule_kind at healthy s _ (removed-Waits prev)
            (frozen-Waits prev) (λ _ slot. loop-Waits prev at slot healthy _)
            (λ _ slot. simple-Waits prev at slot _))
        e

  evaluate-Cools :
      (prev : TypedState) (o : Option (Observation R)) (r : TypedResult)
      → prev.rule_kind ≢ docker_event_gap
      → evaluate n is_valid_date prev o ≡ ok r
      → Cools prev (docker_alert_rules prev.rule_kind) r
  evaluate-Cools prev o r other e =
      let config = docker_alert_rules prev.rule_kind in
      evaluate-cases (Cools prev config) prev n is_valid_date o r (frozen-Cools prev config)
        (λ is_gap at s. absurd (other is_gap))
        (λ _ at healthy s.
          rule_step-cases (Cools prev config) prev prev.rule_kind at healthy s config
            (removed-Cools prev config) (frozen-Cools prev config)
            (λ _ slot. loop-Cools prev at slot healthy config)
            (λ _ slot. simple-Cools prev at slot config))
        e

  run_cooling :
      (s t : TypedState) (os : List (Option (Observation R)))
      → s.rule_kind ≢ docker_event_gap
      → s.alert ≡ none
      → length os ≤ s.cooldown_remaining
      → run s os ≡ ok t
      → t.alert ≡ none
  unfolding run
  run_cooling s t [] other idle short e = ground arith
  run_cooling s t (o ∷ os) other idle short e =
      let (r, first, rest) = >>=-eq-ok (evaluate n is_valid_date s o) (λ r. run r.next os) e in
      let (same, fell, waits) = evaluate-Waits s o r other first idle in
      run_cooling r.next t os (rw same other) (waits (omega arith)) (omega arith) rest

  cooldown_of_rule :
      (kind : RuleKind) → kind ≢ docker_event_gap → (docker_alert_rules kind).cooldown ≡ 2
  cooldown_of_rule docker_event_gap other = absurd (other refl)
  cooldown_of_rule container_unhealthy other = refl
  cooldown_of_rule _ other = refl

  -- Once a rule other than the event gap has cleared its alert, no history of one or two further
  -- observations ends with an alert, whatever they report.
  pub no_flapping :
      (prev : TypedState) (o : Option (Observation R)) (r : TypedResult)
      (os : List (Option (Observation R))) (t : TypedState)
      → prev.rule_kind ≢ docker_event_gap
      → evaluate n is_valid_date prev o ≡ ok r
      → r.transition ≡ resolved
      → length os ≤ 2
      → run r.next os ≡ ok t
      → t.alert ≡ none
  no_flapping prev o r os t other e cleared short ran =
      let (starts, same) = evaluate-Cools prev o r other e in
      let (full, idle) = starts cleared in
      run_cooling r.next t os (rw same other) idle
        (omega (arith, cooldown_of_rule prev.rule_kind other)) ran

  -- An alert of `container_unhealthy` never clears: its rule cuts the window to one signal and wants
  -- three negative ones, so no call reports `resolved`, and a standing alert ends only when the
  -- container is removed.
  pub container_unhealthy_never_clears :
      (prev : TypedState) (o : Option (Observation R)) (r : TypedResult)
      → prev.rule_kind ≡ container_unhealthy
      → evaluate n is_valid_date prev o ≡ ok r
      → (r.transition ≢ resolved)
        × (prev.alert ≢ none → r.next.alert ≡ none → r.transition ≡ resolved_container_removed)
  container_unhealthy_never_clears prev o r is_unhealthy e =
      evaluate-cases (Stuck prev) prev n is_valid_date o r (frozen-Stuck prev)
        (λ is_gap at s. absurd (not_both is_gap))
        (λ _ at healthy s.
          subst (λ k. Stuck prev (rule_step k prev at healthy s (docker_alert_rules k)))
            (sym is_unhealthy)
            (rule_step-cases (Stuck prev) prev container_unhealthy at healthy s
              (docker_alert_rules container_unhealthy) (removed-Stuck prev) (frozen-Stuck prev)
              (λ is_loop slot. absurd (not_loop is_loop)) (λ _ slot. simple-Stuck prev at slot)))
        e
    where
      not_both : prev.rule_kind ≡ docker_event_gap → ⊥
      not_both is_gap = cc

      not_loop : container_unhealthy ≡ container_restart_loop → ⊥
      not_loop is_loop = cc

  gap_step_opens :
      (prev : TypedState) (at : String) (config : RuleConfig)
      → prev.alert ≡ none
      → ((gap_step prev at Signal.positive config).transition ≡ opened)
        × ((gap_step prev at Signal.positive config).next.vps_id ≡ prev.vps_id)
  unfolding gap_step
  gap_step_opens prev at config idle = ground arith

  gap_signal_opens :
      (prev : TypedState) (o : Observation R)
      → is_valid_date o.observed_at ≡ true
      → classify_event_gap is_valid_date o ≡ some Signal.positive
      → evaluate_signal n is_valid_date docker_event_gap prev o
          (classify n is_valid_date docker_event_gap o)
        ≡ ok (gap_step prev o.observed_at Signal.positive (docker_alert_rules docker_event_gap))
  unfolding evaluate_signal classify
  gap_signal_opens prev o dated_at seen = rw (seen) (ground arith)

  -- The event-gap rule takes the evidence of any server: an observation of another server that
  -- reports a gap opens the alert of this one.
  pub event_gap_takes_foreign_evidence :
      (prev : TypedState) (o : Observation R)
      → prev.rule_kind ≡ docker_event_gap
      → prev.alert ≡ none
      → o.vps_id ≢ prev.vps_id
      → is_valid_date o.observed_at ≡ true
      → classify_event_gap is_valid_date o ≡ some Signal.positive
      → (r : TypedResult) × (evaluate n is_valid_date prev (some o) ≡ ok r)
        × (r.transition ≡ opened)
        × (r.next.vps_id ≡ prev.vps_id)
  unfolding evaluate
  event_gap_takes_foreign_evidence prev o is_gap idle foreign dated_at seen =
      let config = docker_alert_rules docker_event_gap in
      let r = gap_step prev o.observed_at Signal.positive config in
      let (opens, same) = gap_step_opens prev o.observed_at config idle in
      (
        r,
        subst (λ k. evaluate_signal n is_valid_date k prev o (classify n is_valid_date k o) ≡ ok r)
            (sym is_gap) (gap_signal_opens prev o dated_at seen),
        opens,
        same,
      )
