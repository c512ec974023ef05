-- ===== src/Alerts/Typed/Branches.antt =====
-- Facts about each branch of `evaluateDockerAlert`
-- (packages/api/src/docker/docker-alert-evaluator.ts): openings, cooldowns and endings.
use vps_manager_nodejs.Prelude.{
  ◌+◌, ◌≤◌, ◌≡◌, refl, ◌≢◌, String, Bool, [], ◌∷◌, ◌++◌, none, arith, length-take_last, count_if,
}
use vps_manager_nodejs.Alerts.Evidence.{container_unhealthy, RuleConfig, docker_alert_rules}
use vps_manager_nodejs.Alerts.RuleState.{
  Slot, opened, resolved, resolved_container_removed, TypedState, TypedResult, frozen_alert_result,
  is_positive,
}
use vps_manager_nodejs.Alerts.Typed.{
  evaluate_simple_threshold, evaluate_restart_loop, evaluate_removed,
}

-- What an opening needs, but for the event gap.
pub record IsEarned (prev : TypedState) (config : RuleConfig) (r : TypedResult) : Type 0 where
  pub idle : prev.alert ≡ none
  pub cooled : prev.cooldown_remaining ≡ 0
  pub enough : config.open_count ≤ count_if is_positive r.next.window

abbrev pub Earned : TypedState → RuleConfig → TypedResult → Type 0
Earned prev config r = r.transition ≡ opened → IsEarned prev config r

pub simple-Earned :
    (prev : TypedState) (at : String) (slot : Slot) (config : RuleConfig)
    → Earned prev config (evaluate_simple_threshold prev at slot config)
unfolding evaluate_simple_threshold
simple-Earned prev at slot config = ground arith

pub loop-Earned :
    (prev : TypedState) (at : String) (slot : Slot) (healthy : Bool) (config : RuleConfig)
    → Earned prev config (evaluate_restart_loop prev at slot healthy config)
unfolding evaluate_restart_loop
loop-Earned prev at slot healthy config = ground arith

pub removed-Earned :
    (prev : TypedState) (config : RuleConfig) → Earned prev config (evaluate_removed prev)
unfolding evaluate_removed
removed-Earned prev config = ground arith

pub frozen-Earned :
    (prev : TypedState) (config : RuleConfig) → Earned prev config (frozen_alert_result prev)
unfolding frozen_alert_result
frozen-Earned prev config = ground arith

-- While a cooldown runs with no alert, none opens and the cooldown falls by one at most.
abbrev pub Waits : TypedState → TypedResult → Type 0
Waits prev r =
    prev.alert ≡ none
    → (r.next.rule_kind ≡ prev.rule_kind)
      × (prev.cooldown_remaining ≤ r.next.cooldown_remaining + 1)
      × (1 ≤ prev.cooldown_remaining → r.next.alert ≡ none)

pub simple-Waits :
    (prev : TypedState) (at : String) (slot : Slot) (config : RuleConfig)
    → Waits prev (evaluate_simple_threshold prev at slot config)
unfolding evaluate_simple_threshold
simple-Waits prev at slot config e = ground arith

pub loop-Waits :
    (prev : TypedState) (at : String) (slot : Slot) (healthy : Bool) (config : RuleConfig)
    → Waits prev (evaluate_restart_loop prev at slot healthy config)
unfolding evaluate_restart_loop
loop-Waits prev at slot healthy config e = ground arith

pub removed-Waits : (prev : TypedState) → Waits prev (evaluate_removed prev)
unfolding evaluate_removed
removed-Waits prev e = ground arith

pub frozen-Waits : (prev : TypedState) → Waits prev (frozen_alert_result prev)
unfolding frozen_alert_result
frozen-Waits prev e = (refl, omega arith, (λ _. e))

-- A rule that clears starts its full cooldown.
abbrev pub StartsCooldown : TypedResult → RuleConfig → Type 0
StartsCooldown r config =
    r.transition ≡ resolved → (r.next.cooldown_remaining ≡ config.cooldown) × (r.next.alert ≡ none)

abbrev pub Cools : TypedState → RuleConfig → TypedResult → Type 0
Cools prev config r = StartsCooldown r config × (r.next.rule_kind ≡ prev.rule_kind)

pub simple-Cools :
    (prev : TypedState) (at : String) (slot : Slot) (config : RuleConfig)
    → Cools prev config (evaluate_simple_threshold prev at slot config)
unfolding evaluate_simple_threshold
simple-Cools prev at slot config = ground arith

pub loop-Cools :
    (prev : TypedState) (at : String) (slot : Slot) (healthy : Bool) (config : RuleConfig)
    → Cools prev config (evaluate_restart_loop prev at slot healthy config)
unfolding evaluate_restart_loop
loop-Cools prev at slot healthy config = ground arith

pub removed-Cools :
    (prev : TypedState) (config : RuleConfig) → Cools prev config (evaluate_removed prev)
unfolding evaluate_removed
removed-Cools prev config = ground arith

pub frozen-Cools :
    (prev : TypedState) (config : RuleConfig) → Cools prev config (frozen_alert_result prev)
unfolding frozen_alert_result
frozen-Cools prev config = ground arith

-- `container_unhealthy`: its window holds one signal, and clearing wants three.
abbrev pub Stuck : TypedState → TypedResult → Type 0
Stuck prev r =
    (r.transition ≢ resolved)
    × (prev.alert ≢ none → r.next.alert ≡ none → r.transition ≡ resolved_container_removed)

pub simple-Stuck :
    (prev : TypedState) (at : String) (slot : Slot)
    → Stuck prev (evaluate_simple_threshold prev at slot (docker_alert_rules container_unhealthy))
unfolding evaluate_simple_threshold
simple-Stuck prev at slot = ground (arith, length-take_last 1 (prev.window ++ slot ∷ []))

pub removed-Stuck : (prev : TypedState) → Stuck prev (evaluate_removed prev)
unfolding evaluate_removed
removed-Stuck prev = ground arith

pub frozen-Stuck : (prev : TypedState) → Stuck prev (frozen_alert_result prev)
unfolding frozen_alert_result
frozen-Stuck prev = (cc, (λ ne e. absurd (ne e)))
