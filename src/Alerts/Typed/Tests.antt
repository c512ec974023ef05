-- ===== src/Alerts/Typed/Tests.antt =====
-- Runs of the typed alert rules, and their theorems at concrete states. A ratio is here a number of
-- thousandths.
use vps_manager_nodejs.Prelude.{
  ℕ, ◌≡◌, refl, ◌≢◌, String, Bool, true, false, List, [], ◌∷◌, Option, none, some, arith, ltb, leb,
  ok, err, eq_iff,
}
use vps_manager_nodejs.Alerts.Evidence.{
  RuleKind, container_unhealthy, container_cpu_high, docker_event_gap, Health, EvidenceStatus,
  Ratios, Observation, docker_alert_rules, classify, classify_event_gap,
}
use vps_manager_nodejs.Alerts.RuleState.{
  Slot, positive, negative, open_alert, ActiveAlert, opened, resolved, resolved_container_removed,
  frozen, TypedState, TypedResult, moved, answer, identity_matches, frozen_alert_result,
}
use vps_manager_nodejs.Alerts.Typed.{evaluate}
use vps_manager_nodejs.Alerts.Typed.Branches.{IsEarned}
use vps_manager_nodejs.Alerts.Typed.Rules.Effect.{Says, evaluate-IsTruthful}
use vps_manager_nodejs.Alerts.Typed.Rules.Sound.{IsSound, evaluate-IsSound}
use vps_manager_nodejs.Alerts.Typed.Cooldown.{
  run, evaluate-IsEarned, no_flapping, container_unhealthy_never_clears,
  event_gap_takes_foreign_evidence,
}

abbrev thousandths : Ratios ℕ
thousandths = record {
  at_least = λ a b. leb b a;
  below = ltb;
  is_finite = λ _. true;
  ratio_0_8 = 800;
  ratio_0_85 = 850;
  ratio_0_9 = 900;
}

abbrev dated : String → Bool
dated String.[] = false
dated _ = true

-- A complete observation of container c1 with nothing to report.
abbrev tick : Observation ℕ
tick = record {
  observed_at = "2026-01-01T00:00:00Z";
  vps_id = "vps-1";
  agent_instance_id = some "agent-1";
  container_key = some "c1";
  status = some EvidenceStatus.complete;
  stale = none;
  gap = none;
  partial = none;
  complete = none;
  exact_container = none;
  coverage_complete = none;
  from_aggregate = none;
  supported = none;
  formula_version = none;
  health = none;
  healthy_sample = none;
  event_action = none;
  cpu_ratio = none;
  memory_ratio = none;
  storage_ratio = none;
  gap_reason = none;
  gap_free = none;
  baseline_reset = none;
}

abbrev cpu : ℕ → Option (Observation ℕ)
cpu r = some (record tick { cpu_ratio = some r })

abbrev state_of : RuleKind → List Slot → Option ActiveAlert → TypedState
state_of kind window alert = record {
  rule_kind = kind;
  vps_id = "vps-1";
  agent_instance_id = some "agent-1";
  container_key = some "c1";
  window = window;
  quiet_count = 0;
  cooldown_remaining = 0;
  alert = alert;
}

abbrev alerted : Option ActiveAlert
alerted = some (record {
  state = open_alert;
  opened_at = "t0";
  last_observed_at = "t0";
  occurrences = 1;
  acknowledged_at = none;
  acknowledged_by = none;
})

-- The answer of a call, or its state frozen where it throws.
result_of : TypedState → Option (Observation ℕ) → TypedResult
result_of s o = elim (evaluate thousandths dated s o) [ ok r ↦ r | err _ ↦ answer s s frozen none ]

evaluator : Unit {0}
unfolding evaluate result_of run classify identity_matches frozen_alert_result
evaluator = tt

abbrev warming : TypedState
warming = state_of container_cpu_high (positive ∷ negative ∷ positive ∷ []) none

cpu_opens : evaluate thousandths dated warming (cpu 950) ≡ ok (result_of warming (cpu 950))
unfolding evaluator
cpu_opens = refl

evaluate-IsEarned_example :
    IsEarned warming (docker_alert_rules container_cpu_high) (result_of warming (cpu 950))
unfolding evaluator
evaluate-IsEarned_example =
    evaluate-IsEarned thousandths dated warming (cpu 950) (result_of warming (cpu 950)) (λ e. cc)
      cpu_opens refl

evaluate-IsTruthful_example :
    let r = result_of warming (cpu 950) in Says r.transition r.resolution none r.next.alert
evaluate-IsTruthful_example =
    evaluate-IsTruthful thousandths dated warming (cpu 950) (result_of warming (cpu 950)) cpu_opens

warming-IsSound : IsSound warming
warming-IsSound = record { bounded = omega arith; cooling = omega arith; idle = tt }

evaluate-IsSound_example :
    let r = result_of warming (cpu 950) in
    IsSound r.next
    × (r.next.rule_kind ≡ warming.rule_kind)
    × (r.next.vps_id ≡ warming.vps_id)
    × (r.next.agent_instance_id ≡ warming.agent_instance_id)
    × (r.next.container_key ≡ warming.container_key)
evaluate-IsSound_example =
    evaluate-IsSound thousandths dated warming (cpu 950) (result_of warming (cpu 950))
      warming-IsSound cpu_opens

abbrev calming : TypedState
calming = state_of container_cpu_high (positive ∷ negative ∷ negative ∷ []) alerted

cpu_clears : evaluate thousandths dated calming (cpu 100) ≡ ok (result_of calming (cpu 100))
unfolding evaluator
cpu_clears = refl

abbrev spikes : List (Option (Observation ℕ))
spikes = cpu 990 ∷ cpu 990 ∷ []

after_spikes : TypedState
after_spikes = moved calming (negative ∷ negative ∷ negative ∷ positive ∷ positive ∷ []) 0 0 none

spikes-run : run thousandths dated (result_of calming (cpu 100)).next spikes ≡ ok after_spikes
unfolding evaluator after_spikes
spikes-run = refl

no_flapping_example : after_spikes.alert ≡ none
unfolding evaluator
no_flapping_example =
    no_flapping thousandths dated calming (cpu 100) (result_of calming (cpu 100)) spikes
      after_spikes (λ e. cc) cpu_clears refl (omega arith) spikes-run

abbrev ailing : TypedState
ailing = state_of container_unhealthy (negative ∷ []) alerted

abbrev recovered : Option (Observation ℕ)
recovered = some (record tick { health = some Health.healthy })

recovery_answered : evaluate thousandths dated ailing recovered ≡ ok (result_of ailing recovered)
unfolding evaluator
recovery_answered = refl

container_unhealthy_never_clears_example :
    ((result_of ailing recovered).transition ≢ resolved)
    × (ailing.alert ≢ none
        → (result_of ailing recovered).next.alert ≡ none
        → (result_of ailing recovered).transition ≡ resolved_container_removed)
container_unhealthy_never_clears_example =
    container_unhealthy_never_clears thousandths dated ailing recovered (result_of ailing recovered)
      refl recovery_answered

abbrev foreign : Observation ℕ
foreign = record tick { vps_id = "vps-2"; gap_reason = some "stream_gap" }

foreign_vps : ◌≢◌ {A = String} "vps-2" "vps-1"
foreign_vps = ground (arith, eq_iff "vps-2" "vps-1")

event_gap_takes_foreign_evidence_example :
    (r : TypedResult) × (evaluate thousandths dated
        (state_of docker_event_gap [] none)
        (some foreign)
      ≡ ok r)
    × (r.transition ≡ opened)
    × (r.next.vps_id ≡ "vps-1")
unfolding classify_event_gap
event_gap_takes_foreign_evidence_example =
    event_gap_takes_foreign_evidence thousandths dated (state_of docker_event_gap [] none) foreign
      refl refl foreign_vps refl refl
