-- ===== src/Alerts/Unavailable/Tests.antt =====
-- Runs of the `docker_unavailable` evaluator, and its theorems at concrete histories.
use vps_manager_nodejs.Prelude.{
  ◌≤◌, ◌≡◌, refl, inl, ◌≢◌, ◌↔◌, String, Bool, true, false, List, [], ◌∷◌, Option, none, some,
  arith, take_last, ok, err, eq_iff, str_eq, ◌⊎◌, ◌>>=◌,
}
use vps_manager_nodejs.Alerts.Unavailable.{
  Signal, Error, frozen, Availability, Observation, open_alert, acknowledged, State, Result,
  classify, evaluate, create_initial_state, window_size, count_unavailable,
}
use vps_manager_nodejs.Alerts.Unavailable.Hysteresis.{
  IsSound, KeepsAcknowledged, evaluate-IsHysteresis, IsIncomplete, evaluate_frozen_iff,
  evaluate-KeepsAcknowledged, evaluate_throws_iff,
}
use vps_manager_nodejs.Alerts.Unavailable.History.{run, signals, run_majority}

evaluator : Unit {0}
unfolding evaluate run str_eq signals create_initial_state
evaluator = tt

-- A date is any text but the empty one, for these runs.
abbrev dated : String → Bool
dated String.[] = false
dated _ = true

abbrev seen : Availability → Option Observation
seen a = some (record {
  availability = some a;
  complete = none;
  stale = none;
  gap = none;
  observed_at = "2026-01-01T00:00:00Z";
})

abbrev outage : List (Option Observation)
outage =
    seen Availability.available
    ∷ seen Availability.unavailable
    ∷ none
    ∷ seen Availability.unavailable
    ∷ seen Availability.unknown
    ∷ seen Availability.available
    ∷ seen Availability.unavailable
    ∷ []

abbrev stands : State
stands = record {
  vps_id = "vps-1";
  window = Signal.unavailable ∷ Signal.unavailable ∷ Signal.unavailable ∷ [];
  alert = some (record {
    state = acknowledged;
    opened_at = "t0";
    last_observed_at = "t1";
    occurrences = 4;
    acknowledged_at = some "t1";
    acknowledged_by = some "admin";
  });
}

named : ◌≢◌ {A = String} "vps-1" ""
named = ground (arith, eq_iff "vps-1" "")

outage-signals : count_unavailable (take_last window_size (signals outage)) ≡ 3
unfolding evaluator
outage-signals = refl

after_outage : State
after_outage = record {
  vps_id = "vps-1";
  window =
      Signal.available ∷ Signal.unavailable ∷ Signal.unavailable ∷ Signal.available
      ∷ Signal.unavailable ∷ [];
  alert = some (record {
    state = open_alert;
    opened_at = "2026-01-01T00:00:00Z";
    last_observed_at = "2026-01-01T00:00:00Z";
    occurrences = 1;
    acknowledged_at = none;
    acknowledged_by = none;
  });
}

outage_opens : (create_initial_state "vps-1" >>= λ s. run dated s outage) ≡ ok after_outage
unfolding evaluator after_outage
outage_opens = refl

outage_long : window_size ≤ 5
outage_long = omega arith

run_majority_example :
    (after_outage.alert ≢ none) ↔ (3 ≤ count_unavailable (take_last window_size (signals outage)))
unfolding evaluator
run_majority_example = run_majority dated "vps-1" outage after_outage outage_opens outage_long

stands-IsSound : IsSound stands
stands-IsSound = record { bounded = omega arith; agrees = omega arith }

abbrev recovery : Option Observation
recovery = seen Availability.available

still_stands : Result
unfolding evaluator
still_stands = elim (evaluate dated stands recovery) [
  | ok r ↦ r
  | err _ ↦ record {
    next = stands;
    transition = frozen;
    rule_kind = "";
    rule_version = 0;
    severity = "";
    window = [];
    unavailable_count = 0;
    available_count = 0;
  }
]

stands_evaluated : evaluate dated stands recovery ≡ ok still_stands
unfolding evaluator still_stands
stands_evaluated = refl

evaluate-IsHysteresis_example : IsSound still_stands.next
evaluate-IsHysteresis_example =
    evaluate-IsHysteresis dated stands recovery still_stands stands_evaluated (inl stands-IsSound)

evaluate-KeepsAcknowledged_example : KeepsAcknowledged stands.alert still_stands.next.alert
evaluate-KeepsAcknowledged_example =
    evaluate-KeepsAcknowledged dated stands recovery still_stands stands_evaluated

evaluate_frozen_iff_example :
    ((still_stands.transition ≡ frozen) ↔ IsIncomplete recovery)
    × (still_stands.transition ≡ frozen → still_stands.next ≡ stands)
evaluate_frozen_iff_example =
    evaluate_frozen_iff dated stands recovery still_stands (omega arith) stands_evaluated

evaluate_throws_iff_example : ((x : Error) × (evaluate dated stands none ≡ err x)) ↔ (
    (stands.vps_id ≡ "")
    ⊎ ((signal : Signal) × (obs : Observation) × (none ≡ some obs)
        × (classify none ≡ some signal)
        × (dated obs.observed_at ≡ false)))
evaluate_throws_iff_example = evaluate_throws_iff dated stands none
