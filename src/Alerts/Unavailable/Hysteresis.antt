-- ===== src/Alerts/Unavailable/Hysteresis.antt =====
-- When a `docker_unavailable` alert stands, in terms of the window alone, and what a step may do to
-- an alert. About `evaluateDockerUnavailable` in packages/api/src/docker/docker-alert-evaluator.ts.
use vps_manager_nodejs.Prelude.{
  ap, Bool-cases, str_eq, eq_iff, is_true, is_false, true, ◌≢◌, false, ◌↔◌, ℕ, ◌+◌, ◌≤◌, ◌≡◌, refl,
  ◌⊎◌, inl, inr, String, Bool, List, [], ◌∷◌, ◌++◌, Option, none, some, arith, length,
  length-take_last, take_last, ok, err, Option-cases,
}
use vps_manager_nodejs.Alerts.Unavailable.{
  Signal, Availability, usable, Error, empty_vps_id, invalid_observed_at, available, unavailable,
  Observation, ActiveAlert, State, frozen, Result, window_size, count_available, count_unavailable,
  classify, advance, evaluate, accept, frozen_result,
}

pub counts-length : (w : List Signal) → count_unavailable w + count_available w ≡ length w
counts-length [] = refl
counts-length (available ∷ w) = omega (arith, counts-length w)
counts-length (unavailable ∷ w) = omega (arith, counts-length w)

-- An alert and the window agree: no alert stands over three `unavailable` signals, and none over
-- three `available` ones.
abbrev pub Agrees : Option ActiveAlert → List Signal → Type 0
Agrees none w = count_unavailable w ≤ 2
Agrees (some a) w = count_available w ≤ 2

pub record IsSound (s : State) : Type 0 where
  pub bounded : length s.window ≤ window_size
  pub agrees : Agrees s.alert s.window

-- What a step does to an acknowledged alert: it stays acknowledged by the same person, or ends.
abbrev pub KeepsAcknowledged : Option ActiveAlert → Option ActiveAlert → Type 0
KeepsAcknowledged none after = Unit
KeepsAcknowledged (some a) none = Unit
KeepsAcknowledged (some a) (some b) =
    (b.state ≡ a.state)
    × (b.opened_at ≡ a.opened_at)
    × (b.acknowledged_by ≡ a.acknowledged_by)
    × (b.acknowledged_at ≡ a.acknowledged_at)
    × (a.occurrences ≤ b.occurrences)
    × (b.occurrences ≤ a.occurrences + 1)

pub take_last-of_bounded : (n : ℕ) (w : List Signal) → length w ≤ n → take_last n w ≡ w
take_last-of_bounded n w h = ground (arith)

advance-Agrees :
    (prev : State) (w : List Signal) (signal : Signal) (at : String) (active : Option ActiveAlert)
    → length w ≤ window_size
    → Agrees
        (advance prev w signal at active).next.alert
        (advance prev w signal at active).next.window
unfolding advance
advance-Agrees prev w signal at none h = ground (arith, counts-length w)
advance-Agrees prev w available at (some a) h = ground (arith, counts-length w)
advance-Agrees prev w unavailable at (some a) h = ground (arith, counts-length w)

pub advance-window :
    (prev : State) (w : List Signal) (signal : Signal) (at : String) (active : Option ActiveAlert)
    → (advance prev w signal at active).next.window ≡ w
unfolding advance
advance-window prev w signal at none = ground arith
advance-window prev w available at (some a) = ground arith
advance-window prev w unavailable at (some a) = ground arith

accept-IsSound :
    (valid : String → Bool) (prev : State) (signal : Signal) (at : String) (r : Result)
    → accept valid prev signal at ≡ ok r
    → IsSound r.next
unfolding accept
accept-IsSound valid prev signal at r e = elim (Bool-cases (valid at)) [
  | inl v ↦
      let w : List Signal = take_last window_size (prev.window ++ signal ∷ []) in
      let short : length w ≤ window_size =
        omega (arith, length-take_last window_size (prev.window ++ signal ∷ [])) in
      let same : advance prev w signal at prev.alert ≡ r = ground arith in
      rw (← same) (record {
        bounded = rw (advance-window prev w signal at prev.alert) short;
        agrees = advance-Agrees prev w signal at prev.alert short;
      })
  | inr v ↦ cc
]

abbrev Frozen : State → Option Observation → Result → Type 0
Frozen prev o r =
    (classify o ≡ none)
    × (r ≡ frozen_result (record prev { window = take_last window_size prev.window }))

abbrev Accepted : (String → Bool) → State → Option Observation → Result → Type 0
Accepted valid prev o r =
    (signal : Signal) × (obs : Observation) × (classify o ≡ some signal)
    × (o ≡ some obs)
    × (accept valid prev signal obs.observed_at ≡ ok r)

-- A call that returns has frozen the state or has accepted the observation's signal.
pub evaluate_known-cases :
    (valid : String → Bool) (prev : State) (o : Option Observation) (r : Result)
    → evaluate valid prev o ≡ ok r
    → Frozen prev o r ⊎ Accepted valid prev o r
unfolding evaluate
evaluate_known-cases valid prev none r e = inl (refl, ground arith)
evaluate_known-cases valid prev (some obs) r e = elim (Option-cases (classify (some obs))) [
  | inl none_seen ↦ inl (none_seen, ground arith)
  | inr (signal, seen) ↦ inr (signal, obs, seen, refl, ground arith)
]

frozen_result-IsSound :
    (prev : State)
    → IsSound prev
    → IsSound (frozen_result (record prev { window = take_last window_size prev.window })).next
unfolding frozen_result
frozen_result-IsSound prev sound =
    rw (take_last-of_bounded window_size prev.window sound.bounded) sound

-- From a sound state, one whose window has at most five signals and agrees with its alert, every
-- observation that does not throw leads to a sound state; one that is complete leads to a sound
-- state from any state.
pub evaluate-IsHysteresis :
    (valid : String → Bool) (prev : State) (o : Option Observation) (r : Result)
    → evaluate valid prev o ≡ ok r
    → IsSound prev ⊎ (classify o ≢ none)
    → IsSound r.next
evaluate-IsHysteresis valid prev o r e h = elim (evaluate_known-cases valid prev o r e) [
  | inl (unseen, same) ↦ rw same (frozen_result-IsSound prev (kept unseen h))
  | inr (signal, obs, _, _, accepted) ↦ accept-IsSound valid prev signal obs.observed_at r accepted
]
  where
    kept : classify o ≡ none → IsSound prev ⊎ (classify o ≢ none) → IsSound prev
    kept unseen (inl sound) = sound
    kept unseen (inr seen) = absurd (seen unseen)

advance-ne-frozen :
    (prev : State) (w : List Signal) (signal : Signal) (at : String) (active : Option ActiveAlert)
    → (advance prev w signal at active).transition ≢ frozen
unfolding advance
advance-ne-frozen prev w signal at none = ground arith
advance-ne-frozen prev w available at (some a) = ground arith
advance-ne-frozen prev w unavailable at (some a) = ground arith

advance-KeepsAcknowledged :
    (prev : State) (w : List Signal) (signal : Signal) (at : String) (active : Option ActiveAlert)
    → KeepsAcknowledged active (advance prev w signal at active).next.alert
unfolding advance
advance-KeepsAcknowledged prev w signal at none = tt
advance-KeepsAcknowledged prev w available at (some a) = ground arith
advance-KeepsAcknowledged prev w unavailable at (some a) = ground arith

KeepsAcknowledged-refl : (active : Option ActiveAlert) → KeepsAcknowledged active active
KeepsAcknowledged-refl none = tt
KeepsAcknowledged-refl (some a) = (refl, refl, refl, refl, omega arith, omega arith)

pub accept-advance :
    (valid : String → Bool) (prev : State) (signal : Signal) (at : String) (r : Result)
    → accept valid prev signal at ≡ ok r
    → r ≡ advance prev (take_last window_size (prev.window ++ signal ∷ [])) signal at prev.alert
unfolding accept
accept-advance valid prev signal at r e = ground arith

-- What no rule may be advanced by.
abbrev pub IsIncomplete : Option Observation → Type 0
IsIncomplete none = Unit
IsIncomplete (some o) =
    (o.stale ≡ some true)
    ⊎ ((o.gap ≡ some true)
        ⊎ ((o.complete ≡ some false)
            ⊎ ((o.availability ≡ none) ⊎ (o.availability ≡ some Availability.unknown))))

usable-unknown :
    (a : Option Availability) → (usable a ≡ none) ↔ ((a ≡ none) ⊎ (a ≡ some Availability.unknown))
usable-unknown none = ground arith
usable-unknown (some Availability.available) = ground arith
usable-unknown (some Availability.unavailable) = ground arith
usable-unknown (some Availability.unknown) = ground arith

is_true_iff : (flag : Option Bool) → (is_true flag ≡ true) ↔ (flag ≡ some true)
is_true_iff none = ground arith
is_true_iff (some true) = ground arith
is_true_iff (some false) = ground arith

is_false_iff : (flag : Option Bool) → (is_false flag ≡ true) ↔ (flag ≡ some false)
is_false_iff none = ground arith
is_false_iff (some true) = ground arith
is_false_iff (some false) = ground arith

classify-IsIncomplete : (o : Option Observation) → (classify o ≡ none) ↔ IsIncomplete o
unfolding classify
classify-IsIncomplete none = (λ _. tt, λ _. refl)
classify-IsIncomplete (some o) =
    let stale = is_true_iff o.stale in
    let gap = is_true_iff o.gap in
    let partial = is_false_iff o.complete in
    let unclear = usable-unknown o.availability in
    ground (
      arith,
      Bool-cases (is_true o.stale),
      Bool-cases (is_true o.gap),
      Bool-cases (is_false o.complete),
    )

-- For any state with at most five signals, a call that returns answers `frozen` exactly where the
-- observation is missing, stale, marked as a gap, partial, without availability or of unknown
-- availability; and then the state is returned as it was.
pub evaluate_frozen_iff :
    (valid : String → Bool) (prev : State) (o : Option Observation) (r : Result)
    → length prev.window ≤ window_size
    → evaluate valid prev o ≡ ok r
    → ((r.transition ≡ frozen) ↔ IsIncomplete o) × (r.transition ≡ frozen → r.next ≡ prev)
unfolding frozen_result
evaluate_frozen_iff valid prev o r h e =
    let incomplete = classify-IsIncomplete o in
    elim (evaluate_known-cases valid prev o r e) [
      | inl (unseen, same) ↦
          let kept : r.next ≡ prev = rw same (
            ap (λ w. record prev { window = w })
              (take_last-of_bounded window_size prev.window h)) in
          (((λ _. incomplete.0 unseen), (λ _. rw same refl)), (λ _. kept))
      | inr (signal, obs, seen, _, accepted) ↦
          let moved : r.transition ≢ frozen =
            rw (accept-advance valid prev signal obs.observed_at r accepted)
              (advance-ne-frozen prev _ signal obs.observed_at prev.alert) in
          (
            ((λ t. absurd (moved t)), (λ h'. let unseen = incomplete.1 h' in cc)),
            (λ t. absurd (moved t)),
          )
    ]

-- While an alert is acknowledged, no observation opens it again: after a step it has ended, or it
-- has the same state, opening time and acknowledgement, with at most one more occurrence.
pub evaluate-KeepsAcknowledged :
    (valid : String → Bool) (prev : State) (o : Option Observation) (r : Result)
    → evaluate valid prev o ≡ ok r
    → KeepsAcknowledged prev.alert r.next.alert
unfolding frozen_result
evaluate-KeepsAcknowledged valid prev o r e = elim (evaluate_known-cases valid prev o r e) [
  | inl (_, same) ↦ rw same (KeepsAcknowledged-refl prev.alert)
  | inr (signal, obs, _, _, accepted) ↦
      rw (accept-advance valid prev signal obs.observed_at r accepted)
        (advance-KeepsAcknowledged prev _ signal obs.observed_at prev.alert)
]

throws :
    (valid : String → Bool) (prev : State) (o : Option Observation)
    → ((x : Error) × (evaluate valid prev o ≡ err x))
    → (prev.vps_id ≡ "")
      ⊎ ((signal : Signal) × (obs : Observation) × (o ≡ some obs)
          × (classify o ≡ some signal)
          × (valid obs.observed_at ≡ false))
unfolding evaluate accept
throws valid prev none (x, e) = inl (ground (arith, eq_iff prev.vps_id ""))
throws valid prev (some obs) (x, e) = elim (Option-cases (classify (some obs))) [
  | inl unseen ↦ inl (ground (arith, eq_iff prev.vps_id ""))
  | inr (signal, seen) ↦ elim (Bool-cases (str_eq prev.vps_id "")) [
    | inl unnamed ↦ inl ((eq_iff prev.vps_id "").0 unnamed)
    | inr named ↦ inr (signal, obs, refl, seen, ground arith)
  ]
]

thrown :
    (valid : String → Bool) (prev : State) (o : Option Observation)
    → (prev.vps_id ≡ "")
      ⊎ ((signal : Signal) × (obs : Observation) × (o ≡ some obs)
          × (classify o ≡ some signal)
          × (valid obs.observed_at ≡ false))
    → (x : Error) × (evaluate valid prev o ≡ err x)
unfolding evaluate accept
thrown valid prev o (inl unnamed) = (empty_vps_id, ground (arith, eq_iff prev.vps_id ""))
thrown valid prev o (inr (signal, obs, same, seen, invalid)) =
    elim (Bool-cases (str_eq prev.vps_id "")) [
      | inl unnamed ↦ (empty_vps_id, ground (arith))
      | inr named ↦ (invalid_observed_at, ground arith)
    ]

-- A call throws exactly when the state has no name, or a complete observation has no valid date.
pub evaluate_throws_iff :
    (valid : String → Bool) (prev : State) (o : Option Observation)
    → ((x : Error) × (evaluate valid prev o ≡ err x)) ↔ (
        (prev.vps_id ≡ "")
        ⊎ ((signal : Signal) × (obs : Observation) × (o ≡ some obs)
            × (classify o ≡ some signal)
            × (valid obs.observed_at ≡ false)))
evaluate_throws_iff valid prev o = (throws valid prev o, thrown valid prev o)
