-- ===== src/Alerts/Unavailable/History.antt =====
-- Feeding a history of observations to `evaluateDockerUnavailable`
-- (packages/api/src/docker/docker-alert-evaluator.ts), each result's `next` the state of the next
-- call, and the window and the alert that the history determines.
use vps_manager_nodejs.Prelude.{
  ◌≤◌, ◌≡◌, refl, ap, sym, ◌∙◌, ◌≡⟨◌⟩◌, ◌∎, ◌≢◌, ◌↔◌, inl, inr, String, Bool, true, List, [], ◌∷◌,
  ◌++◌, append-nil, append_assoc, Option, none, some, arith, length, length-take_last, take_last,
  take_last-append, Outcome, ok, ◌>>=◌, >>=-eq-ok, Option-cases, eq_iff,
}
use vps_manager_nodejs.Alerts.Unavailable.{
  Signal, available, unavailable, Observation, ActiveAlert, State, Error, Result, window_size,
  count_unavailable, classify, advance, evaluate, frozen_result, create_initial_state,
}
use vps_manager_nodejs.Alerts.Unavailable.Hysteresis.{
  IsSound, Agrees, evaluate-IsHysteresis, evaluate_known-cases, accept-advance, advance-window,
  counts-length, take_last-of_bounded,
}

unfoldable pub run : (String → Bool) → State → List (Option Observation) → Outcome Error State
run valid s [] = ok s
run valid s (o ∷ os) = do r ← evaluate valid s o; run valid r.next os

-- The signals of the complete observations, oldest first.
abbrev pub keep_signal : Option Signal → List Signal → List Signal
keep_signal none rest = rest
keep_signal (some signal) rest = signal ∷ rest

unfoldable pub signals : List (Option Observation) → List Signal
signals [] = []
signals (o ∷ os) = keep_signal (classify o) (signals os)

evaluate_window :
    (valid : String → Bool) (prev : State) (o : Option Observation) (r : Result)
    → evaluate valid prev o ≡ ok r
    → r.next.window ≡ take_last window_size (prev.window ++ keep_signal (classify o) [])
unfolding frozen_result
evaluate_window valid prev o r e = elim (evaluate_known-cases valid prev o r e) [
  | inl (unseen, same) ↦
      rw (same, unseen) (ap (take_last window_size) (sym (append-nil prev.window)))
  | inr (signal, obs, seen, _, accepted) ↦
      rw (accept-advance valid prev signal obs.observed_at r accepted, seen)
        (advance-window prev _ signal obs.observed_at prev.alert)
]

keep_signal-append :
    (s : Option Signal) (rest : List Signal) → keep_signal s [] ++ rest ≡ keep_signal s rest
keep_signal-append none rest = refl
keep_signal-append (some signal) rest = refl

next_window-append :
    (valid : String → Bool) (prev : State) (o : Option Observation) (r : Result)
    (rest : List Signal)
    → evaluate valid prev o ≡ ok r
    → take_last window_size (r.next.window ++ rest)
      ≡ take_last window_size (prev.window ++ keep_signal (classify o) rest)
next_window-append valid prev o r rest e =
    take_last window_size (r.next.window ++ rest)
    ≡⟨ ap (λ w. take_last window_size (w ++ rest)) (evaluate_window valid prev o r e) ⟩
      take_last window_size
        (take_last window_size (prev.window ++ keep_signal (classify o) []) ++ rest)
    ≡⟨ take_last-append window_size (prev.window ++ keep_signal (classify o) []) rest ⟩
      take_last window_size ((prev.window ++ keep_signal (classify o) []) ++ rest)
    ≡⟨ ap (take_last window_size) (
        append_assoc prev.window (keep_signal (classify o) []) rest
        ∙ ap (◌++◌ prev.window) (keep_signal-append (classify o) rest)) ⟩
      take_last window_size (prev.window ++ keep_signal (classify o) rest) ∎

run-IsSound :
    (valid : String → Bool) (s t : State) (os : List (Option Observation))
    → IsSound s
    → run valid s os ≡ ok t
    → IsSound t
unfolding run
run-IsSound valid s t [] sound e = ground arith
run-IsSound valid s t (o ∷ os) sound e =
    let (r, first, rest) = >>=-eq-ok (evaluate valid s o) (λ r. run valid r.next os) e in
    run-IsSound valid r.next t os (evaluate-IsHysteresis valid s o r first (inl sound)) rest

run_window :
    (valid : String → Bool) (s t : State) (os : List (Option Observation))
    → IsSound s
    → run valid s os ≡ ok t
    → t.window ≡ take_last window_size (s.window ++ signals os)
unfolding run signals
run_window valid s t [] sound e =
    let same : s ≡ t = ground arith in
    rw (← same, append-nil s.window) (sym (take_last-of_bounded window_size s.window sound.bounded))
run_window valid s t (o ∷ os) sound e =
    let (r, first, rest) = >>=-eq-ok (evaluate valid s o) (λ r. run valid r.next os) e in
    run_window valid r.next t os (evaluate-IsHysteresis valid s o r first (inl sound)) rest
    ∙ next_window-append valid s o r (signals os) first

-- A complete observation has a valid date.
abbrev pub HasDate : (String → Bool) → Option Observation → Type 0
HasDate valid none = Unit
HasDate valid (some obs) = valid obs.observed_at ≡ true

abbrev pub AllDated : (String → Bool) → List (Option Observation) → Type 0
AllDated valid [] = Unit
AllDated valid (o ∷ os) = HasDate valid o × AllDated valid os

advance-vps_id :
    (prev : State) (w : List Signal) (signal : Signal) (at : String) (active : Option ActiveAlert)
    → (advance prev w signal at active).next.vps_id ≡ prev.vps_id
unfolding advance
advance-vps_id prev w signal at none = ground arith
advance-vps_id prev w available at (some a) = ground arith
advance-vps_id prev w unavailable at (some a) = ground arith

evaluate-vps_id :
    (valid : String → Bool) (prev : State) (o : Option Observation)
    → prev.vps_id ≢ ""
    → HasDate valid o
    → (r : Result) × (evaluate valid prev o ≡ ok r) × (r.next.vps_id ≡ prev.vps_id)
unfolding evaluate
evaluate-vps_id valid prev none named dated = (
  frozen_result (record prev { window = take_last window_size prev.window }),
  ground (arith, eq_iff prev.vps_id ""),
  refl,
)
evaluate-vps_id valid prev (some obs) named dated = elim (Option-cases (classify (some obs))) [
  | inl unseen ↦ (
    frozen_result (record prev { window = take_last window_size prev.window }),
    ground (arith, eq_iff prev.vps_id ""),
    unfold frozen_result in refl,
  )
  | inr (signal, seen) ↦ (
    advance prev (take_last window_size (prev.window ++ signal ∷ [])) signal obs.observed_at
        prev.alert,
    ground (arith, eq_iff prev.vps_id ""),
    advance-vps_id prev (take_last window_size (prev.window ++ signal ∷ [])) signal obs.observed_at
        prev.alert,
  )
]

run_returns :
    (valid : String → Bool) (s : State) (os : List (Option Observation))
    → s.vps_id ≢ ""
    → AllDated valid os
    → (t : State) × (run valid s os ≡ ok t)
unfolding run
run_returns valid s [] named dated = (s, refl)
run_returns valid s (o ∷ os) named dated =
    let (r, first, same) = evaluate-vps_id valid s o named dated.0 in
    let (t, rest) = run_returns valid r.next os (rw same named) dated.1 in (t, rw first rest)

abbrev initial : String → State
initial vps_id = record { vps_id = vps_id; window = []; alert = none }

initial-IsSound : (vps_id : String) → IsSound (initial vps_id)
initial-IsSound vps_id = record { bounded = omega arith; agrees = omega arith }

create_initial_state-eq-ok :
    (vps_id : String) (s : State) → create_initial_state vps_id ≡ ok s → s ≡ initial vps_id
unfolding create_initial_state
create_initial_state-eq-ok vps_id s e = ground arith

-- From the initial state of a named server, a history of dated observations never throws, and the
-- window it leaves holds the last five signals of the complete observations, however many frozen
-- ones stand between them.
run_initial :
    (valid : String → Bool) (vps_id : String) (os : List (Option Observation))
    → vps_id ≢ ""
    → AllDated valid os
    → (t : State) × ((create_initial_state vps_id >>= λ s. run valid s os) ≡ ok t)
      × (t.window ≡ take_last window_size (signals os))
unfolding create_initial_state
run_initial valid vps_id os named dated =
    let (t, e) = run_returns valid (initial vps_id) os named dated in
    (
      t,
      ground (arith, eq_iff vps_id ""),
      run_window valid (initial vps_id) t os (initial-IsSound vps_id) e,
    )

Agrees-majority :
    (active : Option ActiveAlert) (w : List Signal)
    → length w ≡ window_size
    → Agrees active w
    → (active ≢ none) ↔ (3 ≤ count_unavailable w)
Agrees-majority none w full h = ((λ ne. absurd (ne refl)), (λ many. absurd (omega arith)))
Agrees-majority (some a) w full h = ((λ _. omega (arith, counts-length w)), (λ _ e. cc))

-- Whatever happened before, once a history from the initial state has held five complete
-- observations an alert stands exactly when at least three of the last five were `unavailable`.
pub run_majority :
    (valid : String → Bool) (vps_id : String) (os : List (Option Observation)) (t : State)
    → (create_initial_state vps_id >>= λ s. run valid s os) ≡ ok t
    → window_size ≤ length (signals os)
    → (t.alert ≢ none) ↔ (3 ≤ count_unavailable (take_last window_size (signals os)))
run_majority valid vps_id os t e long =
    let (s, created, ran) = >>=-eq-ok (create_initial_state vps_id) (λ s. run valid s os) e in
    let from : run valid (initial vps_id) os ≡ ok t =
      rw (create_initial_state-eq-ok vps_id s created) at ran in
    let same = run_window valid (initial vps_id) t os (initial-IsSound vps_id) from in
    let sound = run-IsSound valid (initial vps_id) t os (initial-IsSound vps_id) from in
    let full : length t.window ≡ window_size =
      rw same (omega (arith, length-take_last window_size (signals os))) in
    rw (← same) (Agrees-majority t.alert t.window full sound.agrees)
