-- ===== src/Alerts/Unavailable.antt =====
-- packages/api/src/docker/docker-alert-evaluator.ts, first half: the host-level rule
-- `docker_unavailable`. An optional field is an `Option`, a missing observation is `none`, and a
-- thrown error is the `err` of `Outcome`. `Date.parse` belongs to the JavaScript runtime: what the
-- code asks of it, whether a text is a date, is the parameter `is_valid_iso_date`.
pub mod History
pub mod Hysteresis
mod Tests
use vps_manager_nodejs.Prelude.{
  ℕ, zero, suc, ◌+◌, String, Bool, true, false, List, [], ◌∷◌, ◌++◌, Option, none, some, take_last,
  leb, is_true, is_false, if◌then◌else◌, str_eq, Outcome, ok, err,
}

-- DockerUnavailableCompleteSignal
pub data Signal : Type 0 where
  available unavailable : Signal

-- DockerUnavailableRawAvailability
pub data Availability : Type 0 where
  available unavailable unknown : Availability

pub record Observation : Type 0 where
  pub availability : Option Availability
  pub complete : Option Bool
  pub stale : Option Bool
  pub gap : Option Bool
  pub observed_at : String

-- The source's "open" is a word of the language here.
pub data AlertState : Type 0 where
  open_alert acknowledged : AlertState

pub record ActiveAlert : Type 0 where
  pub state : AlertState
  pub opened_at : String
  pub last_observed_at : String
  pub occurrences : ℕ
  pub acknowledged_at : Option String
  pub acknowledged_by : Option String

pub record State : Type 0 where
  pub vps_id : String
  pub window : List Signal
  pub alert : Option ActiveAlert

pub data Transition : Type 0 where
  opened persisted acknowledged_persisted resolved no_change frozen : Transition

pub record Result : Type 0 where
  pub next : State
  pub transition : Transition
  pub rule_kind : String
  pub rule_version : ℕ
  pub severity : String
  pub window : List Signal
  pub unavailable_count : ℕ
  pub available_count : ℕ

pub data Error : Type 0 where
  empty_vps_id invalid_observed_at : Error

abbrev pub rule_kind : String
rule_kind = "docker_unavailable"

abbrev pub rule_version : ℕ
rule_version = 1

abbrev pub severity : String
severity = "warning"

abbrev pub window_size : ℕ
window_size = 5

abbrev pub open_threshold : ℕ
open_threshold = 3

abbrev pub resolve_threshold : ℕ
resolve_threshold = 3

-- `countSignals`, one counter at a time.
abbrev pub count_unavailable : List Signal → ℕ
count_unavailable [] = 0
count_unavailable (unavailable ∷ w) = suc (count_unavailable w)
count_unavailable (available ∷ w) = count_unavailable w

abbrev pub count_available : List Signal → ℕ
count_available [] = 0
count_available (unavailable ∷ w) = count_available w
count_available (available ∷ w) = suc (count_available w)

pub base_result : State → Transition → Result
base_result next transition = record {
  next = next;
  transition = transition;
  rule_kind = rule_kind;
  rule_version = rule_version;
  severity = severity;
  window = next.window;
  unavailable_count = count_unavailable next.window;
  available_count = count_available next.window;
}

pub frozen_result : State → Result
unfolding base_result
frozen_result state = base_result state frozen

-- The last test of `classifyDockerUnavailableObservation`.
abbrev pub usable : Option Availability → Option Signal
usable (some available) = some available
usable (some unavailable) = some unavailable
usable (some unknown) = none
usable none = none

-- classifyDockerUnavailableObservation
pub classify : Option Observation → Option Signal
classify none = none
classify (some o) =
    if is_true o.stale
    then none
    else if is_true o.gap
    then none
    else if is_false o.complete
    then none
    else usable o.availability

pub is_complete_observation : Option Observation → Bool
unfolding classify
is_complete_observation o = elim (classify o) [ none ↦ false | some _ ↦ true ]

pub create_initial_state : String → Outcome Error State
create_initial_state vps_id =
    if str_eq vps_id ""
    then err empty_vps_id
    else ok (record { vps_id = vps_id; window = []; alert = none })

abbrev persisted_as : AlertState → Transition
persisted_as open_alert = persisted
persisted_as acknowledged = acknowledged_persisted

abbrev pub persist : ActiveAlert → String → ActiveAlert
persist a at = record a { last_observed_at = at; occurrences = a.occurrences + 1 }

abbrev pub open_at : String → ActiveAlert
open_at at = record {
  state = open_alert;
  opened_at = at;
  last_observed_at = at;
  occurrences = 1;
  acknowledged_at = none;
  acknowledged_by = none;
}

-- An active alert below the resolve threshold: only an `unavailable` signal touches it.
abbrev pub hold : State → List Signal → ActiveAlert → Signal → String → Result
hold prev window a unavailable at =
    base_result (record prev { window = window; alert = some (persist a at) })
      (persisted_as a.state)
hold prev window a available at =
    base_result (record prev { window = window; alert = some a }) no_change

-- `evaluateDockerUnavailable` once the signal, its time and the new window are known.
pub advance : State → List Signal → Signal → String → Option ActiveAlert → Result
unfolding base_result
advance prev window signal at (some a) =
    if leb resolve_threshold (count_available window)
    then base_result (record prev { window = window; alert = none }) resolved
    else hold prev window a signal at
advance prev window signal at none =
    if leb open_threshold (count_unavailable window)
    then base_result (record prev { window = window; alert = some (open_at at) }) opened
    else base_result (record prev { window = window; alert = none }) no_change

module _ (is_valid_iso_date : String → Bool) where
  pub accept : State → Signal → String → Outcome Error Result
  unfolding advance
  accept prev signal at =
      if is_valid_iso_date at
      then ok
          (advance prev (take_last window_size (prev.window ++ signal ∷ [])) signal at prev.alert)
      else err invalid_observed_at

  pub evaluate_known : State → Option Signal → Option Observation → Outcome Error Result
  unfolding accept frozen_result
  evaluate_known prev (some signal) (some o) = accept prev signal o.observed_at
  evaluate_known prev _ _ =
      ok (frozen_result (record prev { window = take_last window_size prev.window }))

  -- evaluateDockerUnavailable
  unfoldable pub evaluate : State → Option Observation → Outcome Error Result
  unfolding classify evaluate_known
  evaluate prev o =
      if str_eq prev.vps_id "" then err empty_vps_id else evaluate_known prev (classify o) o
