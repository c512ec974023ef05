-- ===== src/Monitoring/Tests.antt =====
-- Runs of the store of packages/api/src/persistence/repositories/docker-monitoring.repository.ts. A
-- JavaScript number is here a natural number.
use vps_manager_nodejs.Prelude.{
  ℕ, ◌≡◌, ◌≢◌, refl, subst, String, true, [], ◌∷◌, Option, none, some, arith, or_else, filterb,
  take_last, All, if◌then◌else◌, str_eq, eq_iff, Outcome, ok, err, ◌⊎◌, some-eq,
}
use vps_manager_nodejs.Alerts.Evidence.{classify}
use vps_manager_nodejs.Alerts.Unavailable as rule
use vps_manager_nodejs.Monitoring.Records.{
  open_alert, acknowledged, Watermark, IngestUnit, committed, already_committed, Store, Alert,
  IngestResult, snapshot_conflict,
}
use vps_manager_nodejs.Monitoring.Examples.{naturals, host_sample_of}
use vps_manager_nodejs.Monitoring.Caps.{of_key, enforce_caps, truncate_per_key}
use vps_manager_nodejs.Monitoring.Caps.Newest.{truncate-take_last}
use vps_manager_nodejs.Monitoring.Caps.Bounds.{IsCapped}
use vps_manager_nodejs.Monitoring.Evidence.{typed_items}
use vps_manager_nodejs.Monitoring.Evidence.Clears.{OnlyRatiosClear, typed_items-OnlyRatiosClear}
use vps_manager_nodejs.Monitoring.Ingest.{Error, conflict, is_watermark_of, result_of, ingest_unit}
use vps_manager_nodejs.Monitoring.Ingest.Replay.{committed_once}
use vps_manager_nodejs.Monitoring.Ingest.Bounds.{ingest_unit-IsCapped}
use vps_manager_nodejs.Monitoring.Ingest.Ledger.{ProposesOwn, ledger_of}
use vps_manager_nodejs.Monitoring.Ingest.Ledger.Refines.{after_calls, Journal, after_calls-Journal}
use vps_manager_nodejs.Monitoring.HostRule.{apply_unavailable_observation}
use vps_manager_nodejs.Monitoring.HostRule.Acknowledged.{acknowledgement_lost}
use vps_manager_nodejs.Monitoring.Upkeep.Cleanup.{IsErased, SameOf, cleanup_for_vps-Erases}
use vps_manager_nodejs.Monitoring.Upkeep.{empty_store, acknowledge_alert, cleanup_for_vps}

abbrev mark : ℕ → Watermark
mark time = record {
  vps_id = "v1";
  agent_instance_id = "a1";
  time_nano = time;
  boundary_digests = [];
  committed_batch_id = none;
  updated_at = "t";
}

-- A unit of server v1 and agent a1 whose events run from one time to another.
abbrev unit_of : String → ℕ → ℕ → ℕ → IngestUnit ℕ
unit_of id sequence from to = record {
  vps_id = "v1";
  agent_instance_id = "a1";
  snapshot_id = id;
  batch_id = some id;
  request_digest = "d";
  received_at = "t";
  source_sequence = sequence;
  host_sample = host_sample_of id "t";
  container_samples = [];
  events = [];
  storage_latest = none;
  event_protocol = some (record {
    from_watermark = mark from;
    proposed_watermark = mark to;
    window_from = "t";
    window_to = "t";
  });
  monitoring =
      some
        (record { effective_cadence_seconds = 30; availability = rule.Availability.unavailable });
  available = none;
  error_code = none;
  engine_version = none;
  api_version = none;
}

abbrev first_one : IngestUnit ℕ
first_one = unit_of "s1" 1 0 5

abbrev stored : Outcome Error (Store ℕ × IngestResult) → Store ℕ
stored (ok (after, answer)) = after
stored (err thrown) = empty_store

abbrev answered : Outcome Error (Store ℕ × IngestResult) → Option IngestResult
answered (ok (after, answer)) = some answer
answered (err thrown) = none

abbrev after_first : Store ℕ
after_first = stored (ingest_unit naturals 100 first_one empty_store)

abbrev first_answer : IngestResult
first_answer = result_of first_one committed "s1" 1

first_commits : ingest_unit naturals 100 first_one empty_store ≡ ok (after_first, first_answer)
unfolding ingest_unit classify enforce_caps
first_commits = refl

-- The next unit is committed, one that jumps over events is not.
next_commits :
    answered (ingest_unit naturals 100 (unit_of "s2" 2 5 9) after_first)
    ≡ some (result_of (unit_of "s2" 2 5 9) committed "s2" 2)
unfolding ingest_unit classify enforce_caps
next_commits = refl

gap_refused : answered (ingest_unit naturals 100 (unit_of "s2" 2 7 9) after_first) ≡ none
unfolding ingest_unit classify enforce_caps
gap_refused = refl

committed_once_example : ingest_unit naturals 100 (unit_of "s1" 0 8 9) after_first ≡ (
    if str_eq "d" "d"
    then ok (after_first, result_of (unit_of "s1" 0 8 9) already_committed "s1" 1)
    else err (conflict snapshot_conflict))
committed_once_example =
    committed_once naturals 100 first_one (unit_of "s1" 0 8 9) empty_store after_first first_answer
      first_commits refl refl refl

ingest_unit-IsCapped_example : (after_first ≡ empty_store) ⊎ IsCapped after_first
ingest_unit-IsCapped_example =
    ingest_unit-IsCapped naturals 100 first_one empty_store after_first first_answer first_commits

first_proposes : ProposesOwn first_one
first_proposes w given = subst (λ x. is_watermark_of "v1" "a1" x ≡ true) (some-eq given) refl

after_calls-Journal_example :
    Journal naturals 100
      (ledger_of {R = ℕ} empty_store)
      (first_one ∷ [])
      (ledger_of (after_calls naturals 100 (first_one ∷ []) empty_store))
after_calls-Journal_example =
    after_calls-Journal naturals 100 (first_one ∷ []) empty_store (first_proposes, tt)
      (λ owner. omega arith)

-- Of three rows of "a" the last two are kept, and the row of "b".
truncate-take_last_example :
    filterb
      (of_key str_eq (λ (row : String). row) "a")
      (truncate_per_key str_eq (λ (row : String). row) 2 ("a" ∷ "b" ∷ "a" ∷ "a" ∷ []))
    ≡ take_last 2 (filterb (of_key str_eq (λ (row : String). row) "a") ("a" ∷ "b" ∷ "a" ∷ "a" ∷ []))
truncate-take_last_example =
    truncate-take_last str_eq (λ (row : String). row) eq_iff 2 "a" ("a" ∷ "b" ∷ "a" ∷ "a" ∷ [])

-- A unit whose watermark moves without events is evidence of a gap.
typed_items-OnlyRatiosClear_example :
    All (OnlyRatiosClear naturals) (typed_items naturals (unit_of "s3" 3 9 12))
typed_items-OnlyRatiosClear_example = typed_items-OnlyRatiosClear naturals (unit_of "s3" 3 9 12)

-- The rule's alert and the listed one are both open.
abbrev active : rule.ActiveAlert
active = record {
  state = rule.AlertState.open_alert;
  opened_at = "t0";
  last_observed_at = "t2";
  occurrences = 1;
  acknowledged_at = none;
  acknowledged_by = none;
}

abbrev alert : Alert
alert = record {
  id = "v1:docker_unavailable";
  vps_id = "v1";
  agent_instance_id = some "a1";
  rule_kind = "docker_unavailable";
  container_key = none;
  state = open_alert;
  fingerprint = "docker_unavailable:v1:v1";
  opened_at = "t0";
  last_observed_at = some "t2";
  resolved_at = none;
  acknowledged_at = none;
  acknowledged_by = none;
  occurrences = 1;
  summary = "docker unavailable";
  resolution_reason = none;
}

abbrev rule_state : rule.State
rule_state = record {
  vps_id = "v1";
  window = rule.Signal.unavailable ∷ rule.Signal.unavailable ∷ rule.Signal.unavailable ∷ [];
  alert = some active;
}

abbrev alerting : Store ℕ
alerting = record (empty_store {R = ℕ}) {
  alerts = alert ∷ [];
  unavailable_states = λ key. if str_eq key "v1" then some rule_state else none;
}

abbrev acked : Alert
acked = record alert {
  state = acknowledged;
  acknowledged_at = some "t3";
  acknowledged_by = some "ops";
}

abbrev acked_store : Store ℕ
acked_store = record alerting { alerts = acked ∷ [] }

acknowledges :
    acknowledge_alert "v1" "v1:docker_unavailable" "ops" "t3" alerting
    ≡ ok (acked_store, (acked, true))
unfolding acknowledge_alert
acknowledges = refl

abbrev Observed : Type 0
Observed = Outcome rule.Error (Store ℕ × (Option Alert × rule.Transition))

abbrev observed_store : Observed → Store ℕ
observed_store (ok (after, answer)) = after
observed_store (err thrown) = empty_store

abbrev observed_alert : Observed → Alert
observed_alert (ok (after, (listed, transition))) = or_else listed alert
observed_alert (err thrown) = alert

abbrev observed : Observed
observed =
    apply_unavailable_observation naturals "v1" "a1" rule.Availability.unavailable "t4" acked_store

observes :
    apply_unavailable_observation naturals "v1" "a1" rule.Availability.unavailable "t4" acked_store
    ≡ ok (observed_store observed, (some (observed_alert observed), rule.Transition.persisted))
unfolding apply_unavailable_observation
observes = refl

acknowledgement_lost_example : (observed_alert observed).state ≢ acknowledged
acknowledgement_lost_example =
    acknowledgement_lost naturals "v1" "a1" "v1:docker_unavailable" "ops" "t3" "t4"
      rule.Availability.unavailable alerting acked_store (observed_store observed) acked
      (observed_alert observed) rule.Transition.persisted rule_state active refl refl refl
      acknowledges observes

cleanup_for_vps-Erases_example :
    IsErased "v1" (cleanup_for_vps "v1" alerting)
    × ((other : String) → other ≢ "v1" → SameOf other alerting (cleanup_for_vps "v1" alerting))
cleanup_for_vps-Erases_example = cleanup_for_vps-Erases "v1" alerting
