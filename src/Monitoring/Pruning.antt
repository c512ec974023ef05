-- ===== src/Monitoring/Pruning.antt =====
-- packages/api/src/persistence/repositories/docker-monitoring.repository.ts: `pruneSamplesEventsAndStorage`
-- and what it calls. The current time is an argument.
pub mod Groups
pub mod Newest
pub mod Exact
use vps_manager_nodejs.Prelude.{
  ℕ, ◌-◌, String, Bool, true, false, not, List, [], ◌∷◌, ◌++◌, Option, none, some, or_else, length,
  take, filterb, ltb, if◌then◌else◌, str_eq, Outcome, ok, err,
}
use vps_manager_nodejs.Monitoring.Records.{
  AlertState, resolved, Sample, Event, Rollup, Alert, Store,
}
use vps_manager_nodejs.Monitoring.Runtime.{Runtime}
use vps_manager_nodejs.Monitoring.Pages.{Place, newest_first, sort_by}

-- DockerMonitoringMaintenanceOptions
pub record MaintenanceOptions : Type 0 where
  pub cutoff : String
  pub rollup_cutoff : Option String
  pub alert_cutoff : Option String
  pub samples_per_vps : ℕ
  pub events_per_vps : ℕ

-- DockerMonitoringMaintenanceResult
pub record MaintenanceResult : Type 0 where
  pub samples_removed : ℕ
  pub rollups_removed : ℕ
  pub events_removed : ℕ
  pub alerts_removed : ℕ

pub data Error : Type 0 where
  invalid_cutoff rewrite_too_large : Error

module _ {T : Type 0} (place : T → Place) (server : T → String) where
  -- `byVps`: the rows of each server, in the order in which the servers come.
  pub add_to_group : T → List (String × List T) → List (String × List T)
  add_to_group row [] = (server row, row ∷ []) ∷ []
  add_to_group row ((key, rows) ∷ groups) =
      let others = add_to_group row groups in
      if str_eq key (server row) then (key, rows ++ row ∷ []) ∷ groups else (key, rows) ∷ others

  pub group_by_server : List T → List (String × List T) → List (String × List T)
  unfolding add_to_group
  group_by_server [] groups = groups
  group_by_server (row ∷ rows) groups = group_by_server rows (add_to_group row groups)

  module _ (before : String → String → Bool) (limit : ℕ) where
    pub newest_of_groups : List (String × List T) → List T
    unfolding newest_first sort_by
    newest_of_groups [] = []
    newest_of_groups ((key, rows) ∷ groups) =
        take limit (sort_by (newest_first before place) rows) ++ newest_of_groups groups

    -- pruneToCapNewestFirst; the number that it removes is read nowhere.
    pub prune_to_cap : List T → List T
    unfolding group_by_server newest_of_groups
    prune_to_cap rows = newest_of_groups (group_by_server rows [])

module _ {R : Type 0} (runtime : Runtime R) (max_bytes : ℕ) where
  -- `at >= cutoff`
  abbrev pub is_since : String → String → Bool
  is_since cutoff at = not (runtime.before at cutoff)

  -- Whether an alert stays: a resolved one from before the cutoff does not.
  pub keeps_alert : String → Alert → Bool
  keeps_alert cutoff a = elim a.state [
    | resolved ↦ elim a.resolved_at [
      | none ↦ true
      | some at ↦ if str_eq at "" then true else is_since cutoff at
    ]
    | _ ↦ true
  ]

  pub pruned : MaintenanceOptions → String → Store R → Store R
  unfolding prune_to_cap keeps_alert
  pruned options now s = record s {
    samples =
        prune_to_cap (λ x. (x.effective_at, x.id)) (λ x. x.vps_id) runtime.before
          options.samples_per_vps (filterb (λ x. is_since options.cutoff x.effective_at) s.samples);
    events =
        prune_to_cap (λ x. (x.event_occurred_at, x.id)) (λ x. x.vps_id) runtime.before
          options.events_per_vps
          (filterb (λ x. is_since options.cutoff x.event_occurred_at) s.events);
    rollups =
        filterb (λ x. is_since (or_else options.rollup_cutoff options.cutoff) x.bucket_start)
          s.rollups;
    alerts = filterb (keeps_alert (or_else options.alert_cutoff options.cutoff)) s.alerts;
    last_maintenance_at = some now;
  }

  -- pruneSamplesEventsAndStorage
  unfoldable pub prune_samples_events_and_storage :
      MaintenanceOptions → String → Store R → Outcome Error (Store R × MaintenanceResult)
  unfolding pruned
  prune_samples_events_and_storage options now s =
      let after = pruned options now s in
      if not (runtime.is_valid_date options.cutoff)
      then err invalid_cutoff
      else if ltb max_bytes (runtime.json_bytes after)
      then err rewrite_too_large
      else ok (
        after,
        record {
          samples_removed = length s.samples - length after.samples;
          rollups_removed = length s.rollups - length after.rollups;
          events_removed = length s.events - length after.events;
          alerts_removed = length s.alerts - length after.alerts;
        },
      )
