-- ===== src/Monitoring/Pruning/Exact.antt =====
-- packages/api/src/persistence/repositories/docker-monitoring.repository.ts: what
-- `pruneSamplesEventsAndStorage` leaves.
use vps_manager_nodejs.Prelude.{ℕ, ◌≤◌, String, ◌≡◌, filterb}
use vps_manager_nodejs.Monitoring.Records.{Sample, Event, Store}
use vps_manager_nodejs.Monitoring.Runtime.{Runtime}
use vps_manager_nodejs.Monitoring.HostRule.{is_live}
use vps_manager_nodejs.Monitoring.Pages.{Place}
use vps_manager_nodejs.Monitoring.Pruning.{MaintenanceOptions, is_since}
use vps_manager_nodejs.Monitoring.Pruning.Groups.{is_of}
use vps_manager_nodejs.Monitoring.Pruning.Newest.{newest}

abbrev pub event_at : Event → Place
event_at x = (x.event_occurred_at, x.id)

module _ {R : Type 0} where
  abbrev pub sample_at : Sample R → Place
  sample_at x = (x.effective_at, x.id)

  module _ (runtime : Runtime R) (max_bytes : ℕ) where
    pub record IsPruned (options : MaintenanceOptions) (s after : Store R) : Type 0 where
      pub samples :
          (vps_id : String)
          → filterb (is_of sample_at (λ x. x.vps_id) vps_id) after.samples
            ≡ newest sample_at
                (λ x. x.vps_id)
                runtime.before
                options.samples_per_vps
                (filterb (is_of sample_at (λ x. x.vps_id) vps_id) (
                  filterb
                    (λ x. is_since runtime max_bytes options.cutoff x.effective_at)
                    s.samples))
      pub events :
          (vps_id : String)
          → filterb (is_of event_at (λ x. x.vps_id) vps_id) after.events
            ≡ newest event_at
                (λ x. x.vps_id)
                runtime.before
                options.events_per_vps
                (filterb (is_of event_at (λ x. x.vps_id) vps_id) (
                  filterb
                    (λ x. is_since runtime max_bytes options.cutoff x.event_occurred_at)
                    s.events))
      pub live_alerts :
          filterb (λ a. is_live a.state) after.alerts ≡ filterb (λ a. is_live a.state) s.alerts
      pub latest : after.latest_by_vps ≡ s.latest_by_vps
      pub storage : after.latest_storage ≡ s.latest_storage
      pub fits : runtime.json_bytes after ≤ max_bytes
