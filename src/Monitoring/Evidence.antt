-- ===== src/Monitoring/Evidence.antt =====
-- packages/api/src/persistence/repositories/docker-monitoring.repository.ts: the evidence that
-- `ingestUnit` hands to the typed alert rules.
pub mod Clears
use vps_manager_nodejs.Prelude.{
  ℕ, ◌+◌, ◌-◌, ◌^◌, String, Bool, true, false, not, ◌&&◌, List, [], ◌∷◌, ◌++◌, Option, none, some,
  or_else, is_some, ltb, ◌==◌, if◌then◌else◌, str_eq,
}
use vps_manager_nodejs.Alerts.Evidence as rule
use vps_manager_nodejs.Alerts.Evidence.{
  RuleKind, container_unhealthy, container_restart_loop, container_cpu_high, container_memory_high,
  docker_storage_pressure, docker_event_gap, EvidenceStatus,
}
use vps_manager_nodejs.Monitoring.Records as rec
use vps_manager_nodejs.Monitoring.Records.{
  Sample, ContainerFields, Event, StorageLatest, EventProtocol, IngestUnit,
}
use vps_manager_nodejs.Monitoring.Runtime.{Runtime}

-- `sample.state`, as the rule on health reads it.
abbrev health_of_state : Option String → rule.Health
health_of_state none = rule.Health.unknown
health_of_state (some state) =
    if str_eq state "unhealthy"
    then rule.Health.unhealthy
    else if str_eq state "running"
    then rule.Health.running
    else rule.Health.unknown

-- `event.action`, without the actions of the daemon itself.
abbrev action_of : rec.EventAction → Option rule.EventAction
action_of rec.EventAction.create = some rule.EventAction.create
action_of rec.EventAction.start = some rule.EventAction.start
action_of rec.EventAction.restart = some rule.EventAction.restart
action_of rec.EventAction.die = some rule.EventAction.die
action_of rec.EventAction.stop = some rule.EventAction.stop
action_of rec.EventAction.kill = some rule.EventAction.kill
action_of rec.EventAction.destroy = some rule.EventAction.destroy
action_of rec.EventAction.remove = some rule.EventAction.remove
action_of rec.EventAction.health_status = some rule.EventAction.health_status
action_of rec.EventAction.stream_gap = none
action_of rec.EventAction.daemon_restarted = none

-- `Number.MAX_SAFE_INTEGER`
abbrev max_safe_integer : ℕ
max_safe_integer = 9007199254740991

abbrev total_bytes : StorageLatest → ℕ
total_bytes s =
    s.images.total_bytes + s.containers.total_bytes + s.local_volumes.total_bytes
    + s.build_cache.total_bytes

abbrev pub Item : Type 0 → Type 0
Item R = RuleKind × rule.Observation R

abbrev key_of : Option ContainerFields → Option String
key_of none = none
key_of (some fields) = some fields.container_key

abbrev state_of : Option ContainerFields → Option String
state_of none = none
state_of (some fields) = fields.state

abbrev pub has_no_events : List Event → Bool
has_no_events [] = true
has_no_events (event ∷ events) = false

module _ {R : Type 0} where
  -- An observation of a rule with nothing but the fields that every one of them has.
  abbrev plain : String → String → String → EvidenceStatus → Bool → rule.Observation R
  plain at vps_id instance status complete = record {
    observed_at = at;
    vps_id = vps_id;
    agent_instance_id = some instance;
    container_key = none;
    status = some status;
    stale = none;
    gap = none;
    partial = none;
    complete = some complete;
    exact_container = none;
    coverage_complete = none;
    from_aggregate = none;
    supported = none;
    formula_version = none;
    health = none;
    healthy_sample = none;
    event_action = none;
    cpu_ratio = none;
    memory_ratio = none;
    storage_ratio = none;
    gap_reason = none;
    gap_free = none;
    baseline_reset = none;
  }

  abbrev pub each : {A : Type 0} → (A → List (Item R)) → List A → List (Item R)
  each items [] = []
  each items (x ∷ xs) = items x ++ each items xs

  module _ (runtime : Runtime R) where
    abbrev of_container : IngestUnit R → Sample R → Option String → rule.Observation R
    of_container u sample key =
        record (plain sample.collected_at u.vps_id u.agent_instance_id EvidenceStatus.complete
          true) { container_key = key; exact_container = some true; coverage_complete = some true }

    -- `limit > 0 ? memoryUsageBytes / limit : undefined`
    abbrev memory_ratio_of : Option R → Option R → Option R
    memory_ratio_of usage none = none
    memory_ratio_of usage (some limit) =
        if runtime.is_above_zero limit
        then some (runtime.divide (or_else usage runtime.nan) limit)
        else none

    -- The three observations of a container's sample.
    pub sample_items : IngestUnit R → Sample R → List (Item R)
    sample_items u sample =
        let base = of_container u sample (key_of sample.container) in
        (
          container_unhealthy,
          record base { health = some (health_of_state (state_of sample.container)) },
        )
        ∷ (container_cpu_high, record base { cpu_ratio = sample.metrics "cpuUsageRatio" })
        ∷ (
          container_memory_high,
          record base {
            memory_ratio =
                memory_ratio_of (sample.metrics "memoryUsageBytes")
                  (sample.metrics "memoryLimitBytes");
          },
        )
        ∷ []

    -- The observation of an event that names a container.
    pub event_items : IngestUnit R → Event → List (Item R)
    event_items u event = elim event.container_key [
      | none ↦ []
      | some key ↦
          if str_eq key ""
          then []
          else (
            container_restart_loop,
            record (plain event.event_occurred_at u.vps_id u.agent_instance_id
                EvidenceStatus.complete true) {
                  container_key = some key;
                  exact_container = some true;
                  event_action = action_of event.action;
                },
          )
            ∷ []
    ]

    pub storage_items : IngestUnit R → List (Item R)
    storage_items u = elim u.storage_latest [
      | none ↦ []
      | some storage ↦
          (
            docker_storage_pressure,
            record (plain u.host_sample.collected_at u.vps_id u.agent_instance_id
                EvidenceStatus.complete true) {
                  storage_ratio =
                      if ltb 0 (total_bytes storage)
                      then some (
                          runtime.smaller (runtime.of_nat 1) (
                            runtime.divide (runtime.of_nat (total_bytes storage))
                              (runtime.of_nat max_safe_integer)))
                      else none;
                },
          )
          ∷ []
    ]

    pub gap_items : IngestUnit R → List (Item R)
    gap_items u = elim u.event_protocol [
      | none ↦ []
      | some protocol ↦
          if not (protocol.from_watermark.time_nano == protocol.proposed_watermark.time_nano)
            && has_no_events u.events
          then (
            docker_event_gap,
            record (plain u.host_sample.collected_at u.vps_id u.agent_instance_id EvidenceStatus.gap
                false) { gap = some true; gap_reason = some "missing_event_window" },
          )
            ∷ []
          else []
    ]

    -- The array `typed` of `ingestUnit`.
    unfoldable pub typed_items : IngestUnit R → List (Item R)
    unfolding sample_items event_items storage_items gap_items
    typed_items u =
        each (sample_items u) u.container_samples
        ++ each (event_items u) u.events
        ++ storage_items u
        ++ gap_items u
