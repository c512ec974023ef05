-- ===== src/Monitoring/Records.antt =====
-- packages/api/src/docker/docker-monitoring.models.ts: what the Docker monitoring store keeps, what one
-- ingest brings, and what it answers. A decimal text that the code reads with BigInt (a source
-- sequence, the time of a watermark) is its number; other times stay text. `R` stands for JavaScript
-- numbers. A field that is always the constant 1 is left out.
use vps_manager_nodejs.Prelude.{ℕ, String, Bool, List, Option}
use vps_manager_nodejs.Alerts.Evidence.{RuleKind}
use vps_manager_nodejs.Alerts.RuleState.{TypedState}
use vps_manager_nodejs.Alerts.Unavailable as unavailable_rule

-- DockerAlertState
pub data AlertState : Type 0 where
  open_alert acknowledged resolved : AlertState

-- DockerAlertResolutionReason
pub data ResolutionReason : Type 0 where
  monitoring_disabled identity_reset_orphaned vps_deleted : ResolutionReason
  condition_cleared container_removed : ResolutionReason

-- DockerEventAction
pub data EventAction : Type 0 where
  create start restart die stop kill destroy remove : EventAction
  health_status stream_gap daemon_restarted : EventAction

pub data EventHealth : Type 0 where
  healthy unhealthy starting no_check : EventHealth

-- DockerHostSampleCoverage
pub record Coverage : Type 0 where
  pub details_sampled : ℕ
  pub details_total_eligible : ℕ
  pub complete : Bool
  pub cohort_digest : Option String

-- What DockerContainerSample adds to DockerHostSample.
pub record ContainerFields : Type 0 where
  pub container_key : String
  pub name : Option String
  pub state : Option String
  pub image : Option String
  pub status : Option String

-- DockerMetricSample: a host's sample where `container` is `none`, else a container's.
pub record Sample (R : Type 0) : Type 0 where
  pub id : String
  pub vps_id : String
  pub agent_instance_id : String
  pub snapshot_id : String
  pub collected_at : String
  pub received_at : String
  pub effective_at : String
  pub metrics : String → Option R
  pub coverage : Option Coverage
  pub container : Option ContainerFields

-- DockerCurrentContainer
pub record CurrentContainer (R : Type 0) : Type 0 where
  pub agent_instance_id : String
  pub fields : ContainerFields
  pub cpu_percent : Option R
  pub memory_usage_bytes : Option R
  pub pids : Option R

pub data RollupScope : Type 0 where
  host container aggregate : RollupScope

-- DockerMetricRollup, without the counters that no gauge has.
pub record Rollup (R : Type 0) : Type 0 where
  pub id : String
  pub vps_id : String
  pub agent_instance_id : String
  pub scope : RollupScope
  pub metric_name : Option String
  pub container_key : Option String
  pub bucket_start : String
  pub first_at : String
  pub last_at : String
  pub sample_count : ℕ
  pub gauge_min : Option R
  pub gauge_max : Option R
  pub gauge_sum : Option R
  pub gauge_average : Option R
  pub expected_samples : ℕ
  pub observed_samples : ℕ

-- DockerOperationalEvent; `source_sequence` is there on the events of a unit (DockerIngestEvent).
pub record Event : Type 0 where
  pub id : String
  pub vps_id : String
  pub agent_instance_id : String
  pub container_key : Option String
  pub action : EventAction
  pub event_occurred_at : String
  pub received_at : String
  pub event_digest : String
  pub health_status : Option EventHealth
  pub exit_code : Option ℕ
  pub signal : Option ℕ
  pub oom_killed : Option Bool
  pub source_sequence : Option ℕ

-- DockerStorageCategory
pub record StorageCategory : Type 0 where
  pub supported : Bool
  pub count : ℕ
  pub total_bytes : ℕ
  pub reclaimable_bytes : Option ℕ
  pub reclaimable_supported : Option Bool
  pub estimated_reclaimable_bytes : Option ℕ

-- DockerStorageLatest
pub record StorageLatest : Type 0 where
  pub vps_id : String
  pub agent_instance_id : String
  pub snapshot_id : String
  pub collected_at : String
  pub received_at : String
  pub images : StorageCategory
  pub containers : StorageCategory
  pub local_volumes : StorageCategory
  pub build_cache : StorageCategory

-- DockerEventWatermark
pub record Watermark : Type 0 where
  pub vps_id : String
  pub agent_instance_id : String
  pub time_nano : ℕ
  pub boundary_digests : List String
  pub committed_batch_id : Option String
  pub updated_at : String

-- DockerEventProtocol
pub record EventProtocol : Type 0 where
  pub from_watermark : Watermark
  pub proposed_watermark : Watermark
  pub window_from : String
  pub window_to : String

-- DockerMonitoringMetadata; the repository reads its availability only.
pub record Metadata : Type 0 where
  pub effective_cadence_seconds : ℕ
  pub availability : unavailable_rule.Availability

-- DockerIngestUnit
pub record IngestUnit (R : Type 0) : Type 0 where
  pub vps_id : String
  pub agent_instance_id : String
  pub snapshot_id : String
  pub batch_id : Option String
  pub request_digest : String
  pub received_at : String
  pub source_sequence : ℕ
  pub host_sample : Sample R
  pub container_samples : List (Sample R)
  pub events : List Event
  pub storage_latest : Option StorageLatest
  pub event_protocol : Option EventProtocol
  pub monitoring : Option Metadata
  pub available : Option Bool
  pub error_code : Option String
  pub engine_version : Option String
  pub api_version : Option String

-- The states of DockerIngestBatchResult and of DockerIngestResult.
pub data IngestStatus : Type 0 where
  committed already_committed replay_ignored rejected : IngestStatus

-- DockerMonitoringSnapshot; its `result` has the snapshot's id and revision and this status.
pub record Snapshot : Type 0 where
  pub vps_id : String
  pub snapshot_id : String
  pub agent_instance_id : String
  pub request_digest : String
  pub source_sequence : ℕ
  pub status : IngestStatus
  pub received_at : String
  pub revision : ℕ

-- DockerIngestBatch; its `result` is read nowhere.
pub record Batch : Type 0 where
  pub vps_id : String
  pub agent_instance_id : String
  pub batch_id : String
  pub snapshot_id : String
  pub request_digest : String
  pub revision : Option ℕ

-- DockerAuthoritativeLatest
pub record Latest : Type 0 where
  pub active_instance_id : String
  pub snapshot_id : String
  pub source_sequence : ℕ
  pub received_at : String
  pub updated_at : String
  pub revision : ℕ
  pub available : Option Bool
  pub error_code : Option String
  pub engine_version : Option String
  pub api_version : Option String

-- DockerAlert
pub record Alert : Type 0 where
  pub id : String
  pub vps_id : String
  pub agent_instance_id : Option String
  pub rule_kind : String
  pub container_key : Option String
  pub state : AlertState
  pub fingerprint : String
  pub opened_at : String
  pub last_observed_at : Option String
  pub resolved_at : Option String
  pub acknowledged_at : Option String
  pub acknowledged_by : Option String
  pub occurrences : ℕ
  pub summary : String
  pub resolution_reason : Option ResolutionReason

-- The keys of `alertRuleStates`, whose parts the code joins with NUL characters.
pub record RuleKey : Type 0 where
  pub vps_id : String
  pub kind : RuleKind
  pub instance_or_host : String
  pub container_or_host : String

-- DockerMonitoringStore. `alertRuleStates` is two maps, for the keys of the rule docker_unavailable
-- and for those of the typed rules.
pub record Store (R : Type 0) : Type 0 where
  pub revision : ℕ
  pub last_maintenance_at : Option String
  pub samples : List (Sample R)
  pub rollups : List (Rollup R)
  pub events : List Event
  pub latest_storage : String → Option StorageLatest
  pub latest_by_vps : String → Option Latest
  pub snapshots : List Snapshot
  pub watermarks : List Watermark
  pub batches : List Batch
  pub alerts : List Alert
  pub unavailable_states : String → Option unavailable_rule.State
  pub typed_states : RuleKey → Option TypedState

-- DockerIngestConflictCode, of which the repository throws these.
pub data ConflictCode : Type 0 where
  snapshot_conflict request_digest_mismatch : ConflictCode
  active_instance_conflict watermark_conflict : ConflictCode

-- DockerIngestResult. Its optional `status` says once more what `ingest_status` says:
-- `history_capacity_refused` where that is rejected.
pub record IngestResult : Type 0 where
  pub vps_id : String
  pub ingest_status : IngestStatus
  pub snapshot_id : String
  pub agent_instance_id : String
  pub batch_id : Option String
  pub received_at : String
  pub committed_watermark : Option Watermark
  pub revision : ℕ
