-- ===== src/Upgrade/Job.antt =====
-- packages/api/src/local-upgrade/local-upgrade.models.ts: the upgrade job, its states and timing.
-- A time that the code writes by `toISOString` and reads back by `Date.parse` is its number of
-- milliseconds; a nullable or optional field is an `Option`.
use vps_manager_nodejs.Prelude.{ℕ, ◌*◌, String, Bool, true, false, Option}

-- LocalUpgradeState
pub data JobState : Type 0 where
  queued claimed downloading verifying staging : JobState
  restarting awaiting_heartbeat rolling_back : JobState
  succeeded rolled_back rollback_unverified failed : JobState

-- LocalUpgradeProgressPhase
pub data ProgressPhase : Type 0 where
  downloading verifying staging restarting awaiting_heartbeat rolling_back : ProgressPhase

-- LocalUpgradeOutcome
pub data UpgradeOutcome : Type 0 where
  succeeded rolled_back rollback_unverified failed : UpgradeOutcome

pub record JobError : Type 0 where
  pub code : String
  pub message : String

-- LocalUpgradeResult
pub record JobResult : Type 0 where
  pub outcome : UpgradeOutcome
  pub reported_build_id : Option String
  pub heartbeat_build_id : Option String
  pub completed_at : ℕ

-- LocalUpgradeJob
pub record Job : Type 0 where
  pub id : String
  pub vps_id : String
  pub state : JobState
  pub progress : Option ℕ
  pub release_id : String
  pub release_version : String
  pub release_build_id : String
  pub target_sha256 : String
  pub target_url : String
  pub target_size_bytes : Option ℕ
  pub manifest_raw : String
  pub baseline_build_id : Option String
  pub baseline_heartbeat_at : Option ℕ
  pub actor : String
  pub idempotency_key : Option String
  pub message : Option String
  pub fencing_token : ℕ
  pub reclaim_count : ℕ
  pub claimed_at : Option ℕ
  pub lease_expires_at : Option ℕ
  pub deadline_at : ℕ
  pub phase_deadline_at : Option ℕ
  pub error : Option JobError
  pub result : Option JobResult
  pub revision : ℕ
  pub created_at : ℕ
  pub updated_at : ℕ
  pub completed_at : Option ℕ

pub record UpdaterHeartbeat : Type 0 where
  pub vps_id : String
  pub last_seen_at : ℕ
  pub credential_id : Option String

-- LOCAL_UPGRADE_LEASE_TTL_MS
abbrev pub lease_ttl_ms : ℕ
lease_ttl_ms = 60000

-- LOCAL_UPGRADE_OVERALL_DEADLINE_MS
abbrev pub overall_deadline_ms : ℕ
overall_deadline_ms = 30 * 60000

-- UPDATER_HEALTH_TTL_MS
abbrev pub updater_health_ttl_ms : ℕ
updater_health_ttl_ms = 5 * 60000

-- LOCAL_UPGRADE_PHASE_TIMEOUT_MS
abbrev pub phase_timeout_ms : JobState → ℕ
phase_timeout_ms queued = 5 * 60000
phase_timeout_ms claimed = 5 * 60000
phase_timeout_ms downloading = 5 * 60000
phase_timeout_ms verifying = 2 * 60000
phase_timeout_ms staging = 2 * 60000
phase_timeout_ms restarting = 2 * 60000
phase_timeout_ms awaiting_heartbeat = 10 * 60000
phase_timeout_ms rolling_back = 5 * 60000
phase_timeout_ms _ = 0

-- isTerminalState
abbrev pub is_terminal : JobState → Bool
is_terminal succeeded = true
is_terminal rolled_back = true
is_terminal rollback_unverified = true
is_terminal failed = true
is_terminal _ = false

-- isPostSwapState
abbrev pub is_post_swap : JobState → Bool
is_post_swap restarting = true
is_post_swap awaiting_heartbeat = true
is_post_swap rolling_back = true
is_post_swap _ = false

-- The state that a progress report sets: a phase is a state by its name.
abbrev pub state_of_phase : ProgressPhase → JobState
state_of_phase downloading = downloading
state_of_phase verifying = verifying
state_of_phase staging = staging
state_of_phase restarting = restarting
state_of_phase awaiting_heartbeat = awaiting_heartbeat
state_of_phase rolling_back = rolling_back
