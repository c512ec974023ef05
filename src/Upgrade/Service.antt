-- ===== src/Upgrade/Service.antt =====
-- packages/api/src/local-upgrade/local-upgrade.service.ts, what its handlers share: the clock, the
-- other writers, the guards, the heartbeat tests and the terminal commit.
-- A handler reads a job, waits, and commits by compare-and-set, so other requests may write in
-- between. They are a parameter `Others`: what they do to the world at the n-th such point.
use vps_manager_nodejs.Prelude.{
  ℕ, ◌-◌, String, Bool, true, false, ◌&&◌, Option, none, some, ltb, leb, ◌==◌, if◌then◌else◌,
  str_eq, Outcome, ok, err,
}
use vps_manager_nodejs.Upgrade.Job.{Job}
use vps_manager_nodejs.Upgrade.Store.{
  World, AgentState, get, compare_and_set, record_updater_heartbeat, add_audit,
}

-- The readings of the clock in one call: `nowMs`, `Date.now()` in a freshness test, and the time
-- that the store stamps on a write.
pub record Clock : Type 0 where
  pub now_ms : ℕ
  pub check_ms : ℕ
  pub stamp_ms : ℕ

abbrev pub Others : Type 0
Others = ℕ → World → World

pub data ServiceError : Type 0 where
  job_not_found job_terminal stale_lease : ServiceError

-- HOST_FRESHNESS_THRESHOLD_MS
abbrev pub host_freshness_threshold_ms : ℕ
host_freshness_threshold_ms = 120000

-- isFreshTimestamp of packages/api/src/common/host-health.ts, at a time that parses.
abbrev pub is_fresh_timestamp : ℕ → ℕ → ℕ → Bool
is_fresh_timestamp time threshold now = leb time now && ltb (now - time) threshold

abbrev pub is_fresh : Option ℕ → ℕ → Bool
is_fresh none now = false
is_fresh (some time) now = is_fresh_timestamp time host_freshness_threshold_ms now

abbrev pub same_build : Option String → String → Bool
same_build none build = false
same_build (some b) build = str_eq b build

-- `Date.parse(seen) > Date.parse(baseline)` for a heartbeat that is there.
abbrev pub is_after : Option ℕ → ℕ → Bool
is_after none baseline = false
is_after (some seen) baseline = ltb baseline seen

-- `job.baselineHeartbeatAt == null || …`
abbrev pub is_after_baseline : Option ℕ → Option ℕ → Bool
is_after_baseline seen none = true
is_after_baseline seen (some baseline) = is_after seen baseline

-- The heartbeat test that confirms the new build, in `result` and in `reconcile`.
unfoldable pub heartbeat_confirms : Option AgentState → Job → ℕ → Bool
heartbeat_confirms none j now = false
heartbeat_confirms (some a) j now =
    same_build a.build_id j.release_build_id
    && is_fresh a.last_seen_at now
    && is_after_baseline a.last_seen_at j.baseline_heartbeat_at

-- `baselineVerified` of `ruleRollback`: its build and its time are both known and both met.
abbrev pub meets_baseline : AgentState → Option ℕ → Option String → ℕ → Bool
meets_baseline a (some at) (some build) now =
    same_build a.build_id build && is_fresh a.last_seen_at now && is_after a.last_seen_at at
meets_baseline a _ _ now = false

unfoldable pub baseline_verified : Option AgentState → Job → ℕ → Bool
baseline_verified none j now = false
baseline_verified (some a) j now = meets_baseline a j.baseline_heartbeat_at j.baseline_build_id now

-- requireJob
unfoldable pub require_job : String → String → World → Outcome ServiceError Job
require_job vps_id id w = elim (get id w) [
  | none ↦ err job_not_found
  | some j ↦ if str_eq j.vps_id vps_id then ok j else err job_not_found
]

abbrev pub lease_is_valid : Option ℕ → ℕ → Bool
lease_is_valid none now = false
lease_is_valid (some expires) now = leb now expires

-- assertLease, as a test.
abbrev pub holds_lease : Job → ℕ → ℕ → Bool
holds_lease j token now = token == j.fencing_token && lease_is_valid j.lease_expires_at now

-- commitTerminal: the audit entry is written only by the writer that wins.
unfoldable pub commit_terminal :
    Job → (Job → Job) → String → Bool → ℕ → World → Option (Job × World)
commit_terminal j patch action success stamp w =
    elim (compare_and_set j.id j.revision patch stamp w) [
      | none ↦ none
      | some (updated, v) ↦ some (
        updated,
        add_audit
            (record { action = action; resource_id = j.vps_id; job_id = j.id; success = success })
            v,
      )
    ]

-- The heartbeat that every updater call leaves.
abbrev pub seen_updater : String → String → Clock → World → World
seen_updater vps_id credential_id clock w =
    record_updater_heartbeat
      (record { vps_id = vps_id; last_seen_at = clock.now_ms; credential_id = some credential_id })
      w
