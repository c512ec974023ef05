-- ===== src/Upgrade/Creation.antt =====
-- packages/api/src/local-upgrade/local-upgrade.service.ts: `createJob`. What the release
-- catalog has resolved, the kernel architecture that the agent reported, the server record and the random id are arguments; so is what
-- other requests write at each wait. The freshness tests of one call read one clock.
use vps_manager_nodejs.Prelude.{
  ℕ, ◌+◌, String, Bool, true, false, not, ◌&&◌, ◌||◌, Option, none, some, find, leb, if◌then◌else◌,
  str_eq, Outcome, ok, err, ◌>>=◌, ◌>>◌, guard, or_throw,
}
use vps_manager_nodejs.Upgrade.Job.{
  Job, JobState, UpdaterHeartbeat, overall_deadline_ms, updater_health_ttl_ms, phase_timeout_ms,
}
use vps_manager_nodejs.Upgrade.Store.{
  World, AgentState, Violation, active, idempotency, get, get_active_by_vps, get_by_idempotency_key,
  get_updater_heartbeat, create, add_audit,
}
use vps_manager_nodejs.Upgrade.Catalog.{
  Artifact, Catalog, Release, CatalogResult, found, unavailable, not_found, get_release_by_id,
}
use vps_manager_nodejs.Upgrade.Service.{Clock, Others, is_fresh, is_fresh_timestamp}

-- AGENT_API_CONTRACT_VERSION of packages/api/src/local-upgrade/versions.ts
abbrev pub agent_api_contract_version : ℕ
agent_api_contract_version = 2

pub data CreateError : Type 0 where
  demo_blocked vps_not_found not_local updater_unhealthy architecture_unknown : CreateError
  agent_unavailable release_changed api_incompatible no_artifact already_current : CreateError
  release_unavailable : String → CreateError
  active_job : Option String → CreateError

-- ARCH_BY_KERNEL
abbrev pub arch_by_kernel : String → Option String
arch_by_kernel kernel =
    if str_eq kernel "x86_64" || str_eq kernel "amd64"
    then some "amd64"
    else if str_eq kernel "aarch64" || str_eq kernel "arm64"
    then some "arm64"
    else none

abbrev pub updater_is_healthy : Option UpdaterHeartbeat → ℕ → Bool
updater_is_healthy none now = false
updater_is_healthy (some h) now = is_fresh_timestamp h.last_seen_at updater_health_ttl_ms now

abbrev pub named_build : Option String → Bool → Option String
named_build none fresh = none
named_build (some build) fresh = if fresh && not (str_eq build "") then some build else none

-- The build of an agent whose heartbeat is fresh; an empty build id is none.
abbrev pub fresh_build : Option AgentState → ℕ → Option String
fresh_build none now = none
fresh_build (some a) now = named_build a.build_id (is_fresh a.last_seen_at now)

abbrev pub release_of : CatalogResult → Outcome CreateError Release
release_of (found r) = ok r
release_of (unavailable reason) = err (release_unavailable reason)
release_of not_found = err release_changed

abbrev pub supports_api : Release → Bool
supports_api r =
    leb r.api_min agent_api_contract_version && leb agent_api_contract_version r.api_max

abbrev pub is_artifact_for : String → Artifact → Bool
is_artifact_for arch a = str_eq a.os "linux" && str_eq a.arch arch

abbrev pub runs : String → Release → Bool
runs build r = str_eq build r.release_id || str_eq build r.build_id

-- What the job is made of.
pub record Target : Type 0 where
  pub build : String
  pub release : Release
  pub artifact : Artifact

-- The tests of `createJob` on the requested `release_id`, from the updater's heartbeat on, in their order.
unfoldable pub eligible :
    Option UpdaterHeartbeat
    → Option AgentState
    → String
    → Catalog
    → String
    → ℕ
    → Outcome CreateError Target
unfolding get_release_by_id
eligible heartbeat agent kernel catalog release_id now =
    guard (updater_is_healthy heartbeat now) updater_unhealthy
    >> or_throw (arch_by_kernel kernel) architecture_unknown
    >>= (λ arch. or_throw (fresh_build agent now) agent_unavailable >>= (λ build.
        release_of (get_release_by_id catalog release_id "linux" arch) >>= (λ release.
          guard (supports_api release) api_incompatible
          >> or_throw (find (is_artifact_for arch) release.artifacts) no_artifact
          >>= (λ artifact.
              guard (not (runs build release)) already_current
              >> ok (record { build = build; release = release; artifact = artifact })))))

-- The new job.
abbrev pub new_job : String → String → Option String → String → ℕ → Target → Job
new_job id vps_id key actor now t = record {
  id = id;
  vps_id = vps_id;
  state = JobState.queued;
  progress = none;
  release_id = t.release.release_id;
  release_version = t.release.version;
  release_build_id = t.release.build_id;
  target_sha256 = t.artifact.sha256;
  target_url = t.artifact.url;
  target_size_bytes = some t.artifact.size;
  manifest_raw = t.release.manifest_raw;
  baseline_build_id = some t.build;
  baseline_heartbeat_at = none;
  actor = actor;
  idempotency_key = key;
  message = none;
  fencing_token = 0;
  reclaim_count = 0;
  claimed_at = none;
  lease_expires_at = none;
  deadline_at = now + overall_deadline_ms;
  phase_deadline_at = some (now + phase_timeout_ms JobState.queued);
  error = none;
  result = none;
  revision = 0;
  created_at = now;
  updated_at = now;
  completed_at = none;
}

-- CreateLocalUpgradeResult
pub record CreateResult : Type 0 where
  pub job : Job
  pub created : Bool

abbrev pub Answer : Type 0
Answer = World × Outcome CreateError CreateResult

abbrev id_of : Option Job → Option String
id_of none = none
id_of (some j) = some j.id

-- The `catch`: another request was first.
abbrev pub beaten : Violation → World → Answer
beaten (idempotency existing) w = elim (get existing w) [
  | some j ↦ (w, ok (record { job = j; created = false }))
  | none ↦ (w, err (active_job none))
]
beaten (active existing) w = (w, err (active_job (id_of (get existing w))))

abbrev pub audit_create : Job → World → World
audit_create j w =
    add_audit
      (record {
        action = "local_agent_upgrade.create";
        resource_id = j.vps_id;
        job_id = j.id;
        success = true;
      })
      w

unfoldable pub insert_job : Others → Job → World → Answer
insert_job others j w = elim (create j (others 4 w)) [
  | err violation ↦ beaten violation (others 5 (others 4 w))
  | ok (made, v) ↦ (audit_create made v, ok (record { job = made; created = true }))
]

-- From the test for an active job on.
unfoldable pub create_new :
    Others
    → Clock
    → String
    → Catalog
    → String
    → String
    → String
    → Option String
    → String
    → World
    → Answer
unfolding insert_job
create_new others clock kernel catalog release_id id vps_id key actor w =
    let at_active = others 1 w in
    elim (get_active_by_vps vps_id at_active) [
      | some j ↦ (at_active, err (active_job (some j.id)))
      | none ↦
          let at_heartbeat = others 2 at_active in
          let at_agent = others 3 at_heartbeat in
          elim (eligible (get_updater_heartbeat vps_id at_heartbeat) (at_agent.agents vps_id) kernel
            catalog release_id clock.check_ms) [
              | err e ↦ (at_agent, err e)
              | ok t ↦ insert_job others (new_job id vps_id key actor clock.now_ms t) at_agent
            ]
    ]

abbrev pub replay_of : Option String → String → World → Option Job
replay_of none vps_id w = none
replay_of (some key) vps_id w = if str_eq key "" then none else get_by_idempotency_key vps_id key w

abbrev pub given_key : Option String → Option String
given_key none = none
given_key (some key) = if str_eq key "" then none else some key

-- createJob; `vps` is the server's record, reduced to whether it is the local host.
unfoldable pub create_job :
    Bool
    → Option Bool
    → Others
    → Clock
    → String
    → Catalog
    → String
    → String
    → String
    → Option String
    → String
    → World
    → Answer
unfolding create_new
create_job true vps others clock kernel catalog release_id id vps_id key actor w =
    (w, err demo_blocked)
create_job false none others clock kernel catalog release_id id vps_id key actor w =
    (w, err vps_not_found)
create_job false (some false) others clock kernel catalog release_id id vps_id key actor w =
    (w, err not_local)
create_job false (some true) others clock kernel catalog release_id id vps_id key actor w =
    let at_key = others 0 w in
    elim (replay_of key vps_id at_key) [
      | some j ↦ (at_key, ok (record { job = j; created = false }))
      | none ↦
          create_new others clock kernel catalog release_id id vps_id (given_key key) actor at_key
    ]
