-- ===== src/Upgrade/View.antt =====
-- packages/api/src/local-upgrade/local-upgrade.service.ts: the state that `getAgentUpdate` shows, and
-- the reads `listJobs`, `getJob` and `getUpdaterJob`. What the catalog has resolved and the kernel
-- architecture are arguments.
pub mod Offer
use vps_manager_nodejs.Prelude.{
  ℕ, zero, String, Bool, true, false, not, ◌&&◌, ◌==◌, List, Option, none, some, length, filterb,
  if◌then◌else◌, Outcome, err,
}
use vps_manager_nodejs.Upgrade.Job.{Job, UpdaterHeartbeat}
use vps_manager_nodejs.Upgrade.Store.{World, AgentState, list_by_vps}
use vps_manager_nodejs.Upgrade.Service.{Clock, Others, ServiceError, require_job}
use vps_manager_nodejs.Upgrade.Claim.{reconcile}
use vps_manager_nodejs.Upgrade.Catalog.{
  Catalog, CatalogResult, found, unavailable, not_found, Release, get_compatible_release,
}
use vps_manager_nodejs.Upgrade.Creation.{
  arch_by_kernel, updater_is_healthy, fresh_build, supports_api, is_artifact_for, runs,
}

-- AgentUpdateState
pub data AgentUpdateState : Type 0 where
  unknown current available incompatible release_unavailable updater_unavailable : AgentUpdateState

-- AgentUpdateCompatibilityReason
pub data CompatibilityReason : Type 0 where
  ok api_incompatible unsupported_architecture release_unavailable : CompatibilityReason

-- `artifacts.length > 0` of the artifacts for the architecture.
abbrev pub has_artifact : String → Release → Bool
has_artifact arch r = not (length (filterb (is_artifact_for arch) r.artifacts) == 0)

abbrev pub is_compatible : String → Release → Bool
is_compatible arch r = supports_api r && has_artifact arch r

-- The chain of tests from the agent's heartbeat on.
abbrev pub state_of_build :
    Option String → Option UpdaterHeartbeat → String → Release → ℕ → AgentUpdateState
state_of_build none heartbeat arch r now = unknown
state_of_build (some build) heartbeat arch r now =
    if runs build r
    then current
    else if not (is_compatible arch r)
    then incompatible
    else if not (updater_is_healthy heartbeat now)
    then updater_unavailable
    else available

abbrev pub state_of_release :
    CatalogResult → Option UpdaterHeartbeat → Option AgentState → String → ℕ → AgentUpdateState
state_of_release (found r) heartbeat agent arch now =
    state_of_build (fresh_build agent now) heartbeat arch r now
state_of_release (unavailable reason) heartbeat agent arch now =
    AgentUpdateState.release_unavailable
state_of_release not_found heartbeat agent arch now = AgentUpdateState.release_unavailable

-- The `state` of the view.
unfoldable pub update_state :
    Option UpdaterHeartbeat → Option AgentState → String → Catalog → ℕ → AgentUpdateState
unfolding get_compatible_release
update_state heartbeat agent kernel catalog now = elim (arch_by_kernel kernel) [
  | none ↦ incompatible
  | some arch ↦
      state_of_release (get_compatible_release catalog "stable" "linux" arch) heartbeat agent arch
        now
]

abbrev reason_of_release : CatalogResult → String → CompatibilityReason
reason_of_release (found r) arch =
    if not (supports_api r)
    then api_incompatible
    else if not (has_artifact arch r)
    then unsupported_architecture
    else ok
reason_of_release (unavailable reason) arch = CompatibilityReason.release_unavailable
reason_of_release not_found arch = CompatibilityReason.release_unavailable

-- The `reason` of the view.
unfoldable pub update_reason : String → Catalog → CompatibilityReason
unfolding get_compatible_release
update_reason kernel catalog = elim (arch_by_kernel kernel) [
  | none ↦ unsupported_architecture
  | some arch ↦ reason_of_release (get_compatible_release catalog "stable" "linux" arch) arch
]

pub data ReadError : Type 0 where
  vps_not_found : ReadError
  refused : ServiceError → ReadError

-- listJobs; `known` is whether the server has a record.
unfoldable pub list_jobs :
    Bool → Others → Clock → String → ℕ → ℕ → World → World × Outcome ReadError (List Job)
list_jobs false others clock vps_id limit offset w = (w, err vps_not_found)
list_jobs true others clock vps_id limit offset w =
    let v = reconcile others clock vps_id w in (v, Outcome.ok (list_by_vps vps_id limit offset v))

abbrev as_read_error : Outcome ServiceError Job → Outcome ReadError Job
as_read_error (Outcome.ok j) = Outcome.ok j
as_read_error (err e) = err (refused e)

-- getJob; getUpdaterJob is the same on a server that has authenticated.
unfoldable pub get_job :
    Bool → Others → Clock → String → String → World → World × Outcome ReadError Job
get_job false others clock vps_id id w = (w, err vps_not_found)
get_job true others clock vps_id id w =
    let v = reconcile others clock vps_id w in (v, as_read_error (require_job vps_id id v))
