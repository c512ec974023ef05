-- ===== src/Upgrade/Claim.antt =====
-- packages/api/src/local-upgrade/local-upgrade.service.ts: `reconcile` and `claim`.
use vps_manager_nodejs.Prelude.{
  ℕ, zero, suc, ◌+◌, ◌*◌, String, Bool, true, false, ◌&&◌, ◌||◌, List, [], ◌∷◌, Option, none, some,
  length, or_else, is_some, ltb, str_eq, if◌then◌else◌, Outcome, ok, err,
}
use vps_manager_nodejs.Upgrade.Job.{
  Job, JobState, UpgradeOutcome, queued, claimed, restarting, awaiting_heartbeat, is_terminal,
  is_post_swap, lease_ttl_ms,
}
use vps_manager_nodejs.Upgrade.Store.{
  World, AgentState, compare_and_set, get_active_by_vps, list_by_vps, add_audit,
}
use vps_manager_nodejs.Upgrade.Service.{
  Clock, Others, ServiceError, stale_lease, seen_updater, heartbeat_confirms, commit_terminal,
  lease_is_valid,
}
use vps_manager_nodejs.Upgrade.Verdict.{settle, settle_succeeded, error_of, agent_build}

-- A row of DEADLINE_RULING; the outcome is spelled like the state.
pub record Ruling : Type 0 where
  pub state : JobState
  pub outcome : UpgradeOutcome
  pub code : String
  pub message : String
  pub action : String

abbrev failed_before_swap : String → String → Ruling
failed_before_swap code message = record {
  state = JobState.failed;
  outcome = UpgradeOutcome.failed;
  code = code;
  message = message;
  action = "local_agent_upgrade.failure";
}

abbrev lost_after_swap : String → String → Ruling
lost_after_swap code message = record {
  state = JobState.rollback_unverified;
  outcome = UpgradeOutcome.rollback_unverified;
  code = code;
  message = message;
  action = "local_agent_upgrade.rollback";
}

-- DEADLINE_RULING
abbrev pub deadline_ruling : JobState → Option Ruling
deadline_ruling queued =
    some (failed_before_swap "claim_timeout" "Updater did not claim the upgrade in time")
deadline_ruling claimed =
    some (failed_before_swap "phase_timeout" "Upgrade timed out before the binary swap")
deadline_ruling JobState.downloading =
    some (failed_before_swap "phase_timeout" "Upgrade timed out before the binary swap")
deadline_ruling JobState.verifying =
    some (failed_before_swap "phase_timeout" "Upgrade timed out before the binary swap")
deadline_ruling JobState.staging =
    some (failed_before_swap "phase_timeout" "Upgrade timed out before the binary swap")
deadline_ruling restarting = some (
    lost_after_swap "swap_unconfirmed"
      "Restart phase timed out — the binary swap may have happened; verify the host manually")
deadline_ruling awaiting_heartbeat =
    some (lost_after_swap "heartbeat_timeout" "New agent heartbeat did not arrive in time")
deadline_ruling JobState.rolling_back =
    some (lost_after_swap "rollback_timeout" "Rollback did not confirm in time")
deadline_ruling _ = none

abbrev pub awaits_heartbeat : JobState → Bool
awaits_heartbeat awaiting_heartbeat = true
awaits_heartbeat restarting = true
awaits_heartbeat _ = false

abbrev is_past : Option ℕ → ℕ → Bool
is_past none now = false
is_past (some deadline) now = ltb deadline now

-- A phase or the whole job is past its deadline.
abbrev pub is_expired : Job → ℕ → Bool
is_expired j now = is_past j.phase_deadline_at now || ltb j.deadline_at now

abbrev pub ruling_patch : Ruling → ℕ → Job → Job
ruling_patch r now = settle r.state r.outcome (error_of r.code r.message) none none now

-- What the handler does to the world where it tries a terminal commit and goes on.
abbrev pub after_commit : World → Option (Job × World) → World
after_commit v none = v
after_commit v (some (_, u)) = u

abbrev pub rule_deadline : Job → Clock → World → Option Ruling → World
rule_deadline j clock v none = v
rule_deadline j clock v (some r) =
    after_commit v (commit_terminal j (ruling_patch r clock.now_ms) r.action false clock.stamp_ms v)

-- One round of `reconcile` on a job that it listed: `read` is the world of its reads.
unfoldable pub reconcile_job : Others → ℕ → Clock → String → Job → World → World
reconcile_job others n clock vps_id j read =
    if is_terminal j.state
    then read
    else if awaits_heartbeat j.state && heartbeat_confirms (read.agents vps_id) j clock.check_ms
    then after_commit (others n read) (
        commit_terminal j (settle_succeeded none (agent_build (read.agents vps_id)) clock.now_ms)
          "local_agent_upgrade.success" true clock.stamp_ms (others n read))
    else if is_expired j clock.now_ms
    then rule_deadline j clock (others n read) (deadline_ruling j.state)
    else read

unfoldable pub reconcile_loop : Others → Clock → String → List Job → World → World
reconcile_loop others clock vps_id [] w = w
reconcile_loop others clock vps_id (j ∷ js) w =
    reconcile_loop others clock vps_id js
      (reconcile_job others (2 * length js) clock vps_id j (others (2 * length js + 1) w))

-- reconcile
unfoldable pub reconcile : Others → Clock → String → World → World
unfolding reconcile_loop reconcile_job
reconcile others clock vps_id w = reconcile_loop others clock vps_id (list_by_vps vps_id 100 0 w) w

-- UpdaterClaimResult
pub record ClaimResult : Type 0 where
  pub job : Job
  pub requires_reconcile : Bool

abbrev pub claim_result : Job → ClaimResult
claim_result j = record { job = j; requires_reconcile = is_post_swap j.state }

abbrev pub claimed_state : JobState → JobState
claimed_state queued = claimed
claimed_state s = s

-- An empty build id is no baseline.
abbrev pub baseline_or : Option String → Option String → Option String
baseline_or (some b) seen = some b
baseline_or none (some seen) = if str_eq seen "" then none else some seen
baseline_or none none = none

-- The patch of a claim: a higher fencing token and a new lease.
abbrev pub claim_patch : Option AgentState → ℕ → Job → Job
claim_patch agent now j = record j {
  state = claimed_state j.state;
  fencing_token = j.fencing_token + 1;
  reclaim_count = if is_some j.claimed_at then j.reclaim_count + 1 else j.reclaim_count;
  claimed_at = some (or_else j.claimed_at now);
  lease_expires_at = some (now + lease_ttl_ms);
  baseline_build_id = baseline_or j.baseline_build_id (agent_build agent);
}

abbrev pub audit_claim : String → Job → World → World
audit_claim vps_id j w =
    add_audit
      (record {
        action = "local_agent_upgrade.claim";
        resource_id = vps_id;
        job_id = j.id;
        success = true;
      })
      w

unfoldable pub claim_loop :
    ℕ → Others → Clock → String → World → World × Outcome ServiceError (Option ClaimResult)
claim_loop zero others clock vps_id w = (w, err stale_lease)
claim_loop (suc n) others clock vps_id w =
    let read = others (2 * n) w in
    elim (get_active_by_vps vps_id read) [
      | none ↦ (read, ok none)
      | some j ↦ elim (lease_is_valid j.lease_expires_at clock.now_ms) [
        | true ↦ (read, ok (some (claim_result j)))
        | false ↦
            elim (compare_and_set j.id j.revision (claim_patch (read.agents vps_id) clock.now_ms)
              clock.stamp_ms (others (2 * n + 1) read)) [
                | some (updated, v) ↦ (audit_claim vps_id j v, ok (some (claim_result updated)))
                | none ↦ claim_loop n others clock vps_id (others (2 * n + 1) read)
              ]
      ]
    ]

-- claim
unfoldable pub claim :
    Others
    → Others
    → Clock
    → String
    → String
    → World
    → World × Outcome ServiceError (Option ClaimResult)
unfolding reconcile claim_loop
claim others_of_reconcile others clock vps_id credential_id w =
    claim_loop 3 others clock vps_id
      (reconcile others_of_reconcile clock vps_id (seen_updater vps_id credential_id clock w))
