-- ===== src/Upgrade/Verdict.antt =====
-- packages/api/src/local-upgrade/local-upgrade.service.ts: `result` and `ruleRollback`.
use vps_manager_nodejs.Prelude.{
  ℕ, zero, suc, ◌+◌, ◌*◌, String, Bool, true, false, not, str_eq, ◌&&◌, ◌||◌, Option, none, some,
  or_else, ◌==◌, if◌then◌else◌, Outcome, ok, err,
}
use Prim.Native.String
use vps_manager_nodejs.Upgrade.Job.{
  Job, JobState, JobError, JobResult, UpgradeOutcome, is_terminal, is_post_swap,
}
use vps_manager_nodejs.Upgrade.Store.{World, AgentState, get}
use vps_manager_nodejs.Upgrade.Service.{
  Clock, Others, ServiceError, job_terminal, stale_lease, require_job, holds_lease, seen_updater,
  heartbeat_confirms, baseline_verified, commit_terminal,
}

-- LocalUpdaterResultInput; the schema lets no empty build id through.
pub record ResultInput : Type 0 where
  pub fencing_token : ℕ
  pub outcome : UpgradeOutcome
  pub reported_build_id : Option String
  pub reason : Option String

-- UpdaterResultOutcome
pub record Verdict : Type 0 where
  pub job : Job
  pub await_heartbeat : Bool

-- A job settled at `now` in a terminal state.
abbrev pub settle :
    JobState → UpgradeOutcome → Option JobError → Option String → Option String → ℕ → Job → Job
settle state outcome error reported heartbeat now j = record j {
  state = state;
  completed_at = some now;
  error = error;
  result = some (record {
    outcome = outcome;
    reported_build_id = reported;
    heartbeat_build_id = heartbeat;
    completed_at = now;
  });
}

abbrev pub error_of : String → String → Option JobError
error_of code message = some (record { code = code; message = message })

-- The success patch leaves the error as it is and reports all of the progress.
abbrev pub settle_succeeded : Option String → Option String → ℕ → Job → Job
settle_succeeded reported heartbeat now j =
    settle JobState.succeeded UpgradeOutcome.succeeded j.error reported heartbeat now
      (record j { progress = some 100 })

abbrev post_swap_message : Option String → String
post_swap_message none =
    "Upgrade failed at or after the binary swap; verify the host before cleanup"
post_swap_message (some reason) =
    if str_eq reason ""
    then "Upgrade failed at or after the binary swap; verify the host before cleanup"
    else String.◌++◌ "Upgrade failed at or after the binary swap: " reason

abbrev pub agent_build : Option AgentState → Option String
agent_build none = none
agent_build (some a) = a.build_id

-- The patch of `ruleRollback`.
abbrev pub rollback_patch : Bool → Option AgentState → ResultInput → ℕ → Job → Job
rollback_patch true agent input now =
    settle JobState.rolled_back UpgradeOutcome.rolled_back none input.reported_build_id
      (agent_build agent) now
rollback_patch false agent input now =
    settle JobState.rollback_unverified UpgradeOutcome.rollback_unverified
      (error_of "rollback_unverified" (
        or_else input.reason
          "Pre-upgrade heartbeat was not verified after rollback; verify the host manually"))
      input.reported_build_id none now

-- ruleRollback: it reads the agent's state in one world and commits in a later one.
unfoldable pub rule_rollback : Job → ResultInput → Clock → World → World → Option (Job × World)
rule_rollback j input clock read v =
    let verified = baseline_verified (read.agents j.vps_id) j clock.check_ms in
    commit_terminal j (rollback_patch verified (read.agents j.vps_id) input clock.now_ms)
      "local_agent_upgrade.rollback" verified clock.stamp_ms v

-- The patch of a `failed` report: after the swap it settles as an unverified rollback.
abbrev pub failed_patch : Bool → ResultInput → ℕ → Job → Job
failed_patch true input now =
    settle JobState.rollback_unverified UpgradeOutcome.rollback_unverified
      (error_of "post_swap_failed" (post_swap_message input.reason)) input.reported_build_id none
      now
failed_patch false input now =
    settle JobState.failed UpgradeOutcome.failed
      (error_of "update_failed" (or_else input.reason "Updater reported a failed upgrade"))
      input.reported_build_id none now

abbrev pub failed_action : Bool → String
failed_action true = "local_agent_upgrade.rollback"
failed_action false = "local_agent_upgrade.failure"

abbrev pub unverified_patch : ResultInput → ℕ → Job → Job
unverified_patch input now =
    settle JobState.rollback_unverified UpgradeOutcome.rollback_unverified
      (error_of "rollback_unverified"
        (or_else input.reason "Updater could not verify the rollback"))
      input.reported_build_id none now

-- The commit that each outcome asks for on a live job under its lease; `succeeded` is asked only
-- of a job that the heartbeat confirms.
unfoldable pub commit_outcome :
    UpgradeOutcome → Job → ResultInput → Clock → World → World → Option (Job × World)
unfolding rule_rollback
commit_outcome UpgradeOutcome.failed j input clock read v =
    commit_terminal j (failed_patch (is_post_swap j.state) input clock.now_ms)
      (failed_action (is_post_swap j.state)) false clock.stamp_ms v
commit_outcome UpgradeOutcome.rollback_unverified j input clock read v =
    commit_terminal j (unverified_patch input clock.now_ms) "local_agent_upgrade.rollback" false
      clock.stamp_ms v
commit_outcome UpgradeOutcome.rolled_back j input clock read v = rule_rollback j input clock read v
commit_outcome UpgradeOutcome.succeeded j input clock read v =
    commit_terminal j
      (settle_succeeded input.reported_build_id (agent_build (read.agents j.vps_id)) clock.now_ms)
      "local_agent_upgrade.success" true clock.stamp_ms v

abbrev pub same_outcome : UpgradeOutcome → UpgradeOutcome → Bool
same_outcome UpgradeOutcome.succeeded UpgradeOutcome.succeeded = true
same_outcome UpgradeOutcome.rolled_back UpgradeOutcome.rolled_back = true
same_outcome UpgradeOutcome.rollback_unverified UpgradeOutcome.rollback_unverified = true
same_outcome UpgradeOutcome.failed UpgradeOutcome.failed = true
same_outcome _ _ = false

abbrev pub is_failed_report : UpgradeOutcome → Bool
is_failed_report UpgradeOutcome.failed = true
is_failed_report _ = false

-- The committed outcome answers the report: it is the same, or an unverified rollback for `failed`.
abbrev pub answers : Option JobResult → UpgradeOutcome → Bool
answers none reported = false
answers (some r) reported =
    same_outcome r.outcome reported
    || (is_failed_report reported && same_outcome r.outcome UpgradeOutcome.rollback_unverified)

-- The idempotent replay at the end of the terminal branch.
unfoldable pub replay : Job → ResultInput → Outcome ServiceError Verdict
replay j input =
    if (input.fencing_token == j.fencing_token) && answers j.result input.outcome
    then ok (record { job = j; await_heartbeat = false })
    else err job_terminal

abbrev pub refinable : JobState → UpgradeOutcome → Bool
refinable JobState.rollback_unverified UpgradeOutcome.rolled_back = true
refinable _ _ = false

abbrev pub plain : Job → Verdict
plain j = record { job = j; await_heartbeat = false }

-- The terminal branch of `result`: a late refinement, or a replay. The job is read again in `late`,
-- after a refinement that another writer was faster than.
unfoldable pub result_settled :
    Job → ResultInput → Clock → World → World → World → World × Outcome ServiceError Verdict
unfolding replay rule_rollback
result_settled j input clock read v late =
    if refinable j.state input.outcome
    then elim (rule_rollback j input clock read v) [
      | some (refined, u) ↦ (u, ok (plain refined))
      | none ↦ elim (get j.id late) [
        | some current ↦ (late, ok (plain current))
        | none ↦ (late, replay j input)
      ]
    ]
    else (read, replay j input)

-- A `succeeded` report that no heartbeat confirms yet.
abbrev pub unconfirmed : Job → ResultInput → Clock → World → Bool
unconfirmed j input clock read =
    same_outcome input.outcome UpgradeOutcome.succeeded
    && not (heartbeat_confirms (read.agents j.vps_id) j clock.check_ms)

unfoldable pub result_loop :
    ℕ
    → Others
    → Clock
    → String
    → String
    → ResultInput
    → World
    → World × Outcome ServiceError Verdict
unfolding result_settled
result_loop zero others clock vps_id id input w = (w, err stale_lease)
result_loop (suc n) others clock vps_id id input w =
    let read = others (2 * n) w in
    elim (require_job vps_id id read) [
      | err e ↦ (read, err e)
      | ok j ↦ elim (is_terminal j.state) [
        | true ↦
            result_settled j input clock read (others (2 * n + 1) read)
              (others (6 + n) (others (2 * n + 1) read))
        | false ↦ elim (holds_lease j input.fencing_token clock.now_ms) [
          | false ↦ (read, err stale_lease)
          | true ↦ elim (unconfirmed j input clock read) [
            | true ↦ (read, ok (record { job = j; await_heartbeat = true }))
            | false ↦
                elim (commit_outcome input.outcome j input clock read (others (2 * n + 1) read)) [
                  | some (updated, v) ↦ (v, ok (plain updated))
                  | none ↦ result_loop n others clock vps_id id input (others (2 * n + 1) read)
                ]
          ]
        ]
      ]
    ]

-- The handler `result`.
unfoldable pub report_result :
    Others
    → Clock
    → String
    → String
    → String
    → ResultInput
    → World
    → World × Outcome ServiceError Verdict
unfolding result_loop
report_result others clock vps_id credential_id id input w =
    result_loop 3 others clock vps_id id input (seen_updater vps_id credential_id clock w)
