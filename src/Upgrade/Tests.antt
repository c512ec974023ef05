-- ===== src/Upgrade/Tests.antt =====
-- Runs of packages/api/src/local-upgrade/local-upgrade.service.ts and of its store on concrete jobs.
use vps_manager_nodejs.Prelude.{ℕ, ◌≡◌, refl, ◌⊎◌, inr, [], ◌∷◌, none, some, ok, arith}
use vps_manager_nodejs.Upgrade.Job.{Job, JobState, ProgressPhase, UpgradeOutcome}
use vps_manager_nodejs.Upgrade.Store.{
  World, AgentState, get, get_active_by_vps, get_by_idempotency_key, compare_and_set, patched,
  record_updater_heartbeat, add_job, create_keyed, create_key, create, insert_newest, sort_newest,
  list_by_vps,
}
use vps_manager_nodejs.Upgrade.Store.Evolution.{Evolves-refl}
use vps_manager_nodejs.Upgrade.Store.Swap.{Wins, Loses, compare_and_set_total}
use vps_manager_nodejs.Upgrade.Unique.{Unique}
use vps_manager_nodejs.Upgrade.Limits.{OneActive, KeyedOnce}
use vps_manager_nodejs.Upgrade.Service.{
  Clock, Others, seen_updater, require_job, heartbeat_confirms, commit_terminal,
}
use vps_manager_nodejs.Upgrade.Progress.{ProgressInput, progress_patch, progress}
use vps_manager_nodejs.Upgrade.Verdict.{
  ResultInput, settle_succeeded, plain, commit_outcome, result_loop, report_result,
}
use vps_manager_nodejs.Upgrade.Claim.{
  ClaimResult, claim_result, claim_patch, reconcile, reconcile_loop, reconcile_job, claim_loop,
  claim,
}
use vps_manager_nodejs.Upgrade.Guarantee.{Fair}
use vps_manager_nodejs.Upgrade.Guarantee.Reports.{progress-refuses_old_token}
use vps_manager_nodejs.Upgrade.Guarantee.Claims.{Claimed, reconciled, claim-Claimed}
use vps_manager_nodejs.Upgrade.Guarantee.Judged.{Judged, report_result-Judged}

-- A job in a state, under the fencing token 2 and a lease until 5000.
abbrev job_in : JobState → Job
job_in state = record {
  id = "j1";
  vps_id = "v1";
  state = state;
  progress = none;
  release_id = "r1";
  release_version = "1.2.0";
  release_build_id = "b2";
  target_sha256 = "aa";
  target_url = "https://example.test/agent";
  target_size_bytes = none;
  manifest_raw = "{}";
  baseline_build_id = some "b1";
  baseline_heartbeat_at = some 1000;
  actor = "dashboard";
  idempotency_key = some "k1";
  message = none;
  fencing_token = 2;
  reclaim_count = 0;
  claimed_at = some 900;
  lease_expires_at = some 5000;
  deadline_at = 100000;
  phase_deadline_at = some 8000;
  error = none;
  result = none;
  revision = 4;
  created_at = 800;
  updated_at = 900;
  completed_at = none;
}

abbrev agent : AgentState
agent = record { build_id = some "b2"; last_seen_at = some 3500 }

abbrev world_of : JobState → World
world_of state = record {
  jobs = job_in state ∷ [];
  heartbeats = [];
  agents = λ v. some agent;
  audits = [];
}

abbrev at_4000 : Clock
at_4000 = record { now_ms = 4000; check_ms = 4000; stamp_ms = 4001 }

abbrev at_6000 : Clock
at_6000 = record { now_ms = 6000; check_ms = 6000; stamp_ms = 6001 }

abbrev idle : Others
idle n w = w

idle-Fair : Fair idle
idle-Fair n w unique = (unique, Evolves-refl w)

abbrev to_restarting : ℕ → ProgressInput
to_restarting token = record {
  fencing_token = token;
  phase = ProgressPhase.restarting;
  progress = some (some 60);
  message = none;
}

abbrev reported : ResultInput
reported = record {
  fencing_token = 2;
  outcome = UpgradeOutcome.succeeded;
  reported_build_id = some "b2";
  reason = none;
}

compare_and_set_total_example :
    let answer =
      compare_and_set "j1" 4
        (progress_patch (to_restarting 2) none 4000)
        4001
        (world_of JobState.staging) in
    Wins "j1" 4 (progress_patch (to_restarting 2) none 4000) 4001 (world_of JobState.staging) answer
    ⊎ Loses "j1" 4 (world_of JobState.staging) answer
compare_and_set_total_example =
    compare_and_set_total "j1" 4 (progress_patch (to_restarting 2) none 4000) 4001
      (world_of JobState.staging)

abbrev restarted : Job
restarted =
    patched (progress_patch (to_restarting 2) (some agent) 4000) 4001 (job_in JobState.staging)

found_staging : get "j1" (world_of JobState.staging) ≡ some (job_in JobState.staging)
unfolding get
found_staging = refl

progress-refuses_old_token_example : ¬ (
    (progress idle at_4000 "v1" "c1" "j1" (to_restarting 1) (world_of JobState.staging)).1
    ≡ ok restarted)
progress-refuses_old_token_example =
    progress-refuses_old_token idle idle-Fair at_4000 "v1" "j1" (to_restarting 1) "c1"
      (world_of JobState.staging) (job_in JobState.staging) restarted (refl, tt) found_staging
      (omega arith)

abbrev reclaimed : ClaimResult
reclaimed = claim_result (patched (claim_patch (some agent) 6000) 6001 (job_in JobState.staging))

reclaimed_answered :
    (claim idle idle at_6000 "v1" "c1" (world_of JobState.staging)).1 ≡ ok (some reclaimed)
unfolding claim claim_loop reconcile reconcile_loop reconcile_job list_by_vps sort_newest
    insert_newest get_active_by_vps compare_and_set get record_updater_heartbeat heartbeat_confirms
    commit_terminal
reclaimed_answered = refl

claim-Claimed_example :
    Claimed idle idle-Fair at_6000 "v1"
      (reconciled idle idle-Fair at_6000 "v1" idle idle-Fair "c1" (world_of JobState.staging))
      (claim idle idle at_6000 "v1" "c1" (world_of JobState.staging)).0
      reclaimed
claim-Claimed_example =
    claim-Claimed idle idle-Fair at_6000 "v1" idle idle-Fair "c1" (world_of JobState.staging)
      reclaimed (refl, tt) reclaimed_answered

abbrev succeeded_job : Job
succeeded_job =
    patched (settle_succeeded (some "b2") (some "b2") 4000) 4001
      (job_in JobState.awaiting_heartbeat)

success_answered :
    (report_result idle at_4000 "v1" "c1" "j1" reported (world_of JobState.awaiting_heartbeat)).1
    ≡ ok (plain succeeded_job)
unfolding report_result result_loop require_job commit_outcome commit_terminal compare_and_set get
    record_updater_heartbeat heartbeat_confirms
success_answered = refl

report_result-Judged_example :
    Judged idle idle-Fair at_4000 "v1" "j1" reported
      (seen_updater "v1" "c1" at_4000 (world_of JobState.awaiting_heartbeat))
      (report_result idle at_4000 "v1" "c1" "j1" reported (world_of JobState.awaiting_heartbeat)).0
      (plain succeeded_job)
report_result-Judged_example =
    report_result-Judged idle idle-Fair at_4000 "v1" "j1" reported "c1"
      (world_of JobState.awaiting_heartbeat) (plain succeeded_job) (refl, tt) success_answered

-- A second job of the server, after a first one that has settled.
abbrev next_job : Job
next_job = record (job_in JobState.queued) { id = "j2"; idempotency_key = some "k2" }

settled-OneActive : OneActive (world_of JobState.failed)
settled-OneActive vps_id = ground arith

settled-KeyedOnce : KeyedOnce (world_of JobState.failed)
settled-KeyedOnce vps_id key = inr (ground arith)

next_created :
    create next_job (world_of JobState.failed)
    ≡ ok (next_job, add_job next_job (world_of JobState.failed))
unfolding create create_key create_keyed get_active_by_vps get_by_idempotency_key
next_created = refl
