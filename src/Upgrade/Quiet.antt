-- ===== src/Upgrade/Quiet.antt =====
-- packages/api/src/local-upgrade/local-upgrade.service.ts: where no other request writes while a
-- handler runs, it does what it is asked at the first attempt.
use vps_manager_nodejs.Prelude.{
  ℕ, suc, ◌≡◌, refl, ap, ◌∙◌, String, Bool, true, false, some, ok, ◌==◌, ==_iff,
}
use vps_manager_nodejs.Upgrade.Job.{Job, UpgradeOutcome, is_terminal}
use vps_manager_nodejs.Upgrade.Store.{
  World, get, compare_and_set, patched, set_job, record_updater_heartbeat, add_audit,
}
use vps_manager_nodejs.Upgrade.Service.{
  Clock, Others, require_job, holds_lease, seen_updater, commit_terminal,
}
use vps_manager_nodejs.Upgrade.Progress.{ProgressInput, progress_patch, progress_loop, progress}
use vps_manager_nodejs.Upgrade.Verdict.{
  ResultInput, commit_outcome, unconfirmed, plain, result_loop, report_result,
}
use vps_manager_nodejs.Upgrade.Guarantee.{require_job-get}
use vps_manager_nodejs.Upgrade.Guarantee.Verdicts.{
  outcome_patch, outcome_action, outcome_success, commit_outcome-commit_terminal,
}

-- No other request writes.
abbrev pub quiet : Others
quiet n w = w

compare_and_set-current :
    (j : Job) (patch : Job → Job) (stamp : ℕ) (w : World)
    → get j.id w ≡ some j
    → compare_and_set j.id j.revision patch stamp w
      ≡ some (patched patch stamp j, set_job j.id (patched patch stamp j) w)
unfolding compare_and_set
compare_and_set-current j patch stamp w found =
    let same : (j.revision == j.revision) ≡ true = (==_iff j.revision j.revision).1 refl in
    rw (found, same, compare_and_set) refl

require_job-seen :
    (vps_id credential_id id : String) (clock : Clock) (w : World)
    → require_job vps_id id (seen_updater vps_id credential_id clock w) ≡ require_job vps_id id w
unfolding require_job get record_updater_heartbeat
require_job-seen vps_id credential_id id clock w = refl

module _ (clock : Clock) (vps_id id : String) (input : ProgressInput) where
  progress_loop-accepts :
      (n : ℕ) (w : World) (j : Job)
      → require_job vps_id id w ≡ ok j
      → is_terminal j.state ≡ false
      → holds_lease j input.fencing_token clock.now_ms ≡ true
      → (progress_loop (suc n) quiet clock vps_id id input w).1
        ≡ ok (patched (progress_patch input (w.agents j.vps_id) clock.now_ms) clock.stamp_ms j)
  unfolding progress_loop
  progress_loop-accepts n w j here live held =
      let (found, _, _) = require_job-get vps_id id w j here in
      let won =
        compare_and_set-current j (progress_patch input (w.agents j.vps_id) clock.now_ms)
          clock.stamp_ms w found in
      rw (here, live, held, won, progress_loop) refl

  -- A progress report on a live job, under its fencing token and a lease that has not expired, is
  -- accepted if no other request writes meanwhile: the answer is the job with the report's patch.
  pub progress-accepts :
      (credential_id : String) (w : World) (j : Job)
      → require_job vps_id id w ≡ ok j
      → is_terminal j.state ≡ false
      → holds_lease j input.fencing_token clock.now_ms ≡ true
      → (progress quiet clock vps_id credential_id id input w).1
        ≡ ok (patched (progress_patch input (w.agents j.vps_id) clock.now_ms) clock.stamp_ms j)
  unfolding progress record_updater_heartbeat
  progress-accepts credential_id w j here live held =
      progress_loop-accepts 2 (seen_updater vps_id credential_id clock w) j
        (require_job-seen vps_id credential_id id clock w ∙ here) live held

commit_terminal-current :
    (j new : Job) (patch : Job → Job) (action : String) (success : Bool) (stamp : ℕ) (w u : World)
    → compare_and_set j.id j.revision patch stamp w ≡ some (new, u)
    → (v : World) × (commit_terminal j patch action success stamp w ≡ some (new, v))
unfolding commit_terminal
commit_terminal-current j new patch action success stamp w u won = (
  add_audit (record { action = action; resource_id = j.vps_id; job_id = j.id; success = success })
      u,
  rw (won, commit_terminal) refl,
)

outcome_patch-seen :
    (o : UpgradeOutcome) (j : Job) (input : ResultInput) (clock : Clock)
    (vps_id credential_id : String) (w : World)
    → outcome_patch o j input clock (seen_updater vps_id credential_id clock w)
      ≡ outcome_patch o j input clock w
unfolding record_updater_heartbeat
outcome_patch-seen UpgradeOutcome.succeeded j input clock vps_id credential_id w = refl
outcome_patch-seen UpgradeOutcome.rolled_back j input clock vps_id credential_id w = refl
outcome_patch-seen UpgradeOutcome.rollback_unverified j input clock vps_id credential_id w = refl
outcome_patch-seen UpgradeOutcome.failed j input clock vps_id credential_id w = refl

module _ (clock : Clock) (vps_id id : String) (input : ResultInput) where
  commit_outcome-current :
      (w : World) (j : Job)
      → get j.id w ≡ some j
      → (v : World) × (commit_outcome input.outcome j input clock w w
          ≡ some (patched (outcome_patch input.outcome j input clock w) clock.stamp_ms j, v))
  commit_outcome-current w j found =
      let patch = outcome_patch input.outcome j input clock w in
      let new = patched patch clock.stamp_ms j in
      let (v, won) =
        commit_terminal-current j new patch (outcome_action input.outcome j)
          (outcome_success input.outcome j clock w) clock.stamp_ms w (set_job j.id new w)
          (compare_and_set-current j patch clock.stamp_ms w found) in
      (v, commit_outcome-commit_terminal input.outcome j input clock w w ∙ won)

  result_loop-settles :
      (n : ℕ) (w : World) (j : Job)
      → require_job vps_id id w ≡ ok j
      → is_terminal j.state ≡ false
      → holds_lease j input.fencing_token clock.now_ms ≡ true
      → unconfirmed j input clock w ≡ false
      → (result_loop (suc n) quiet clock vps_id id input w).1
        ≡ ok (plain (patched (outcome_patch input.outcome j input clock w) clock.stamp_ms j))
  unfolding result_loop
  result_loop-settles n w j here live held confirmed =
      let (found, _, _) = require_job-get vps_id id w j here in
      let (v, won) = commit_outcome-current w j found in
      rw (here, live, held, confirmed, won, result_loop) refl

  -- A result of a live job, under its fencing token and a lease that has not expired, is settled if no
  -- other request writes meanwhile, unless it is a success that no heartbeat confirms: the answer is
  -- the job with the patch of its outcome, which is not told to wait.
  pub report_result-settles :
      (credential_id : String) (w : World) (j : Job)
      → require_job vps_id id w ≡ ok j
      → is_terminal j.state ≡ false
      → holds_lease j input.fencing_token clock.now_ms ≡ true
      → unconfirmed j input clock w ≡ false
      → (report_result quiet clock vps_id credential_id id input w).1
        ≡ ok (plain (patched (outcome_patch input.outcome j input clock w) clock.stamp_ms j))
  unfolding report_result record_updater_heartbeat
  report_result-settles credential_id w j here live held confirmed =
      result_loop-settles 2 (seen_updater vps_id credential_id clock w) j
        (require_job-seen vps_id credential_id id clock w ∙ here) live held confirmed
      ∙ ap (λ p. ok (plain (patched p clock.stamp_ms j)))
          (outcome_patch-seen input.outcome j input clock vps_id credential_id w)
