-- ===== src/Upgrade/Forgotten.antt =====
-- packages/api/src/local-upgrade/local-upgrade.service.ts: `progress` takes any phase from any live
-- state, and `result` tests only the present state for the swap.
use vps_manager_nodejs.Prelude.{
  ℕ, ◌+◌, ◌≤◌, ◌≡◌, refl, String, true, false, none, some, ok, arith, subst, eq_iff,
}
use vps_manager_nodejs.Upgrade.Job.{
  Job, JobState, ProgressPhase, UpgradeOutcome, is_terminal, is_post_swap, lease_ttl_ms,
}
use vps_manager_nodejs.Upgrade.Store.{World, get, patched}
use vps_manager_nodejs.Upgrade.Store.Evolution.{Evolves-refl}
use vps_manager_nodejs.Upgrade.Unique.{Unique}
use vps_manager_nodejs.Upgrade.Service.{Clock, require_job, holds_lease}
use vps_manager_nodejs.Upgrade.Progress.{ProgressInput, progress_patch, progress}
use vps_manager_nodejs.Upgrade.Verdict.{ResultInput, Verdict, plain, report_result}
use vps_manager_nodejs.Upgrade.Guarantee.{Fair, require_job-get}
use vps_manager_nodejs.Upgrade.Guarantee.Reports.{progress-Accepted}
use vps_manager_nodejs.Upgrade.Guarantee.Verdicts.{outcome_patch}
use vps_manager_nodejs.Upgrade.Quiet.{quiet, progress-accepts, report_result-settles}

pub quiet-Fair : Fair quiet
quiet-Fair n w unique = (unique, Evolves-refl w)

-- A report that the updater is downloading again.
abbrev pub back_to_download : ℕ → ProgressInput
back_to_download token = record {
  fencing_token = token;
  phase = ProgressPhase.downloading;
  progress = none;
  message = none;
}

abbrev pub failure : ℕ → ResultInput
failure token = record {
  fencing_token = token;
  outcome = UpgradeOutcome.failed;
  reported_build_id = none;
  reason = none;
}

get-require_job :
    (vps_id id : String) (v : World) (j : Job)
    → get id v ≡ some j
    → j.vps_id ≡ vps_id
    → require_job vps_id id v ≡ ok j
unfolding require_job
get-require_job vps_id id v j found own =
    let same = (eq_iff j.vps_id vps_id).1 own in rw (found, same, require_job) refl

post_swap-live : (s : JobState) → is_post_swap s ≡ true → is_terminal s ≡ false
post_swap-live JobState.restarting e = refl
post_swap-live JobState.awaiting_heartbeat e = refl
post_swap-live JobState.rolling_back e = refl
post_swap-live _ e = cc

-- A job that is past the swap (restarting, awaiting the heartbeat, or rolling back) is settled as
-- `failed`, not as an unverified rollback, if its updater under its lease reports that it downloads
-- again and then, within the new lease, that the upgrade failed, where no other request writes
-- meanwhile and the job ids are unique.
pub swap_forgotten :
    (clock later : Clock) (vps_id credential_id id : String) (token : ℕ) (w : World) (j : Job)
    → Unique w.jobs
    → require_job vps_id id w ≡ ok j
    → is_post_swap j.state ≡ true
    → holds_lease j token clock.now_ms ≡ true
    → later.now_ms ≤ clock.now_ms + lease_ttl_ms
    → let v = (progress quiet clock vps_id credential_id id (back_to_download token) w).0 in
      (verdict : Verdict) × ((report_result quiet later vps_id credential_id id (failure token) v).1
        ≡ ok verdict)
      × (verdict.job.state ≡ JobState.failed)
swap_forgotten clock later vps_id credential_id id token w j unique here swapped held soon =
    let new =
      patched (progress_patch (back_to_download token) (w.agents j.vps_id) clock.now_ms)
        clock.stamp_ms j in
    let v = (progress quiet clock vps_id credential_id id (back_to_download token) w).0 in
    let answered =
      progress-accepts clock vps_id id (back_to_download token) credential_id w j here
        (post_swap-live j.state swapped) held in
    let accepted =
      progress-Accepted quiet quiet-Fair clock vps_id id (back_to_download token) credential_id w
        new unique answered in
    let (_, own, named) = require_job-get vps_id id w j here in
    let there =
      get-require_job vps_id id v new (subst (λ i. get i v ≡ some new) named accepted.stored) own in
    (
      plain (
          patched (outcome_patch UpgradeOutcome.failed new (failure token) later v) later.stamp_ms
            new),
      report_result-settles later vps_id id (failure token) credential_id v new there refl
          (ground arith) refl,
      refl,
    )
