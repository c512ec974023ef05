-- ===== src/Upgrade/Guarantee/Verdicts.antt =====
-- packages/api/src/local-upgrade/local-upgrade.service.ts: what a call of `result` may settle, and
-- what it does whatever other requests commit while it runs.
use vps_manager_nodejs.Prelude.{
  ℕ, ◌≡◌, refl, ◌≢◌, ◌↔◌, arith, ◌⊎◌, inl, inr, String, Bool, true, false, Option, Bool-cases,
}
use vps_manager_nodejs.Upgrade.Job.{Job, JobState, UpgradeOutcome, is_post_swap}
use vps_manager_nodejs.Upgrade.Store.{World, AgentState, patched}
use vps_manager_nodejs.Upgrade.Service.{Clock, baseline_verified, commit_terminal}
use vps_manager_nodejs.Upgrade.Meanings.{
  IsRestored, Confirms, IsPastSwap, is_post_swap-IsPastSwap, baseline_verified-IsRestored,
  heartbeat_confirms-Confirms,
}
use vps_manager_nodejs.Upgrade.Verdict.{
  same_outcome, unconfirmed, ResultInput, rollback_patch, rule_rollback, failed_patch,
  failed_action, unverified_patch, settle_succeeded, agent_build, commit_outcome,
}

-- The patch, the action and the success flag that each outcome commits.
abbrev pub outcome_patch : UpgradeOutcome → Job → ResultInput → Clock → World → Job → Job
outcome_patch UpgradeOutcome.failed j input clock read =
    failed_patch (is_post_swap j.state) input clock.now_ms
outcome_patch UpgradeOutcome.rollback_unverified j input clock read =
    unverified_patch input clock.now_ms
outcome_patch UpgradeOutcome.rolled_back j input clock read =
    rollback_patch (baseline_verified (read.agents j.vps_id) j clock.check_ms)
      (read.agents j.vps_id) input clock.now_ms
outcome_patch UpgradeOutcome.succeeded j input clock read =
    settle_succeeded input.reported_build_id (agent_build (read.agents j.vps_id)) clock.now_ms

abbrev pub outcome_action : UpgradeOutcome → Job → String
outcome_action UpgradeOutcome.failed j = failed_action (is_post_swap j.state)
outcome_action UpgradeOutcome.succeeded j = "local_agent_upgrade.success"
outcome_action _ j = "local_agent_upgrade.rollback"

abbrev pub outcome_success : UpgradeOutcome → Job → Clock → World → Bool
outcome_success UpgradeOutcome.succeeded j clock read = true
outcome_success UpgradeOutcome.rolled_back j clock read =
    baseline_verified (read.agents j.vps_id) j clock.check_ms
outcome_success _ j clock read = false

pub commit_outcome-commit_terminal :
    (o : UpgradeOutcome) (j : Job) (input : ResultInput) (clock : Clock) (read v : World)
    → commit_outcome o j input clock read v
      ≡ commit_terminal j
          (outcome_patch o j input clock read)
          (outcome_action o j)
          (outcome_success o j clock read)
          clock.stamp_ms
          v
unfolding commit_outcome rule_rollback
commit_outcome-commit_terminal UpgradeOutcome.failed j input clock read v = refl
commit_outcome-commit_terminal UpgradeOutcome.rollback_unverified j input clock read v = refl
commit_outcome-commit_terminal UpgradeOutcome.rolled_back j input clock read v = refl
commit_outcome-commit_terminal UpgradeOutcome.succeeded j input clock read v = refl

pub rollback_patch-fenced :
    (b : Bool) (agent : Option AgentState) (input : ResultInput) (now : ℕ) (j : Job)
    → (rollback_patch b agent input now j).fencing_token ≡ j.fencing_token
rollback_patch-fenced true agent input now j = refl
rollback_patch-fenced false agent input now j = refl

pub outcome_patch-fenced :
    (o : UpgradeOutcome) (j : Job) (input : ResultInput) (clock : Clock) (read : World)
    → (outcome_patch o j input clock read j).fencing_token ≡ j.fencing_token
outcome_patch-fenced UpgradeOutcome.failed j input clock read =
    elim (Bool-cases (is_post_swap j.state)) [
      | inl after ↦ rw after refl
      | inr before ↦ rw before refl
    ]
outcome_patch-fenced UpgradeOutcome.rollback_unverified j input clock read = refl
outcome_patch-fenced UpgradeOutcome.rolled_back j input clock read =
    rollback_patch-fenced (baseline_verified (read.agents j.vps_id) j clock.check_ms)
      (read.agents j.vps_id) input clock.now_ms j
outcome_patch-fenced UpgradeOutcome.succeeded j input clock read = refl

-- What a report of each outcome may make of a job that was read in `read`.
abbrev pub Just : UpgradeOutcome → Job → Clock → World → Job → Type 0
Just UpgradeOutcome.succeeded j clock read new = new.state ≡ JobState.succeeded
Just UpgradeOutcome.rolled_back j clock read new =
    ((new.state ≡ JobState.rolled_back) × IsRestored (read.agents j.vps_id) j clock.check_ms)
    ⊎ ((new.state ≡ JobState.rollback_unverified)
        × ¬ (IsRestored (read.agents j.vps_id) j clock.check_ms))
Just UpgradeOutcome.rollback_unverified j clock read new = new.state ≡ JobState.rollback_unverified
Just UpgradeOutcome.failed j clock read new =
    ((new.state ≡ JobState.failed) × ¬ (IsPastSwap j.state))
    ⊎ ((new.state ≡ JobState.rollback_unverified) × IsPastSwap j.state)

-- What a test decides, by what it means.
decided :
    {A B P : Type 0} {b : Bool}
    → (b ≡ true) ↔ P
    → (A × (b ≡ true)) ⊎ (B × (b ≡ false))
    → (A × P) ⊎ (B × ¬ P)
decided test (inl (a, e)) = inl (a, test.0 e)
decided test (inr (b, e)) = inr (b, λ p. let bad = test.1 p in cc)

swapped : {A B : Type 0} → A ⊎ B → B ⊎ A
swapped (inl a) = inr a
swapped (inr b) = inl b

rollback-Just :
    (b : Bool) (agent : Option AgentState) (input : ResultInput) (now stamp : ℕ) (j : Job)
    → let new = patched (rollback_patch b agent input now) stamp j in
      ((new.state ≡ JobState.rolled_back) × (b ≡ true))
      ⊎ ((new.state ≡ JobState.rollback_unverified) × (b ≡ false))
rollback-Just true agent input now stamp j = inl (refl, refl)
rollback-Just false agent input now stamp j = inr (refl, refl)

failed-Just :
    (b : Bool) (input : ResultInput) (now stamp : ℕ) (j : Job)
    → let new = patched (failed_patch b input now) stamp j in
      ((new.state ≡ JobState.failed) × (b ≡ false))
      ⊎ ((new.state ≡ JobState.rollback_unverified) × (b ≡ true))
failed-Just true input now stamp j = inr (refl, refl)
failed-Just false input now stamp j = inl (refl, refl)

pub outcome_patch-Just :
    (o : UpgradeOutcome) (j : Job) (input : ResultInput) (clock : Clock) (read : World)
    → Just o j clock read (patched (outcome_patch o j input clock read) clock.stamp_ms j)
outcome_patch-Just UpgradeOutcome.failed j input clock read = swapped (
    decided (is_post_swap-IsPastSwap j.state)
      (swapped (failed-Just _ input clock.now_ms clock.stamp_ms j)))
outcome_patch-Just UpgradeOutcome.rollback_unverified j input clock read = refl
outcome_patch-Just UpgradeOutcome.rolled_back j input clock read =
    decided (baseline_verified-IsRestored (read.agents j.vps_id) j clock.check_ms)
      (rollback-Just _ (read.agents j.vps_id) input clock.now_ms clock.stamp_ms j)
outcome_patch-Just UpgradeOutcome.succeeded j input clock read = refl

succeeded-test :
    (o : UpgradeOutcome)
    → (same_outcome o UpgradeOutcome.succeeded ≡ true) ↔ (o ≡ UpgradeOutcome.succeeded)
succeeded-test UpgradeOutcome.succeeded = ground arith
succeeded-test UpgradeOutcome.rolled_back = ground arith
succeeded-test UpgradeOutcome.rollback_unverified = ground arith
succeeded-test UpgradeOutcome.failed = ground arith

module _ (j : Job) (input : ResultInput) (clock : Clock) (read : World) where
  -- A success that no heartbeat confirms.
  abbrev pub IsUnconfirmed : Type 0
  IsUnconfirmed =
      (input.outcome ≡ UpgradeOutcome.succeeded)
      × ¬ (Confirms (read.agents j.vps_id) j clock.check_ms)

  abbrev pub IsNoOpenSuccess : Type 0
  IsNoOpenSuccess =
      (input.outcome ≢ UpgradeOutcome.succeeded) ⊎ Confirms (read.agents j.vps_id) j clock.check_ms

  pub unconfirmed-IsUnconfirmed : unconfirmed j input clock read ≡ true → IsUnconfirmed
  unconfirmed-IsUnconfirmed e =
      let test = heartbeat_confirms-Confirms (read.agents j.vps_id) j clock.check_ms in
      let success = succeeded-test input.outcome in
      (ground arith, λ c. let sure = test.1 c in ground arith)

  pub confirmed-IsNoOpenSuccess : unconfirmed j input clock read ≡ false → IsNoOpenSuccess
  confirmed-IsNoOpenSuccess e =
      elim (Bool-cases (same_outcome input.outcome UpgradeOutcome.succeeded)) [
        | inl success ↦
            inr (
              (heartbeat_confirms-Confirms (read.agents j.vps_id) j clock.check_ms).0
                (ground arith))
        | inr other ↦ inl (λ o. let bad = (succeeded-test input.outcome).1 o in cc)
      ]
