-- ===== src/Upgrade/Guarantee/Settled.antt =====
-- packages/api/src/local-upgrade/local-upgrade.service.ts: what `result` stores of a live job, and what
-- it does with a settled one.
use vps_manager_nodejs.Prelude.{
  ℕ, ◌≤◌, ◌≡◌, refl, sym, ap, ◌∙◌, ◌⊎◌, inl, inr, ◌&&◌, ◌||◌, ◌==◌, ==_iff, &&-true, ok-eq, none,
  String, Bool, true, false, Option, some, arith, eq_iff, find, Option-cases, Bool-cases, Outcome,
  ok, subst,
}
use vps_manager_nodejs.Upgrade.Job.{Job, JobState, JobResult, UpgradeOutcome}
use vps_manager_nodejs.Upgrade.Store.{World, AgentState, has_id, get, patched}
use vps_manager_nodejs.Upgrade.Store.Evolution.{
  Evolves-refl, Follows, commit-Evolves, compare_and_set-Committed,
}
use vps_manager_nodejs.Upgrade.Unique.{Unique}
use vps_manager_nodejs.Upgrade.Service.{Clock, ServiceError, baseline_verified, commit_terminal}
use vps_manager_nodejs.Upgrade.Verdict.{
  ResultInput, Verdict, plain, answers, same_outcome, is_failed_report, rollback_patch,
  rule_rollback, replay, refinable, result_settled,
}
use vps_manager_nodejs.Upgrade.Guarantee.{
  Moves, Moves-trans, commit_terminal-Moves, commit_terminal-won,
}
use vps_manager_nodejs.Upgrade.Guarantee.Verdicts.{Just, rollback_patch-fenced, outcome_patch-Just}

-- A terminal commit after a wait stores the patched job that was read.
pub commit_terminal-stored :
    (read v u : World) (a new : Job) (patch : Job → Job) (action : String) (success : Bool)
    (stamp : ℕ)
    → Unique read.jobs
    → get a.id read ≡ some a
    → Moves read v
    → commit_terminal a patch action success stamp v ≡ some (new, u)
    → (patch a).fencing_token ≡ a.fencing_token
    → Follows a.state (patch a).state
    → (new ≡ patched patch stamp a) × (get new.id u ≡ some new)
unfolding get
commit_terminal-stored read v u a new patch action success stamp unique found waits won fenced
      follows =
    let (x, committed, same) = commit_terminal-won a new patch action success stamp v u won in
    let (_, waited) = waits unique in
    let (_, written) =
      commit-Evolves read v x a new patch stamp found waited committed (omega arith) follows in
    let c = compare_and_set-Committed a.id a.revision patch stamp v x new committed in
    let held : get new.id x ≡ some new =
      c.stored new.id ∙ rw ((eq_iff a.id new.id).1 (sym (ap (λ k. k.id) written))) refl in
    (written, ap (find (has_id new.id)) same ∙ held)

module _ (clock : Clock) (input : ResultInput) where
  -- The result of the job stands for the reported outcome: they are the same, or the report is a
  -- failure and the job an unverified rollback.
  abbrev Records : Option JobResult → Type 0
  Records none = ⊥
  Records (some r) =
      (r.outcome ≡ input.outcome)
      ⊎ ((input.outcome ≡ UpgradeOutcome.failed) × (r.outcome ≡ UpgradeOutcome.rollback_unverified))

  -- The answer about a settled job: the job itself, to its last token and an outcome that it records;
  -- or, to a rollback that was not verified before, the job as it is ruled on or as it is stored.
  abbrev pub SettledAnswer : Job → World → World → Verdict → Type 0
  SettledAnswer j read v verdict =
      (verdict.await_heartbeat ≡ false)
      × (((verdict.job ≡ j) × (input.fencing_token ≡ j.fencing_token) × Records j.result)
          ⊎ ((j.state ≡ JobState.rollback_unverified)
              × (input.outcome ≡ UpgradeOutcome.rolled_back)
              × ((Just UpgradeOutcome.rolled_back j clock read verdict.job
                    × (get verdict.job.id v ≡ some verdict.job))
                  ⊎ (get j.id v ≡ some verdict.job))))

  abbrev pub Settled : Job → World → World × Outcome ServiceError Verdict → Type 0
  Settled j read r =
      (Moves read r.0)
      × ((verdict : Verdict)
          → Unique read.jobs
          → r.1 ≡ ok verdict
          → SettledAnswer j read r.0 verdict)

  answers-Records : (o : Option JobResult) → answers o input.outcome ≡ true → Records o
  answers-Records none e = cc
  answers-Records (some r) e = same_or_failed r.outcome input.outcome e
    where
      same_or_failed :
          (made reported : UpgradeOutcome)
          → (same_outcome made reported
              || (is_failed_report reported
                  && same_outcome made UpgradeOutcome.rollback_unverified))
            ≡ true
          → (made ≡ reported)
            ⊎ ((reported ≡ UpgradeOutcome.failed) × (made ≡ UpgradeOutcome.rollback_unverified))
      same_or_failed UpgradeOutcome.succeeded UpgradeOutcome.succeeded h = inl refl
      same_or_failed UpgradeOutcome.rolled_back UpgradeOutcome.rolled_back h = inl refl
      same_or_failed UpgradeOutcome.rollback_unverified UpgradeOutcome.rollback_unverified h =
          inl refl
      same_or_failed UpgradeOutcome.rollback_unverified UpgradeOutcome.failed h = inr (refl, refl)
      same_or_failed UpgradeOutcome.failed UpgradeOutcome.failed h = inl refl
      same_or_failed _ _ h = cc

  replay-Answer :
      (j : Job) (read v : World) (verdict : Verdict)
      → replay j input ≡ ok verdict
      → SettledAnswer j read v verdict
  unfolding replay
  replay-Answer j read v verdict e =
      elim (Bool-cases
        ((input.fencing_token == j.fencing_token) && answers j.result input.outcome)) [
          | inr refused ↦ let bad = rw (refused, replay) at e in cc
          | inl recorded ↦
              let step : ◌≡◌ {A = Outcome ServiceError Verdict} (ok (plain j)) (ok verdict) =
                rw (recorded, replay) at e in
              let same : plain j ≡ verdict = ok-eq step in
              let (token, result) = &&-true _ _ recorded in
              rw (← same) (refl, inl (refl, (==_iff _ _).0 token, answers-Records j.result result))
        ]

  refinable-is :
      (s : JobState) (o : UpgradeOutcome)
      → refinable s o ≡ true
      → (s ≡ JobState.rollback_unverified) × (o ≡ UpgradeOutcome.rolled_back)
  refinable-is JobState.rollback_unverified UpgradeOutcome.rolled_back e = (refl, refl)
  refinable-is _ _ e = cc

  refinable-Follows :
      (s : JobState) (o : UpgradeOutcome) (b : Bool) (agent : Option AgentState) (now : ℕ) (j : Job)
      → refinable s o ≡ true
      → Follows s (rollback_patch b agent input now j).state
  refinable-Follows JobState.rollback_unverified UpgradeOutcome.rolled_back true agent now j e =
      inr refl
  refinable-Follows JobState.rollback_unverified UpgradeOutcome.rolled_back false agent now j e =
      inl refl
  refinable-Follows _ _ b agent now j e = cc

  rule_rollback-Moves :
      (read v u : World) (j new : Job)
      → get j.id read ≡ some j
      → refinable j.state input.outcome ≡ true
      → Moves read v
      → rule_rollback j input clock read v ≡ some (new, u)
      → Moves read u
  unfolding rule_rollback
  rule_rollback-Moves read v u j new found late waits won =
      let verified = baseline_verified (read.agents j.vps_id) j clock.check_ms in
      commit_terminal-Moves read v u j new
        (rollback_patch verified (read.agents j.vps_id) input clock.now_ms)
        "local_agent_upgrade.rollback" verified clock.stamp_ms found waits won
        (subst (λ n. j.fencing_token ≤ n)
          (sym (rollback_patch-fenced verified (read.agents j.vps_id) input clock.now_ms j))
          (omega arith))
        (refinable-Follows j.state input.outcome verified (read.agents j.vps_id) clock.now_ms j
          late)

  refined-Answer :
      (read v u : World) (j new : Job) (verdict : Verdict)
      → get j.id read ≡ some j
      → refinable j.state input.outcome ≡ true
      → Moves read v
      → rule_rollback j input clock read v ≡ some (new, u)
      → Unique read.jobs
      → ◌≡◌ {A = Outcome ServiceError Verdict} (ok (plain new)) (ok verdict)
      → SettledAnswer j read u verdict
  unfolding rule_rollback
  refined-Answer read v u j new verdict found late waits won unique answered =
      let verified = baseline_verified (read.agents j.vps_id) j clock.check_ms in
      let (written, stored) =
        commit_terminal-stored read v u j new
          (rollback_patch verified (read.agents j.vps_id) input clock.now_ms)
          "local_agent_upgrade.rollback" verified clock.stamp_ms unique found waits won
          (rollback_patch-fenced verified (read.agents j.vps_id) input clock.now_ms j)
          (refinable-Follows j.state input.outcome verified (read.agents j.vps_id) clock.now_ms j
            late) in
      let (state, outcome) = refinable-is j.state input.outcome late in
      subst (SettledAnswer j read u) (ok-eq answered) (
        refl,
        inr (
          state,
          outcome,
          inl (
            subst (Just UpgradeOutcome.rolled_back j clock read) (sym written)
                (outcome_patch-Just UpgradeOutcome.rolled_back j input clock read),
            stored,
          ),
        ),
      )

  pub result_settled-Settled :
      (read v last : World) (j : Job)
      → get j.id read ≡ some j
      → Moves read v
      → Moves v last
      → Settled j read (result_settled j input clock read v last)
  unfolding result_settled
  result_settled-Settled read v last j found waits waits_again =
      elim (Bool-cases (refinable j.state input.outcome)) [
        | inr plain_replay ↦
            rw (plain_replay, result_settled)
              (λ u. (u, Evolves-refl read), λ verdict u e. replay-Answer j read read verdict e)
        | inl late ↦ elim (Option-cases (rule_rollback j input clock read v)) [
          | inr ((refined, u), won) ↦
              rw (late, won, result_settled)
                (
                  rule_rollback-Moves read v u j refined found late waits won,
                  λ verdict unique e.
                      refined-Answer read v u j refined verdict found late waits won unique e,
                )
          | inl beaten ↦
              let moved = Moves-trans read v last waits waits_again in
              let (state, outcome) = refinable-is j.state input.outcome late in
              elim (Option-cases (get j.id last)) [
                | inr (current, there) ↦
                    rw (late, beaten, there, result_settled)
                      (
                        moved,
                        λ verdict unique e.
                            subst (SettledAnswer j read last) (ok-eq e)
                              (refl, inr (state, outcome, inr there)),
                      )
                | inl gone ↦
                    rw (late, beaten, gone, result_settled)
                      (moved, λ verdict u e. replay-Answer j read last verdict e)
              ]
        ]
      ]
