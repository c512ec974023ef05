-- ===== src/Upgrade/Guarantee/Judged.antt =====
-- packages/api/src/local-upgrade/local-upgrade.service.ts: how a call of `result` ends, whatever
-- other requests commit while it runs.
use vps_manager_nodejs.Prelude.{
  ℕ, suc, zero, ◌+◌, ◌*◌, ◌≡◌, refl, sym, ap, ◌∙◌, ◌⊎◌, inl, inr, String, true, false, some, arith,
  Option-cases, Bool-cases, Outcome-cases, Outcome, ok, err, subst,
}
use vps_manager_nodejs.Upgrade.Job.{Job, is_terminal}
use vps_manager_nodejs.Upgrade.Store.{World, get}
use vps_manager_nodejs.Upgrade.Store.Evolution.{Evolves, Evolves-refl, Evolves-trans}
use vps_manager_nodejs.Upgrade.Unique.{Unique}
use vps_manager_nodejs.Upgrade.Service.{
  Clock, Others, ServiceError, require_job, holds_lease, seen_updater,
}
use vps_manager_nodejs.Upgrade.Meanings.{HoldsLease, holds_lease-HoldsLease}
use vps_manager_nodejs.Upgrade.Verdict.{
  ResultInput, Verdict, commit_outcome, plain, result_settled, unconfirmed, result_loop,
  report_result,
}
use vps_manager_nodejs.Upgrade.Guarantee.{
  Waits, start, step, Waits-trans, Moves, Fair, seen-Moves, Follows-of_live, commit_terminal-Moves,
  require_job-get,
}
use vps_manager_nodejs.Upgrade.Guarantee.Verdicts.{
  Just, IsUnconfirmed, IsNoOpenSuccess, unconfirmed-IsUnconfirmed, confirmed-IsNoOpenSuccess,
  outcome_patch, outcome_action, outcome_success, outcome_patch-fenced, outcome_patch-Just,
  commit_outcome-commit_terminal,
}
use vps_manager_nodejs.Upgrade.Guarantee.Settled.{
  commit_terminal-stored, SettledAnswer, Settled, result_settled-Settled,
}

module _ (others : Others) (fair : Fair others) (clock : Clock) (vps_id id : String)
    (input : ResultInput) where
  -- How a report is answered: a settled job is answered at once; a live one only under its lease and
  -- token, by waiting for the heartbeat of a success or by the state that the report justifies.
  pub record Judged (w v : World) (verdict : Verdict) : Type 0 where
    pub read : World
    pub job : Job
    pub reached : Waits others w read
    pub later : Evolves w read
    pub found : get id read ≡ some job
    pub own : job.vps_id ≡ vps_id
    pub how :
        ((is_terminal job.state ≡ true) × SettledAnswer clock input job read v verdict)
        ⊎ ((is_terminal job.state ≡ false)
            × HoldsLease job input.fencing_token clock.now_ms
            × ((IsUnconfirmed job input clock read
                  × (verdict ≡ record { job = job; await_heartbeat = true })
                  × (v ≡ read))
                ⊎ (IsNoOpenSuccess job input clock read
                    × (verdict.await_heartbeat ≡ false)
                    × Just input.outcome job clock read verdict.job
                    × (verdict.job.revision ≡ job.revision + 1)
                    × (verdict.job.fencing_token ≡ job.fencing_token)
                    × (get verdict.job.id v ≡ some verdict.job))))

  abbrev Answer : World → World → Outcome ServiceError Verdict → Type 0
  Answer w v (ok verdict) = Judged w v verdict
  Answer w v (err e) = Unit

  Answer_earlier :
      (w u : World) (r : World × Outcome ServiceError Verdict)
      → Waits others w u
      → Evolves w u
      → Answer u r.0 r.1
      → Answer w r.0 r.1
  Answer_earlier w u (v, err e) waited moved a = tt
  Answer_earlier w u (v, ok verdict) waited moved a = record {
    read = a.read;
    job = a.job;
    reached = Waits-trans waited a.reached;
    later = Evolves-trans w u a.read moved a.later;
    found = a.found;
    own = a.own;
    how = a.how;
  }

  abbrev Good : World → World × Outcome ServiceError Verdict → Type 0
  Good w r = Unique w.jobs → (Unique r.0.jobs × Evolves w r.0) × Answer w r.0 r.1

  retried-Good :
      (w u : World) (r : World × Outcome ServiceError Verdict)
      → Waits others w u
      → Moves w u
      → Good u r
      → Good w r
  retried-Good w u r waited moved rest unique =
      let (unique_u, later) = moved unique in
      let (kept, answer) = rest unique_u in
      ((kept.0, Evolves-trans w u r.0 later kept.1), Answer_earlier w u r waited later answer)

  committed-Good :
      (read v u : World) (j new : Job)
      → require_job vps_id id read ≡ ok j
      → is_terminal j.state ≡ false
      → holds_lease j input.fencing_token clock.now_ms ≡ true
      → unconfirmed j input clock read ≡ false
      → Moves read v
      → commit_outcome input.outcome j input clock read v ≡ some (new, u)
      → Good read (u, ok (plain new))
  committed-Good read v u j new here live held confirmed waits won unique =
      let (found, own, named) = require_job-get vps_id id read j here in
      let patch = outcome_patch input.outcome j input clock read in
      let fenced = outcome_patch-fenced input.outcome j input clock read in
      let follows = Follows-of_live j.state (patch j).state live in
      let committed =
        sym (commit_outcome-commit_terminal input.outcome j input clock read v) ∙ won in
      let (written, stored) =
        commit_terminal-stored read v u j new patch (outcome_action input.outcome j)
          (outcome_success input.outcome j clock read) clock.stamp_ms unique found waits committed
          fenced follows in
      (
        commit_terminal-Moves read v u j new patch (outcome_action input.outcome j)
            (outcome_success input.outcome j clock read) clock.stamp_ms found waits committed
            (omega arith) follows unique,
        record {
          read = read;
          job = j;
          reached = start;
          later = Evolves-refl read;
          found = subst (λ k. get k read ≡ some j) named found;
          own = own;
          how = inr (
            live,
            (holds_lease-HoldsLease j input.fencing_token clock.now_ms).0 held,
            inr (
              confirmed-IsNoOpenSuccess j input clock read confirmed,
              refl,
              subst (Just input.outcome j clock read) (sym written)
                  (outcome_patch-Just input.outcome j input clock read),
              ap (λ k. k.revision) written,
              ap (λ k. k.fencing_token) written ∙ fenced,
              stored,
            ),
          );
        },
      )

  Settled-Good :
      (read : World) (j : Job) (r : World × Outcome ServiceError Verdict)
      → require_job vps_id id read ≡ ok j
      → is_terminal j.state ≡ true
      → Settled clock input j read r
      → Good read r
  Settled-Good read j (v, err e) here over settled unique = (settled.0 unique, tt)
  Settled-Good read j (v, ok verdict) here over settled unique =
      let (found, own, named) = require_job-get vps_id id read j here in
      (
        settled.0 unique,
        record {
          read = read;
          job = j;
          reached = start;
          later = Evolves-refl read;
          found = subst (λ k. get k read ≡ some j) named found;
          own = own;
          how = inl (over, settled.1 verdict unique refl);
        },
      )

  awaits-Good :
      (read : World) (j : Job)
      → require_job vps_id id read ≡ ok j
      → is_terminal j.state ≡ false
      → holds_lease j input.fencing_token clock.now_ms ≡ true
      → unconfirmed j input clock read ≡ true
      → Good read (read, ok (record { job = j; await_heartbeat = true }))
  awaits-Good read j here live held waiting unique =
      let (found, own, named) = require_job-get vps_id id read j here in
      (
        (unique, Evolves-refl read),
        record {
          read = read;
          job = j;
          reached = start;
          later = Evolves-refl read;
          found = subst (λ k. get k read ≡ some j) named found;
          own = own;
          how = inr (
            live,
            (holds_lease-HoldsLease j input.fencing_token clock.now_ms).0 held,
            inl (unconfirmed-IsUnconfirmed j input clock read waiting, refl, refl),
          );
        },
      )

  result_loop-Good : (n : ℕ) (w : World) → Good w (result_loop n others clock vps_id id input w)
  unfolding result_loop
  result_loop-Good zero w = λ unique. ((unique, Evolves-refl w), tt)
  result_loop-Good (suc n) w =
      let read = others (2 * n) w in
      let waited = others (2 * n + 1) read in
      let waits = fair (2 * n + 1) read in
      retried-Good w read (result_loop (suc n) others clock vps_id id input w) (step (2 * n) start)
        (fair (2 * n) w)
        (elim (Outcome-cases (require_job vps_id id read)) [
          | inr (e, missing) ↦
              rw (missing, result_loop) (λ unique. ((unique, Evolves-refl read), tt))
          | inl (j, here) ↦ elim (Bool-cases (is_terminal j.state)) [
            | inl over ↦
                let (found, _, _) = require_job-get vps_id id read j here in
                rw (here, over, result_loop)
                  (Settled-Good read j
                    (result_settled j input clock read waited (others (6 + n) waited)) here over
                    (result_settled-Settled clock input read waited (others (6 + n) waited) j found
                      waits (fair (6 + n) waited)))
            | inr live ↦ elim (Bool-cases (holds_lease j input.fencing_token clock.now_ms)) [
              | inr lost ↦
                  rw (here, live, lost, result_loop) (λ unique. ((unique, Evolves-refl read), tt))
              | inl held ↦ elim (Bool-cases (unconfirmed j input clock read)) [
                | inl waiting ↦
                    rw (here, live, held, waiting, result_loop)
                      (awaits-Good read j here live held waiting)
                | inr confirmed ↦
                    elim (Option-cases (commit_outcome input.outcome j input clock read waited)) [
                      | inr ((new, u), won) ↦
                          rw (here, live, held, confirmed, won, result_loop)
                            (committed-Good read waited u j new here live held confirmed waits won)
                      | inl beaten ↦
                          rw (here, live, held, confirmed, beaten, result_loop)
                            (retried-Good read waited
                              (result_loop n others clock vps_id id input waited)
                              (step (2 * n + 1) start) waits (result_loop-Good n waited))
                    ]
              ]
            ]
          ]
        ])

  -- A report that is answered is about the job as it was read after nothing but other requests'
  -- writes. If that job was settled, the answer is the job itself, to the job's own token and an outcome
  -- that it records, or, for a rollback not verified so far, the new ruling or the stored job. If it was
  -- live, the report held its lease and token: a success that no fresh heartbeat confirms is told to
  -- wait with nothing written after the read, and any other is stored, one revision on and under the
  -- same token, as the state that the report justifies: `succeeded` by a confirming heartbeat,
  -- `rolled_back` only where the baseline is verified, `failed` only before the swap. This holds
  -- whatever the other requests that commit meanwhile do, if they keep `Moves` and job ids are unique.
  pub report_result-Judged :
      (credential_id : String) (w : World) (verdict : Verdict)
      → Unique w.jobs
      → (report_result others clock vps_id credential_id id input w).1 ≡ ok verdict
      → Judged
          (seen_updater vps_id credential_id clock w)
          (report_result others clock vps_id credential_id id input w).0
          verdict
  unfolding report_result
  report_result-Judged credential_id w verdict unique answered =
      let seen = seen_updater vps_id credential_id clock w in
      subst (Answer seen (result_loop 3 others clock vps_id id input seen).0) answered
        (result_loop-Good 3 seen (seen-Moves vps_id credential_id clock w unique).0).1
