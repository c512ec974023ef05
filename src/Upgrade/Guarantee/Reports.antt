-- ===== src/Upgrade/Guarantee/Reports.antt =====
-- packages/api/src/local-upgrade/local-upgrade.service.ts: what a call of `progress` does, whatever
-- other requests commit while it runs.
use vps_manager_nodejs.Prelude.{
  ℕ, ◌+◌, ◌*◌, ◌<◌, ◌≡◌, refl, sym, ap, ◌∙◌, String, true, false, some, arith, eq_iff, ==_iff,
  Outcome, ok, err, subst, some-eq,
}
use vps_manager_nodejs.Upgrade.Job.{Job, is_terminal}
use vps_manager_nodejs.Upgrade.Store.{World, get, patched}
use vps_manager_nodejs.Upgrade.Store.Evolution.{
  Evolves, Evolves-trans, commit-Evolves, compare_and_set-Committed,
}
use vps_manager_nodejs.Upgrade.Unique.{Unique}
use vps_manager_nodejs.Upgrade.Service.{Clock, Others, ServiceError, lease_is_valid, seen_updater}
use vps_manager_nodejs.Upgrade.Progress.{ProgressInput, progress_patch, progress_loop, progress}
use vps_manager_nodejs.Upgrade.Progress.Cases.{Won, progress_loop-cases}
use vps_manager_nodejs.Upgrade.Guarantee.{
  Moves, Fair, Moves-trans, seen-Moves, Follows-of_live, require_job-get,
}

module _ (others : Others) (fair : Fair others) (clock : Clock) (vps_id id : String)
    (input : ProgressInput) where
  -- From the read of the job, over that of the agent's state, to the commit.
  waits-Moves : (n : ℕ) (read : World) → Moves read (others (2 * n + 1) (others (6 + n) read))
  waits-Moves n read =
      Moves-trans read (others (6 + n) read) _ (fair (6 + n) read)
        (fair (2 * n + 1) (others (6 + n) read))

  -- A report that is accepted: the job that was read, where the agent's state was asked, and what was
  -- stored.
  pub record Accepted (w v : World) (updated : Job) : Type 0 where
    pub read : World
    pub job : Job
    pub later : Evolves w read
    pub found : get id read ≡ some job
    pub own : job.vps_id ≡ vps_id
    pub live : is_terminal job.state ≡ false
    pub token : input.fencing_token ≡ job.fencing_token
    pub lease : lease_is_valid job.lease_expires_at clock.now_ms ≡ true
    pub asked : World
    pub asked_later : Evolves read asked
    pub written :
        updated
        ≡ patched (progress_patch input (asked.agents vps_id) clock.now_ms) clock.stamp_ms job
    pub stored : get updated.id v ≡ some updated

  Accepted-earlier :
      (w u v : World) (updated : Job) → Evolves w u → Accepted u v updated → Accepted w v updated
  Accepted-earlier w u v updated moved a = record {
    read = a.read;
    job = a.job;
    later = Evolves-trans w u a.read moved a.later;
    found = a.found;
    own = a.own;
    live = a.live;
    token = a.token;
    lease = a.lease;
    asked = a.asked;
    asked_later = a.asked_later;
    written = a.written;
    stored = a.stored;
  }

  abbrev Answer : World → World → Outcome ServiceError Job → Type 0
  Answer w v (ok updated) = Accepted w v updated
  Answer w v (err e) = Unit

  Won-Accepted :
      (w read v : World) (updated : Job)
      → Won others clock vps_id id input w read v updated
      → Unique w.jobs
      → Accepted w v updated
  Won-Accepted w read v updated won unique =
      let (unique_read, later) =
        subst (Moves w) (sym won.at_read) (fair (2 * won.round) w) unique in
      let (found, own, named) = require_job-get vps_id id read won.job won.found in
      let asked = others (6 + won.round) read in
      let c =
        compare_and_set-Committed won.job.id won.job.revision
          (progress_patch input (asked.agents won.job.vps_id) clock.now_ms) clock.stamp_ms
          (others (2 * won.round + 1) asked) v updated won.won in
      let (_, moved) = waits-Moves won.round read unique_read in
      let (_, written) =
        commit-Evolves read (others (2 * won.round + 1) asked) v won.job updated
          (progress_patch input (asked.agents won.job.vps_id) clock.now_ms) clock.stamp_ms found
          moved won.won (omega arith) (Follows-of_live won.job.state _ won.live) in
      record {
        read = read;
        job = won.job;
        later = later;
        found = subst (λ k. get k read ≡ some won.job) named found;
        own = own;
        live = won.live;
        token = ground (arith, ==_iff input.fencing_token won.job.fencing_token, won.held);
        lease = ground (arith, won.held);
        asked = asked;
        asked_later = (fair (6 + won.round) read unique_read).1;
        written =
            subst
              (λ k.
                updated
                ≡ patched (progress_patch input (asked.agents k) clock.now_ms) clock.stamp_ms
                    won.job)
              own written;
        stored =
            c.stored updated.id
            ∙ rw ((eq_iff won.job.id updated.id).1 (sym (ap (λ k. k.id) written))) refl;
      }

  retried-Answer :
      (n : ℕ) (w : World) (r : World × Outcome ServiceError Job)
      → (Unique (others (2 * n + 1) (others (6 + n) (others (2 * n) w))).jobs
          → Answer (others (2 * n + 1) (others (6 + n) (others (2 * n) w))) r.0 r.1)
      → Unique w.jobs
      → Answer w r.0 r.1
  retried-Answer n w (v, err e) rest unique = tt
  retried-Answer n w (v, ok updated) rest unique =
      let (unique_read, later) = fair (2 * n) w unique in
      let (unique_wait, waited) = waits-Moves n (others (2 * n) w) unique_read in
      Accepted-earlier w (others (2 * n + 1) (others (6 + n) (others (2 * n) w))) v updated
        (Evolves-trans w (others (2 * n) w) _ later waited) (rest unique_wait)

  progress_loop-Answer :
      (n : ℕ) (w : World)
      → Unique w.jobs
      → let r = progress_loop n others clock vps_id id input w in Answer w r.0 r.1
  progress_loop-Answer =
      progress_loop-cases others clock vps_id id input (λ w r. Unique w.jobs → Answer w r.0 r.1)
        (λ w unique. tt) (λ n w e unique. tt) Won-Accepted retried-Answer

  pub progress-Accepted :
      (credential_id : String) (w : World) (updated : Job)
      → Unique w.jobs
      → (progress others clock vps_id credential_id id input w).1 ≡ ok updated
      → Accepted w (progress others clock vps_id credential_id id input w).0 updated
  unfolding progress
  progress-Accepted credential_id w updated unique answered =
      let seen = seen_updater vps_id credential_id clock w in
      let (unique_seen, moved) = seen-Moves vps_id credential_id clock w unique in
      Accepted-earlier w seen _ updated moved (
        subst (Answer seen (progress_loop 3 others clock vps_id id input seen).0) answered
          (progress_loop-Answer 3 seen unique_seen))

  -- Once a job is fenced by a higher token, by a later claim, every report under a lower token is
  -- refused, whatever the other requests that commit meanwhile do, if they keep `Moves` and the job
  -- ids are unique.
  pub progress-refuses_old_token :
      (credential_id : String) (w : World) (a updated : Job)
      → Unique w.jobs
      → get id w ≡ some a
      → input.fencing_token < a.fencing_token
      → ¬ ((progress others clock vps_id credential_id id input w).1 ≡ ok updated)
  progress-refuses_old_token credential_id w a updated unique found old answered =
      let p = progress-Accepted credential_id w updated unique answered in
      let (b, held, step) = p.later id a found in
      let b_job : b ≡ p.job = some-eq (sym held ∙ p.found) in
      let fenced = step.fenced in
      let token = p.token ∙ ap (λ j. j.fencing_token) (sym b_job) in omega arith
