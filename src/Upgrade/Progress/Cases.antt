-- ===== src/Upgrade/Progress/Cases.antt =====
-- The ways in which a call of `progress` can end
-- (packages/api/src/local-upgrade/local-upgrade.service.ts).
use vps_manager_nodejs.Prelude.{
  ℕ, suc, zero, ◌+◌, ◌*◌, ◌≡◌, refl, inl, inr, String, true, false, some, Bool-cases, Option-cases,
  Outcome-cases, Outcome, ok, err,
}
use vps_manager_nodejs.Upgrade.Job.{Job, is_terminal}
use vps_manager_nodejs.Upgrade.Store.{World, compare_and_set}
use vps_manager_nodejs.Upgrade.Service.{
  Clock, Others, ServiceError, job_terminal, stale_lease, require_job, holds_lease,
}
use vps_manager_nodejs.Upgrade.Progress.{ProgressInput, progress_patch, progress_loop}

module _ (others : Others) (clock : Clock) (vps_id id : String) (input : ProgressInput) where
  -- The commit of one attempt succeeds: what it read, and what it left.
  pub record Won (w read v : World) (updated : Job) : Type 0 where
    pub job : Job
    pub round : ℕ
    pub at_read : read ≡ others (2 * round) w
    pub found : require_job vps_id id read ≡ ok job
    pub live : is_terminal job.state ≡ false
    pub held : holds_lease job input.fencing_token clock.now_ms ≡ true
    pub won :
        compare_and_set job.id job.revision
          (progress_patch input ((others (6 + round) read).agents job.vps_id) clock.now_ms)
          clock.stamp_ms
          (others (2 * round + 1) (others (6 + round) read))
        ≡ some (updated, v)

  module _ {ℓ} (P : World → World × Outcome ServiceError Job → Type ℓ)
      (spent : (w : World) → P w (w, err stale_lease))
      (refused : (n : ℕ) (w : World) (e : ServiceError) → P w (others (2 * n) w, err e))
      (wins : (w read v : World) (updated : Job) → Won w read v updated → P w (v, ok updated))
      (retried : (n : ℕ) (w : World) (r : World × Outcome ServiceError Job)
        → P (others (2 * n + 1) (others (6 + n) (others (2 * n) w))) r
        → P w r) where
    pub progress_loop-cases :
        (n : ℕ) (w : World) → P w (progress_loop n others clock vps_id id input w)
    unfolding progress_loop
    progress_loop-cases zero w = spent w
    progress_loop-cases (suc n) w =
        let read = others (2 * n) w in
        elim (Outcome-cases (require_job vps_id id read)) [
          | inr (e, missing) ↦ rw (missing, progress_loop) (refused n w e)
          | inl (j, found) ↦ elim (Bool-cases (is_terminal j.state)) [
            | inl over ↦ rw (found, over, progress_loop) (refused n w job_terminal)
            | inr live ↦ elim (Bool-cases (holds_lease j input.fencing_token clock.now_ms)) [
              | inr lost ↦ rw (found, live, lost, progress_loop) (refused n w stale_lease)
              | inl held ↦
                  elim (Option-cases (
                    compare_and_set j.id j.revision
                      (progress_patch input ((others (6 + n) read).agents j.vps_id) clock.now_ms)
                      clock.stamp_ms (others (2 * n + 1) (others (6 + n) read)))) [
                        | inl beaten ↦
                            rw (found, live, held, beaten, progress_loop)
                              (retried n w _
                                (progress_loop-cases n (others (2 * n + 1) (others (6 + n) read))))
                        | inr ((updated, v), won) ↦
                            rw (found, live, held, won, progress_loop)
                              (wins w read v updated (record {
                                job = j;
                                round = n;
                                at_read = refl;
                                found = found;
                                live = live;
                                held = held;
                                won = won;
                              }))
                      ]
            ]
          ]
        ]
