-- ===== src/Upgrade/Progress.antt =====
-- packages/api/src/local-upgrade/local-upgrade.service.ts: `progress`.
pub mod Cases
use vps_manager_nodejs.Prelude.{
  ℕ, zero, suc, ◌+◌, ◌*◌, String, Bool, true, false, not, ◌&&◌, Option, none, some, or_else,
  is_some, if◌then◌else◌, Outcome, ok, err,
}
use vps_manager_nodejs.Upgrade.Job.{
  Job, ProgressPhase, restarting, is_terminal, state_of_phase, phase_timeout_ms, lease_ttl_ms,
}
use vps_manager_nodejs.Upgrade.Store.{World, AgentState, compare_and_set}
use vps_manager_nodejs.Upgrade.Service.{
  Clock, Others, ServiceError, job_terminal, stale_lease, require_job, holds_lease, seen_updater,
}

-- LocalUpdaterProgressInput; `progress` may be left out, null or a number.
pub record ProgressInput : Type 0 where
  pub fencing_token : ℕ
  pub phase : ProgressPhase
  pub progress : Option (Option ℕ)
  pub message : Option String

abbrev pub is_restarting : ProgressPhase → Bool
is_restarting ProgressPhase.restarting = true
is_restarting _ = false

abbrev last_seen : Option AgentState → Option ℕ
last_seen none = none
last_seen (some a) = a.last_seen_at

abbrev replaced : Option String → Option String → Option String
replaced none old = old
replaced (some m) old = some m

-- The swap point pins the last heartbeat, unless one is pinned.
abbrev pub pinned_baseline : ProgressPhase → Option AgentState → ℕ → Option ℕ → Option ℕ
pinned_baseline phase agent now (some at) = some at
pinned_baseline phase agent now none =
    if is_restarting phase then some (or_else (last_seen agent) now) else none

-- The patch of a progress report.
abbrev pub progress_patch : ProgressInput → Option AgentState → ℕ → Job → Job
progress_patch input agent now j = record j {
  state = state_of_phase input.phase;
  progress = or_else input.progress j.progress;
  message = replaced input.message j.message;
  lease_expires_at = some (now + lease_ttl_ms);
  phase_deadline_at = some (now + phase_timeout_ms (state_of_phase input.phase));
  baseline_heartbeat_at = pinned_baseline input.phase agent now j.baseline_heartbeat_at;
}

-- The attempts that `progress` has left; each reads the job, then the agent's state, and commits.
unfoldable pub progress_loop :
    ℕ → Others → Clock → String → String → ProgressInput → World → World × Outcome ServiceError Job
progress_loop zero others clock vps_id id input w = (w, err stale_lease)
progress_loop (suc n) others clock vps_id id input w =
    let read = others (2 * n) w in
    elim (require_job vps_id id read) [
      | err e ↦ (read, err e)
      | ok j ↦ elim (is_terminal j.state) [
        | true ↦ (read, err job_terminal)
        | false ↦ elim (holds_lease j input.fencing_token clock.now_ms) [
          | false ↦ (read, err stale_lease)
          | true ↦
              let at_agent = others (6 + n) read in
              elim (compare_and_set j.id j.revision
                (progress_patch input (at_agent.agents j.vps_id) clock.now_ms) clock.stamp_ms
                (others (2 * n + 1) at_agent)) [
                  | some (updated, v) ↦ (v, ok updated)
                  | none ↦
                      progress_loop n others clock vps_id id input (others (2 * n + 1) at_agent)
                ]
        ]
      ]
    ]

unfoldable pub progress :
    Others
    → Clock
    → String
    → String
    → String
    → ProgressInput
    → World
    → World × Outcome ServiceError Job
unfolding progress_loop
progress others clock vps_id credential_id id input w =
    progress_loop 3 others clock vps_id id input (seen_updater vps_id credential_id clock w)
