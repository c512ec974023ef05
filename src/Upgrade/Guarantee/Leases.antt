-- ===== src/Upgrade/Guarantee/Leases.antt =====
-- packages/api/src/local-upgrade/local-upgrade.service.ts: what a call of `claim`, and of the
-- `reconcile` that it begins with, does, whatever other requests commit while it runs.
use vps_manager_nodejs.Prelude.{
  All, ℕ, ◌+◌, ◌*◌, ◌≤◌, ◌≡◌, inl, inr, String, Bool, true, false, ◌&&◌, List, [], ◌∷◌, length,
  Option, none, some, arith, Option-cases, Bool-cases,
}
use vps_manager_nodejs.Upgrade.Job.{Job, is_terminal}
use vps_manager_nodejs.Upgrade.Store.{World, get, list_by_vps}
use vps_manager_nodejs.Upgrade.Store.Evolution.{Evolves, Evolves-refl, Follows}
use vps_manager_nodejs.Upgrade.Unique.{Unique, list_by_vps-get}
use vps_manager_nodejs.Upgrade.Service.{Clock, Others, heartbeat_confirms, commit_terminal}
use vps_manager_nodejs.Upgrade.Verdict.{settle_succeeded, agent_build}
use vps_manager_nodejs.Upgrade.Claim.{
  Ruling, ruling_patch, deadline_ruling, after_commit, rule_deadline, awaits_heartbeat, is_expired,
  reconcile_job, reconcile_loop, reconcile,
}
use vps_manager_nodejs.Upgrade.Guarantee.{
  Moves, Fair, Moves-trans, Follows-of_live, commit_terminal-Moves,
}

after_commit-Moves :
    (w v : World) (j : Job) (patch : Job → Job) (action : String) (success : Bool) (stamp : ℕ)
    → get j.id w ≡ some j
    → Moves w v
    → j.fencing_token ≤ (patch j).fencing_token
    → Follows j.state (patch j).state
    → Moves w (after_commit v (commit_terminal j patch action success stamp v))
after_commit-Moves w v j patch action success stamp read moved fenced follows =
    elim (Option-cases (commit_terminal j patch action success stamp v)) [
      | inl lost ↦ rw lost moved
      | inr ((new, u), won) ↦ rw won (
          commit_terminal-Moves w v u j new patch action success stamp read moved won fenced
            follows)
    ]

module _ (others : Others) (fair : Fair others) (clock : Clock) (vps_id : String) where
  rule_deadline-Moves :
      (w v : World) (j : Job) (r : Option Ruling)
      → get j.id w ≡ some j
      → is_terminal j.state ≡ false
      → Moves w v
      → Moves w (rule_deadline j clock v r)
  rule_deadline-Moves w v j none read live moved = moved
  rule_deadline-Moves w v j (some r) read live moved =
      after_commit-Moves w v j (ruling_patch r clock.now_ms) r.action false clock.stamp_ms read
        moved (omega arith) (Follows-of_live j.state _ live)

  reconcile_job-Moves :
      (n : ℕ) (w read : World) (j : Job)
      → get j.id w ≡ some j
      → Moves w read
      → Moves w (reconcile_job others n clock vps_id j read)
  unfolding reconcile_job
  reconcile_job-Moves n w read j found moved =
      let waited = Moves-trans w read (others n read) moved (fair n read) in
      elim (Bool-cases (is_terminal j.state)) [
        | inl over ↦ rw (over, reconcile_job) moved
        | inr live ↦
            elim (Bool-cases (
              awaits_heartbeat j.state
              && heartbeat_confirms (read.agents vps_id) j clock.check_ms)) [
                | inl confirmed ↦
                    rw (live, confirmed, reconcile_job)
                      (after_commit-Moves w (others n read) j
                        (settle_succeeded none (agent_build (read.agents vps_id)) clock.now_ms)
                        "local_agent_upgrade.success" true clock.stamp_ms found waited (omega arith)
                        (Follows-of_live j.state _ live))
                | inr unconfirmed ↦ elim (Bool-cases (is_expired j clock.now_ms)) [
                  | inl expired ↦
                      rw (live, unconfirmed, expired, reconcile_job)
                        (rule_deadline-Moves w (others n read) j (deadline_ruling j.state) found
                          live waited)
                  | inr early ↦ rw (live, unconfirmed, early, reconcile_job) moved
                ]
              ]
      ]

  reconcile_loop-Moves :
      (js : List Job) (w v : World)
      → All (λ j. get j.id w ≡ some j) js
      → Moves w v
      → Moves w (reconcile_loop others clock vps_id js v)
  unfolding reconcile_loop
  reconcile_loop-Moves [] w v listed moved = moved
  reconcile_loop-Moves (j ∷ js) w v listed moved = reconcile_loop-Moves js w _ listed.1 (
      reconcile_job-Moves (2 * length js) w (others (2 * length js + 1) v) j listed.0
        (Moves-trans w v _ moved (fair (2 * length js + 1) v)))

  pub reconcile-Moves :
      (w : World)
      → Unique w.jobs
      → Unique (reconcile others clock vps_id w).jobs × Evolves w (reconcile others clock vps_id w)
  unfolding reconcile
  reconcile-Moves w unique =
      reconcile_loop-Moves (list_by_vps vps_id 100 0 w) w w (list_by_vps-get vps_id 100 0 w unique)
        (λ u. (u, Evolves-refl w)) unique
