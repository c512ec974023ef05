-- ===== src/Upgrade/Guarantee.antt =====
-- What the handlers of packages/api/src/local-upgrade/local-upgrade.service.ts guarantee to one
-- another: unique ids, and every job moving on as `JobEvolves` says. Here: how a commit does.
pub mod Reports
pub mod Leases
pub mod Grants
pub mod Claims
pub mod Verdicts
pub mod Settled
pub mod Judged
use vps_manager_nodejs.Prelude.{
  All, ℕ, suc, zero, ◌+◌, ◌*◌, ◌≤◌, ◌≡◌, ◌≢◌, refl, sym, ap, ◌∙◌, ◌⊎◌, inl, inr, String, Bool, true,
  false, List, [], ◌∷◌, ◌++◌, Option, none, some, find, arith, length, if◌then◌else◌, str_eq,
  eq_iff, eq_refl, Bool-cases, Option-cases, Outcome-cases, Outcome, ok, err, subst, some-eq,
}
use vps_manager_nodejs.Upgrade.Job.{
  Job, JobState, is_terminal, succeeded, rolled_back, rollback_unverified, failed,
}
use vps_manager_nodejs.Upgrade.Store.{
  World, has_id, patched, AgentState, get, get_active_by_vps, list_by_vps, compare_and_set,
  record_updater_heartbeat, add_audit,
}
use vps_manager_nodejs.Upgrade.Store.Evolution.{
  Evolves, Evolves-refl, Evolves-trans, Follows, commit-Evolves, get-id,
}
use vps_manager_nodejs.Upgrade.Unique.{
  Unique, get_active-get, list_by_vps-get, compare_and_set-Unique,
}
use vps_manager_nodejs.Upgrade.Service.{
  Clock, Others, ServiceError, require_job, holds_lease, lease_is_valid, seen_updater,
  commit_terminal,
}

abbrev pub Moves : World → World → Type 0
Moves w v = Unique w.jobs → Unique v.jobs × Evolves w v

-- The other writers move the world on as the handlers do.
abbrev pub Fair : Others → Type 0
Fair others = (n : ℕ) (w : World) → Moves w (others n w)

-- The worlds that a call reads as long as it has not written: other requests write at its waits.
pub data Waits (others : Others) (w : World) : World → Type 0 where
  start : Waits others w w
  step : {v : World} (n : ℕ) → Waits others w v → Waits others w (others n v)

pub Waits-trans :
    {others : Others} {w v u : World} → Waits others w v → Waits others v u → Waits others w u
Waits-trans first start = first
Waits-trans first (step n rest) = step n (Waits-trans first rest)

pub Moves-trans : (w v u : World) → Moves w v → Moves v u → Moves w u
Moves-trans w v u h k unique =
    let (uv, ev) = h unique in let (uu, eu) = k uv in (uu, Evolves-trans w v u ev eu)

pub seen-Moves :
    (vps_id credential_id : String) (clock : Clock) (w : World)
    → Moves w (seen_updater vps_id credential_id clock w)
unfolding record_updater_heartbeat get
seen-Moves vps_id credential_id clock w u = (u, Evolves-refl w)

pub Follows-of_live : (s t : JobState) → is_terminal s ≡ false → Follows s t
Follows-of_live succeeded t e = cc
Follows-of_live rolled_back t e = cc
Follows-of_live rollback_unverified t e = cc
Follows-of_live failed t e = cc
Follows-of_live _ t e = tt

-- Read a job, wait, commit a patch of it.
pub commit-Moves :
    (w v v' : World) (a new : Job) (patch : Job → Job) (stamp : ℕ)
    → Unique w.jobs
    → get a.id w ≡ some a
    → Moves w v
    → compare_and_set a.id a.revision patch stamp v ≡ some (new, v')
    → a.fencing_token ≤ (patch a).fencing_token
    → Follows a.state (patch a).state
    → Unique v'.jobs × Evolves w v'
commit-Moves w v v' a new patch stamp u read moved won fenced follows =
    let (uv, ev) = moved u in
    let (ev', _) = commit-Evolves w v v' a new patch stamp read ev won fenced follows in
    (
      compare_and_set-Unique a.id a.revision patch stamp v v' new won uv,
      Evolves-trans w v v' ev ev',
    )

pub require_job-get :
    (vps_id id : String) (w : World) (j : Job)
    → require_job vps_id id w ≡ ok j
    → (get j.id w ≡ some j) × (j.vps_id ≡ vps_id) × (j.id ≡ id)
unfolding require_job
require_job-get vps_id id w j e = elim (Option-cases (get id w)) [
  | inl missing ↦ cc
  | inr (k, found) ↦
      let k_j : k ≡ j = ground arith in
      let own : j.vps_id ≡ vps_id = ground (arith, eq_iff k.vps_id vps_id) in
      let named : j.id ≡ id = sym (ap (λ x. x.id) k_j) ∙ get-id id w k found in
      (ap (λ i. get i w) named ∙ found ∙ ap some k_j, own, named)
]

-- A terminal commit that succeeds: the compare-and-set succeeds, and only the audit trail is changed
-- besides.
pub commit_terminal-won :
    (a new : Job) (patch : Job → Job) (action : String) (success : Bool) (stamp : ℕ) (v v' : World)
    → commit_terminal a patch action success stamp v ≡ some (new, v')
    → (u : World) × (compare_and_set a.id a.revision patch stamp v ≡ some (new, u))
      × (v'.jobs ≡ u.jobs)
unfolding commit_terminal
commit_terminal-won a new patch action success stamp v v' won =
    elim (Option-cases (compare_and_set a.id a.revision patch stamp v)) [
      | inl lost ↦ let none_left = rw (lost, commit_terminal) at won in cc
      | inr ((updated, x), committed) ↦
          let step = some-eq (rw (committed, commit_terminal) at won) in
          (x, committed ∙ ap (λ j. some (j, x)) (ap (λ p. p.0) step), sym (ap (λ p. p.1.jobs) step))
    ]

same_jobs-Moves : (w u v : World) → v.jobs ≡ u.jobs → Moves w u → Moves w v
unfolding get
same_jobs-Moves w u v same moved unique =
    let (uu, eu) = moved unique in
    (
      subst Unique (sym same) uu,
      λ id a e. let (b, f, ab) = eu id a e in (b, ap (find (has_id id)) same ∙ f, ab),
    )

pub commit_terminal-Moves :
    (w v v' : World) (a new : Job) (patch : Job → Job) (action : String) (success : Bool)
    (stamp : ℕ)
    → get a.id w ≡ some a
    → Moves w v
    → commit_terminal a patch action success stamp v ≡ some (new, v')
    → a.fencing_token ≤ (patch a).fencing_token
    → Follows a.state (patch a).state
    → Moves w v'
commit_terminal-Moves w v v' a new patch action success stamp read moved won fenced follows =
    let (u, committed, same) = commit_terminal-won a new patch action success stamp v v' won in
    same_jobs-Moves w u v' same
      (λ unique. commit-Moves w v u a new patch stamp unique read moved committed fenced follows)
