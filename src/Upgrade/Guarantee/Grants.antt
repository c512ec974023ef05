-- ===== src/Upgrade/Guarantee/Grants.antt =====
-- packages/api/src/local-upgrade/local-upgrade.service.ts: what a grant of `claim` makes of a job.
use vps_manager_nodejs.Prelude.{
  String, ap, str_eq, eq_iff, Bool-cases, some-eq, ℕ, ◌+◌, ◌≡◌, ◌≢◌, refl, or_else, is_some,
  if◌then◌else◌, ◌⊎◌, inl, inr, Option, none, some, arith,
}
use vps_manager_nodejs.Upgrade.Job.{Job, JobState, queued, claimed}
use vps_manager_nodejs.Upgrade.Store.{AgentState, patched}
use vps_manager_nodejs.Upgrade.Verdict.{agent_build}
use vps_manager_nodejs.Upgrade.Claim.{baseline_or, claimed_state, claim_patch}

-- The baseline of a claim: the one that the job has, or else the build that the agent named, which is
-- not empty.
abbrev pub IsBaseline : Option String → Option String → Option String → Type 0
IsBaseline old named new =
    ((old ≢ none) × (new ≡ old))
    ⊎ (((old ≡ none) × (named ≢ none) × (named ≢ some "") × (new ≡ named))
        ⊎ ((old ≡ none) × ((named ≡ none) ⊎ (named ≡ some "")) × (new ≡ none)))

baseline_or-IsBaseline : (old named : Option String) → IsBaseline old named (baseline_or old named)
baseline_or-IsBaseline (some b) named = inl (ground arith, refl)
baseline_or-IsBaseline none none = inr (inr (refl, inl refl, refl))
baseline_or-IsBaseline none (some build) = elim (Bool-cases (str_eq build "")) [
  | inl empty ↦ rw empty (inr (inr (refl, inr (ap some ((eq_iff build "").0 empty)), refl)))
  | inr given ↦
      let filled : build ≢ "" = λ e. let bad = (eq_iff build "").1 e in cc in
      rw given (inr (inl (refl, ground arith, (λ e. filled (some-eq e)), refl)))
]

-- The job `old` after a grant at the time `now`: the next fencing token, a lease of a minute, a claim
-- time, one claim more where there was one, and a baseline.
pub record IsLeased (agent : Option AgentState) (now : ℕ) (old new : Job) : Type 0 where
  pub id : new.id ≡ old.id
  pub vps_id : new.vps_id ≡ old.vps_id
  pub release_id : new.release_id ≡ old.release_id
  pub manifest_raw : new.manifest_raw ≡ old.manifest_raw
  pub revision : new.revision ≡ old.revision + 1
  pub fenced : new.fencing_token ≡ old.fencing_token + 1
  pub leased : new.lease_expires_at ≡ some (now + 60000)
  pub claimed_at : new.claimed_at ≡ some (or_else old.claimed_at now)
  pub reclaims :
      ((old.claimed_at ≡ none) × (new.reclaim_count ≡ old.reclaim_count))
      ⊎ ((old.claimed_at ≢ none) × (new.reclaim_count ≡ old.reclaim_count + 1))
  pub state :
      ((old.state ≡ queued) × (new.state ≡ claimed))
      ⊎ ((old.state ≢ queued) × (new.state ≡ old.state))
  pub baseline : IsBaseline old.baseline_build_id (agent_build agent) new.baseline_build_id
  pub baseline_heartbeat_at : new.baseline_heartbeat_at ≡ old.baseline_heartbeat_at
  pub progress : new.progress ≡ old.progress
  pub deadline_at : new.deadline_at ≡ old.deadline_at
  pub phase_deadline_at : new.phase_deadline_at ≡ old.phase_deadline_at

reclaimed :
    (at : Option ℕ) (n : ℕ)
    → ((at ≡ none) × ((if is_some at then n + 1 else n) ≡ n))
      ⊎ ((at ≢ none) × ((if is_some at then n + 1 else n) ≡ n + 1))
reclaimed none n = inl (refl, refl)
reclaimed (some at) n = inr (ground arith, refl)

claimed-state :
    (s : JobState)
    → ((s ≡ queued) × (claimed_state s ≡ claimed)) ⊎ ((s ≢ queued) × (claimed_state s ≡ s))
claimed-state queued = inl (refl, refl)
claimed-state _ = inr (ground arith, refl)

pub patched-IsLeased :
    (agent : Option AgentState) (now stamp : ℕ) (old : Job)
    → IsLeased agent now old (patched (claim_patch agent now) stamp old)
patched-IsLeased agent now stamp old = record {
  id = refl;
  vps_id = refl;
  release_id = refl;
  manifest_raw = refl;
  revision = refl;
  fenced = refl;
  leased = refl;
  claimed_at = refl;
  reclaims = reclaimed old.claimed_at old.reclaim_count;
  state = claimed-state old.state;
  baseline = baseline_or-IsBaseline old.baseline_build_id (agent_build agent);
  baseline_heartbeat_at = refl;
  progress = refl;
  deadline_at = refl;
  phase_deadline_at = refl;
}
