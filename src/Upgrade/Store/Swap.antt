-- ===== src/Upgrade/Store/Swap.antt =====
-- packages/api/src/persistence/repositories/local-upgrade.repository.ts: `compareAndSet` as a whole,
-- when it writes and what it writes.
use vps_manager_nodejs.Prelude.{
  ℕ, ◌+◌, ◌≡◌, ◌≢◌, refl, ◌⊎◌, inl, inr, String, Option, none, some, arith, ◌==◌, ==_iff,
  if◌then◌else◌, str_eq, Bool-cases, Option-cases,
}
use vps_manager_nodejs.Upgrade.Job.{Job}
use vps_manager_nodejs.Upgrade.Store.{World, get, patched, set_job, compare_and_set}
use vps_manager_nodejs.Upgrade.Store.Evolution.{Committed, compare_and_set-Committed}

-- What is stored in place of `old` for the update `wanted`: the identity and the pinned release of `old`,
-- the next revision and the time of the write, and for all else what `wanted` has.
pub record IsUpdate (old wanted : Job) (stamp : ℕ) (new : Job) : Type 0 where
  pub id : new.id ≡ old.id
  pub vps_id : new.vps_id ≡ old.vps_id
  pub created_at : new.created_at ≡ old.created_at
  pub release_id : new.release_id ≡ old.release_id
  pub manifest_raw : new.manifest_raw ≡ old.manifest_raw
  pub revision : new.revision ≡ old.revision + 1
  pub updated_at : new.updated_at ≡ stamp
  pub state : new.state ≡ wanted.state
  pub progress : new.progress ≡ wanted.progress
  pub release_version : new.release_version ≡ wanted.release_version
  pub release_build_id : new.release_build_id ≡ wanted.release_build_id
  pub target_sha256 : new.target_sha256 ≡ wanted.target_sha256
  pub target_url : new.target_url ≡ wanted.target_url
  pub target_size_bytes : new.target_size_bytes ≡ wanted.target_size_bytes
  pub baseline_build_id : new.baseline_build_id ≡ wanted.baseline_build_id
  pub baseline_heartbeat_at : new.baseline_heartbeat_at ≡ wanted.baseline_heartbeat_at
  pub actor : new.actor ≡ wanted.actor
  pub idempotency_key : new.idempotency_key ≡ wanted.idempotency_key
  pub message : new.message ≡ wanted.message
  pub fencing_token : new.fencing_token ≡ wanted.fencing_token
  pub reclaim_count : new.reclaim_count ≡ wanted.reclaim_count
  pub claimed_at : new.claimed_at ≡ wanted.claimed_at
  pub lease_expires_at : new.lease_expires_at ≡ wanted.lease_expires_at
  pub deadline_at : new.deadline_at ≡ wanted.deadline_at
  pub phase_deadline_at : new.phase_deadline_at ≡ wanted.phase_deadline_at
  pub error : new.error ≡ wanted.error
  pub result : new.result ≡ wanted.result
  pub completed_at : new.completed_at ≡ wanted.completed_at

-- The store after the job `id` has become `new`: the other jobs and all else are as before.
pub record Replaces (id : String) (new : Job) (w w' : World) : Type 0 where
  pub jobs : (k : String) → get k w' ≡ (if str_eq id k then some new else get k w)
  pub heartbeats : w'.heartbeats ≡ w.heartbeats
  pub agents : w'.agents ≡ w.agents
  pub audits : w'.audits ≡ w.audits

pub record Wins (id : String) (expected : ℕ) (patch : Job → Job) (stamp : ℕ) (w : World)
    (answer : Option (Job × World)) : Type 0 where
  pub old : Job
  pub found : get id w ≡ some old
  pub current : old.revision ≡ expected
  pub new : Job
  pub after : World
  pub answered : answer ≡ some (new, after)
  pub updated : IsUpdate old (patch old) stamp new
  pub replaced : Replaces id new w after

abbrev pub Loses : String → ℕ → World → Option (Job × World) → Type 0
Loses id expected w answer =
    ((get id w ≡ none) ⊎ ((old : Job) × (get id w ≡ some old) × (old.revision ≢ expected)))
    × (answer ≡ none)

pub patched-IsUpdate :
    (patch : Job → Job) (stamp : ℕ) (old : Job)
    → IsUpdate old (patch old) stamp (patched patch stamp old)
patched-IsUpdate patch stamp old = record {
  id = refl;
  vps_id = refl;
  created_at = refl;
  release_id = refl;
  manifest_raw = refl;
  revision = refl;
  updated_at = refl;
  state = refl;
  progress = refl;
  release_version = refl;
  release_build_id = refl;
  target_sha256 = refl;
  target_url = refl;
  target_size_bytes = refl;
  baseline_build_id = refl;
  baseline_heartbeat_at = refl;
  actor = refl;
  idempotency_key = refl;
  message = refl;
  fencing_token = refl;
  reclaim_count = refl;
  claimed_at = refl;
  lease_expires_at = refl;
  deadline_at = refl;
  phase_deadline_at = refl;
  error = refl;
  result = refl;
  completed_at = refl;
}

set_job-Replaces :
    (id : String) (expected stamp : ℕ) (patch : Job → Job) (w w' : World) (old new : Job)
    → w' ≡ set_job id new w
    → Committed id expected patch stamp w new w'
    → Replaces id new w w'
set_job-Replaces id expected stamp patch w w' old new moved c = record {
  jobs = c.stored;
  heartbeats = rw moved refl;
  agents = c.agents;
  audits = rw moved refl;
}

-- compareAndSet writes exactly where a job with the id is stored and has the expected revision: it
-- stores the update with the job's identity and pinned release kept, the revision one higher and the
-- time of the write, answers it, and changes nothing else. Where the job is missing or has another
-- revision it answers nothing.
pub compare_and_set_total :
    (id : String) (expected : ℕ) (patch : Job → Job) (stamp : ℕ) (w : World)
    → Wins id expected patch stamp w (compare_and_set id expected patch stamp w)
      ⊎ Loses id expected w (compare_and_set id expected patch stamp w)
unfolding compare_and_set
compare_and_set_total id expected patch stamp w = elim (Option-cases (get id w)) [
  | inl missing ↦ inr (inl missing, rw (missing, compare_and_set) refl)
  | inr (old, found) ↦ elim (Bool-cases (old.revision == expected)) [
    | inr stale ↦ inr (
      inr (old, found, ground (arith, ==_iff old.revision expected)),
      rw (found, stale, compare_and_set) refl,
    )
    | inl current ↦
        let won : compare_and_set id expected patch stamp w
            ≡ some (patched patch stamp old, set_job id (patched patch stamp old) w) =
          rw (found, current, compare_and_set) refl in
        inl (record {
          old = old;
          found = found;
          current = (==_iff old.revision expected).0 current;
          new = patched patch stamp old;
          after = set_job id (patched patch stamp old) w;
          answered = won;
          updated = patched-IsUpdate patch stamp old;
          replaced =
              set_job-Replaces id expected stamp patch w _ old _ refl
                (compare_and_set-Committed id expected patch stamp w _ _ won);
        })
  ]
]
