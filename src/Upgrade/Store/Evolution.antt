-- ===== src/Upgrade/Store/Evolution.antt =====
-- The contract of `compareAndSet` in packages/api/src/persistence/repositories/
-- local-upgrade.repository.ts, and the order in which the stored jobs may move on.
use vps_manager_nodejs.Prelude.{
  ℕ, ◌≤◌, ◌≡◌, refl, sym, ap, ◌∙◌, ◌⊎◌, inl, inr, String, List, [], ◌∷◌, Option, some, find, arith,
  ◌==◌, ==_iff, if◌then◌else◌, str_eq, eq_iff, Bool-cases, Option-cases, subst, some-eq,
}
use vps_manager_nodejs.Upgrade.Job.{
  Job, JobState, succeeded, rolled_back, rollback_unverified, failed,
}
use vps_manager_nodejs.Upgrade.Store.{
  World, has_id, get, patched, replace_first, set_job, compare_and_set,
}

find-has_id : (id : String) (js : List Job) (j : Job) → find (has_id id) js ≡ some j → j.id ≡ id
find-has_id id [] j e = cc
find-has_id id (x ∷ js) j e = ground (arith, eq_iff x.id id, find-has_id id js j)

pub get-id : (id : String) (w : World) (j : Job) → get id w ≡ some j → j.id ≡ id
unfolding get
get-id id w j e = find-has_id id w.jobs j e

find-replace_first :
    (id k : String) (new old : Job) (js : List Job)
    → new.id ≡ id
    → find (has_id id) js ≡ some old
    → find (has_id k) (replace_first id new js)
      ≡ (if str_eq id k then some new else find (has_id k) js)
find-replace_first id k new old [] same e = cc
find-replace_first id k new old (x ∷ js) same e = ground (
  arith,
  eq_iff x.id id,
  eq_iff x.id k,
  eq_iff id k,
  eq_iff new.id k,
  find-replace_first id k new old js same,
)

get-set_job :
    (id k : String) (new old : Job) (w : World)
    → new.id ≡ id
    → get id w ≡ some old
    → get k (set_job id new w) ≡ (if str_eq id k then some new else get k w)
unfolding get
get-set_job id k new old w same found = find-replace_first id k new old w.jobs same found

-- What a successful compare-and-set did: the stored job had the expected revision, the new one is
-- its patch with the identity kept and the revision one higher, and every other job is as before.
pub record Committed (id : String) (expected : ℕ) (patch : Job → Job) (stamp : ℕ) (w : World)
    (new : Job) (w' : World) : Type 0 where
  pub old : Job
  pub found : get id w ≡ some old
  pub current : old.revision ≡ expected
  pub written : new ≡ patched patch stamp old
  pub stored : (k : String) → get k w' ≡ (if str_eq id k then some new else get k w)
  pub agents : w'.agents ≡ w.agents
  pub jobs : w'.jobs ≡ replace_first id new w.jobs

cas_current :
    (id : String) (expected : ℕ) (patch : Job → Job) (stamp : ℕ) (w w' : World) (new old : Job)
    → get id w ≡ some old
    → compare_and_set id expected patch stamp w ≡ some (new, w')
    → (old.revision ≡ expected)
      × (new ≡ patched patch stamp old)
      × (w' ≡ set_job id (patched patch stamp old) w)
unfolding compare_and_set
cas_current id expected patch stamp w w' new old found e =
    elim (Bool-cases (old.revision == expected)) [
      | inl current ↦
          let step : ◌≡◌ {A = Option (Job × World)}
              (some (patched patch stamp old, set_job id (patched patch stamp old) w))
              (some (new, w')) =
            rw (found, current, compare_and_set) at e in
          let pair : (patched patch stamp old, set_job id (patched patch stamp old) w) ≡ (new, w') =
            some-eq step in
          ((==_iff _ _).0 current, sym (ap (λ p. p.0) pair), sym (ap (λ p. p.1) pair))
      | inr stale ↦ let none_left = rw (found, stale, compare_and_set) at e in cc
    ]

-- compareAndSet changes nothing unless the stored job has the expected revision; where it has, it
-- writes the patched job with its identity kept and its revision one higher, and no other job.
pub compare_and_set-Committed :
    (id : String) (expected : ℕ) (patch : Job → Job) (stamp : ℕ) (w w' : World) (new : Job)
    → compare_and_set id expected patch stamp w ≡ some (new, w')
    → Committed id expected patch stamp w new w'
unfolding compare_and_set
compare_and_set-Committed id expected patch stamp w w' new e = elim (Option-cases (get id w)) [
  | inl missing ↦ cc
  | inr (old, found) ↦
      let (current, written, moved) = cas_current id expected patch stamp w w' new old found e in
      record {
        old = old;
        found = found;
        current = current;
        written = written;
        stored = λ k.
            rw (moved, written)
              (get-set_job id k (patched patch stamp old) old w (get-id id w old found) found);
        agents = ap (λ v. v.agents) moved;
        jobs = rw (moved, written) refl;
      }
]

-- Where a job may move from each state: a settled job stays where it is, but for an unverified
-- rollback, which may still be verified.
abbrev pub Follows : JobState → JobState → Type 0
Follows succeeded s = s ≡ succeeded
Follows failed s = s ≡ failed
Follows rolled_back s = s ≡ rolled_back
Follows rollback_unverified s = (s ≡ rollback_unverified) ⊎ (s ≡ rolled_back)
Follows _ s = Unit

pub record JobEvolves (a b : Job) : Type 0 where
  pub vps : b.vps_id ≡ a.vps_id
  pub release : b.release_id ≡ a.release_id
  pub manifest : b.manifest_raw ≡ a.manifest_raw
  pub revised : a.revision ≤ b.revision
  pub fenced : a.fencing_token ≤ b.fencing_token
  pub same : a.revision ≡ b.revision → a ≡ b
  pub state : Follows a.state b.state

-- From one world to a later one no job is lost, and each moves on as `JobEvolves` says.
abbrev pub Evolves : World → World → Type 0
Evolves w v =
    (id : String) (a : Job) → get id w ≡ some a → (b : Job) × (get id v ≡ some b) × JobEvolves a b

Follows-refl : (s : JobState) → Follows s s
Follows-refl succeeded = refl
Follows-refl rollback_unverified = inl refl
Follows-refl failed = refl
Follows-refl rolled_back = refl
Follows-refl _ = tt

Follows-trans : (s t u : JobState) → Follows s t → Follows t u → Follows s u
Follows-trans succeeded t u h k = ground arith
Follows-trans rollback_unverified t u h k = ground arith
Follows-trans failed t u h k = ground arith
Follows-trans rolled_back t u h k = ground arith
Follows-trans _ t u h k = tt

JobEvolves-refl : (a : Job) → JobEvolves a a
JobEvolves-refl a = record {
  vps = refl;
  release = refl;
  manifest = refl;
  revised = omega arith;
  fenced = omega arith;
  same = λ _. refl;
  state = Follows-refl a.state;
}

JobEvolves-trans : (a b c : Job) → JobEvolves a b → JobEvolves b c → JobEvolves a c
JobEvolves-trans a b c h k = record {
  vps = k.vps ∙ h.vps;
  release = k.release ∙ h.release;
  manifest = k.manifest ∙ h.manifest;
  revised = omega arith;
  fenced = omega arith;
  same = λ e. h.same (omega arith) ∙ k.same (omega arith);
  state = Follows-trans a.state b.state c.state h.state k.state;
}

pub Evolves-refl : (w : World) → Evolves w w
Evolves-refl w id a e = (a, e, JobEvolves-refl a)

pub Evolves-trans : (w v u : World) → Evolves w v → Evolves v u → Evolves w u
Evolves-trans w v u h k id a e =
    let (b, f, ab) = h id a e in let (c, g, bc) = k id b f in (c, g, JobEvolves-trans a b c ab bc)

patched-JobEvolves :
    (a : Job) (patch : Job → Job) (stamp : ℕ)
    → a.fencing_token ≤ (patch a).fencing_token
    → Follows a.state (patch a).state
    → JobEvolves a (patched patch stamp a)
patched-JobEvolves a patch stamp fenced follows = record {
  vps = refl;
  release = refl;
  manifest = refl;
  revised = omega arith;
  fenced = fenced;
  same = λ e. absurd (omega arith);
  state = follows;
}

others :
    (id : String) (v v' : World) (a new : Job)
    → get id v ≡ some a
    → ((k : String) → get k v' ≡ (if str_eq id k then some new else get k v))
    → JobEvolves a new
    → Evolves v v'
others id v v' a new held stored step k x found = elim (Bool-cases (str_eq id k)) [
  | inl same ↦
      let x_a : x ≡ a =
        some-eq (sym found ∙ ap (λ i. get i v) (sym ((eq_iff id k).0 same)) ∙ held) in
      (new, stored k ∙ rw same refl, subst (λ j. JobEvolves j new) (sym x_a) step)
  | inr other ↦ (x, stored k ∙ rw other found, JobEvolves-refl x)
]

-- Every read-modify-write of the service: reads a job, lets other writers move the world on, and
-- commits a patch of what it read. The commit moves the world on if the patch may follow the job.
pub commit-Evolves :
    (w v v' : World) (a new : Job) (patch : Job → Job) (stamp : ℕ)
    → get a.id w ≡ some a
    → Evolves w v
    → compare_and_set a.id a.revision patch stamp v ≡ some (new, v')
    → a.fencing_token ≤ (patch a).fencing_token
    → Follows a.state (patch a).state
    → Evolves v v' × (new ≡ patched patch stamp a)
commit-Evolves w v v' a new patch stamp read moved won fenced follows =
    let (b, held, step) = moved a.id a read in
    let c = compare_and_set-Committed a.id a.revision patch stamp v v' new won in
    let b_old : b ≡ c.old = some-eq (sym held ∙ c.found) in
    let b_a : a ≡ b = step.same (sym c.current ∙ ap (λ j. j.revision) (sym b_old)) in
    let written : new ≡ patched patch stamp a =
      c.written ∙ ap (patched patch stamp) (sym (b_a ∙ b_old)) in
    (
      others a.id v v' a new (held ∙ ap some (sym b_a)) c.stored
          (subst (JobEvolves a) (sym written) (patched-JobEvolves a patch stamp fenced follows)),
      written,
    )
