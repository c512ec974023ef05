-- ===== src/Upgrade/Eligible.antt =====
-- packages/api/src/local-upgrade/local-upgrade.service.ts: which jobs `createJob` makes, and what it
-- keeps of the store.
use vps_manager_nodejs.Prelude.{
  ℕ, ◌≡◌, refl, ◌⊎◌, inl, inr, String, Bool, true, false, Option, none, some, find, arith,
  Option-cases, Bool-cases, Outcome-cases, Outcome, ok, err, subst,
}
use vps_manager_nodejs.Upgrade.Job.{Job, UpdaterHeartbeat}
use vps_manager_nodejs.Upgrade.Store.{
  World, AgentState, Violation, active, idempotency, get, get_active_by_vps, get_updater_heartbeat,
  create,
}
use vps_manager_nodejs.Upgrade.Limits.{OneActive, KeyedOnce, create-KeepsLimits}
use vps_manager_nodejs.Upgrade.Service.{Clock, Others}
use vps_manager_nodejs.Upgrade.Catalog.{
  Catalog, CatalogResult, Release, found, unavailable, not_found, get_release_by_id,
}
use vps_manager_nodejs.Upgrade.Creation.{
  CreateError, arch_by_kernel, updater_is_healthy, fresh_build, release_of, supports_api,
  is_artifact_for, runs, Target, eligible, new_job, beaten, insert_job, create_new, replay_of,
  given_key, create_job,
}

-- A target that passes the tests of `createJob`.
pub record Compatible (heartbeat : Option UpdaterHeartbeat) (agent : Option AgentState)
    (kernel : String) (catalog : Catalog) (release_id : String) (now : ℕ) (t : Target)
    : Type 0 where
  pub healthy : updater_is_healthy heartbeat now ≡ true
  pub reported : fresh_build agent now ≡ some t.build
  pub arch : String
  pub supported : arch_by_kernel kernel ≡ some arch
  pub signed : get_release_by_id catalog release_id "linux" arch ≡ found t.release
  pub contract : supports_api t.release ≡ true
  pub artifact : find (is_artifact_for arch) t.release.artifacts ≡ some t.artifact
  pub newer : runs t.build t.release ≡ false

CatalogResult-cases :
    (c : CatalogResult)
    → ((r : Release) × (c ≡ found r)) ⊎ ((e : CreateError) × (release_of c ≡ err e))
CatalogResult-cases (found r) = inl (r, refl)
CatalogResult-cases (unavailable s) = inr (_, refl)
CatalogResult-cases not_found = inr (_, refl)

target_eq : (t u : Target) → ◌≡◌ {A = Outcome CreateError Target} (ok t) (ok u) → t ≡ u
target_eq t u e = ground arith

pub eligible-Compatible :
    (heartbeat : Option UpdaterHeartbeat) (agent : Option AgentState) (kernel : String)
    (catalog : Catalog) (release_id : String) (now : ℕ) (t : Target)
    → eligible heartbeat agent kernel catalog release_id now ≡ ok t
    → Compatible heartbeat agent kernel catalog release_id now t
unfolding eligible
eligible-Compatible heartbeat agent kernel catalog release_id now t e =
    elim (Bool-cases (updater_is_healthy heartbeat now)) [
      | inr sick ↦ let bad = rw (sick, eligible) at e in cc
      | inl healthy ↦ elim (Option-cases (arch_by_kernel kernel)) [
        | inl strange ↦ let bad = rw (healthy, strange, eligible) at e in cc
        | inr (arch, supported) ↦ elim (Option-cases (fresh_build agent now)) [
          | inl silent ↦ let bad = rw (healthy, supported, silent, eligible) at e in cc
          | inr (build, reported) ↦
              elim (CatalogResult-cases (get_release_by_id catalog release_id "linux" arch)) [
                | inr (x, unsigned) ↦
                    let bad = rw (healthy, supported, reported, unsigned, eligible) at e in cc
                | inl (release, signed) ↦ elim (Bool-cases (supports_api release)) [
                  | inr old ↦
                      let bad = rw (healthy, supported, reported, signed, old, eligible) at e in cc
                  | inl contract ↦
                      elim (Option-cases (find (is_artifact_for arch) release.artifacts)) [
                        | inl missing ↦
                            let bad =
                              rw (healthy, supported, reported, signed, contract, missing, eligible)
                                at e in
                            cc
                        | inr (artifact, there) ↦ elim (Bool-cases (runs build release)) [
                          | inl current ↦
                              let bad =
                                rw
                                  (
                                    healthy, supported, reported, signed, contract, there, current,
                                    eligible,
                                  )
                                  at e in
                              cc
                          | inr newer ↦
                              let step =
                                rw
                                  (
                                    healthy, supported, reported, signed, contract, there, newer,
                                    eligible,
                                  )
                                  at e in
                              subst (Compatible heartbeat agent kernel catalog release_id now)
                                (target_eq
                                  (record { build = build; release = release; artifact = artifact })
                                  t step)
                                (record {
                                  healthy = healthy;
                                  reported = reported;
                                  arch = arch;
                                  supported = supported;
                                  signed = signed;
                                  contract = contract;
                                  artifact = there;
                                  newer = newer;
                                })
                        ]
                      ]
                ]
              ]
        ]
      ]
    ]

pub Compatible-eligible :
    (heartbeat : Option UpdaterHeartbeat) (agent : Option AgentState) (kernel : String)
    (catalog : Catalog) (release_id : String) (now : ℕ) (t : Target)
    → Compatible heartbeat agent kernel catalog release_id now t
    → eligible heartbeat agent kernel catalog release_id now ≡ ok t
unfolding eligible
Compatible-eligible heartbeat agent kernel catalog release_id now t c =
    rw (c.healthy, c.supported, c.reported, c.signed, c.contract, c.artifact, c.newer, eligible)
      refl

-- The other requests that write while a job is made keep the limits of the store.
abbrev pub KeepsLimits : Others → Type 0
KeepsLimits others =
    (n : ℕ) (w : World)
    → OneActive w
    → KeyedOnce w
    → OneActive (others n w) × KeyedOnce (others n w)

abbrev Limited : World → Type 0
Limited w = OneActive w × KeyedOnce w

module _ (others : Others) (keeps : KeepsLimits others) where
  step-Limited : (n : ℕ) (w : World) → Limited w → Limited (others n w)
  step-Limited n w l = keeps n w l.0 l.1

  beaten-Limited : (v : Violation) (w : World) → Limited w → Limited (beaten v w).0
  beaten-Limited (active existing) w l = l
  beaten-Limited (idempotency existing) w l = elim (Option-cases (get existing w)) [
    | inl gone ↦ rw (gone, beaten) l
    | inr (j, there) ↦ rw (there, beaten) l
  ]

  insert_job-Limited : (j : Job) (w : World) → Limited w → Limited (insert_job others j w).0
  unfolding insert_job
  insert_job-Limited j w l = elim (Outcome-cases (create j (others 4 w))) [
    | inl ((made, v), done) ↦
        let before = step-Limited 4 w l in
        let after = create-KeepsLimits j made (others 4 w) v before.0 before.1 done in
        rw (done, insert_job) (after.0, after.1)
    | inr (violation, lost) ↦
        rw (lost, insert_job)
          (beaten-Limited violation (others 5 (others 4 w))
            (step-Limited 5 (others 4 w) (step-Limited 4 w l)))
  ]

  create_new-Limited :
      (clock : Clock) (kernel : String) (catalog : Catalog) (release_id id vps_id : String)
      (key : Option String) (actor : String) (w : World)
      → Limited w
      → Limited (create_new others clock kernel catalog release_id id vps_id key actor w).0
  unfolding create_new
  create_new-Limited clock kernel catalog release_id id vps_id key actor w l =
      let at_active = others 1 w in
      let at_heartbeat = others 2 at_active in
      let at_agent = others 3 at_heartbeat in
      let idle = step-Limited 1 w l in
      let ready = step-Limited 3 at_heartbeat (step-Limited 2 at_active idle) in
      elim (Option-cases (get_active_by_vps vps_id at_active)) [
        | inr (j, busy) ↦ rw (busy, create_new) idle
        | inl free ↦
            elim (Outcome-cases (
              eligible (get_updater_heartbeat vps_id at_heartbeat) (at_agent.agents vps_id) kernel
                catalog release_id clock.check_ms)) [
                  | inr (x, refused) ↦ rw (free, refused, create_new) ready
                  | inl (t, fit) ↦
                      rw (free, fit, create_new)
                        (insert_job-Limited (new_job id vps_id key actor clock.now_ms t) at_agent
                          ready)
                ]
      ]

  -- No call of `createJob`, however it ends, leaves a server with two live jobs or two jobs of a
  -- server under one idempotency key, if the other requests that write while it runs do not either.
  pub create_job-KeepsLimits :
      (demo : Bool) (vps : Option Bool) (clock : Clock) (kernel : String) (catalog : Catalog)
      (release_id id vps_id : String) (key : Option String) (actor : String) (w : World)
      → OneActive w
      → KeyedOnce w
      → let v =
          (create_job demo vps others clock kernel catalog release_id id vps_id key actor w).0 in
        OneActive v × KeyedOnce v
  unfolding create_job
  create_job-KeepsLimits true vps clock kernel catalog release_id id vps_id key actor w one once =
      (one, once)
  create_job-KeepsLimits false none clock kernel catalog release_id id vps_id key actor w one once =
      (one, once)
  create_job-KeepsLimits false (some false) clock kernel catalog release_id id vps_id key actor w
        one once =
      (one, once)
  create_job-KeepsLimits false (some true) clock kernel catalog release_id id vps_id key actor w one
        once =
      elim (Option-cases (replay_of key vps_id (others 0 w))) [
        | inr (j, replayed) ↦ rw (replayed, create_job) (keeps 0 w one once)
        | inl first ↦
            rw (first, create_job)
              (create_new-Limited clock kernel catalog release_id id vps_id (given_key key) actor
                (others 0 w) (keeps 0 w one once))
      ]
