-- ===== src/Upgrade/Guarantee/Claims.antt =====
-- packages/api/src/local-upgrade/local-upgrade.service.ts: what a call of `claim` does, whatever
-- other requests commit while it runs.
use vps_manager_nodejs.Prelude.{
  ℕ, suc, zero, ◌+◌, ◌*◌, ◌≡◌, refl, sym, ap, ◌∙◌, ◌⊎◌, inl, inr, String, true, false, List, [],
  ◌∷◌, Option, none, some, arith, eq_iff, find, Option-cases, Bool-cases, Outcome, ok, err, subst,
}
use vps_manager_nodejs.Upgrade.Job.{Job, is_terminal, is_post_swap}
use vps_manager_nodejs.Upgrade.Store.{World, get, get_active_by_vps, compare_and_set, is_active_of}
use vps_manager_nodejs.Upgrade.Store.Evolution.{
  Evolves, Evolves-refl, Evolves-trans, commit-Evolves, compare_and_set-Committed,
}
use vps_manager_nodejs.Upgrade.Unique.{Unique, get_active-get}
use vps_manager_nodejs.Upgrade.Service.{Clock, Others, ServiceError, lease_is_valid, seen_updater}
use vps_manager_nodejs.Upgrade.Claim.{
  reconcile, ClaimResult, claim_result, claim_patch, audit_claim, claim_loop, claim,
}
use vps_manager_nodejs.Upgrade.Guarantee.{
  Waits, start, step, Waits-trans, Moves, Fair, Moves-trans, seen-Moves, Follows-of_live,
  commit-Moves,
}
use vps_manager_nodejs.Upgrade.Guarantee.Grants.{IsLeased, patched-IsLeased}
use vps_manager_nodejs.Upgrade.Guarantee.Leases.{reconcile-Moves}

find-active :
    (vps_id : String) (js : List Job) (a : Job)
    → find (is_active_of vps_id) js ≡ some a
    → (is_terminal a.state ≡ false) × (a.vps_id ≡ vps_id)
find-active vps_id [] a e = cc
find-active vps_id (x ∷ js) a e = elim (Bool-cases (is_active_of vps_id x)) [
  | inl hit ↦ ground (arith, eq_iff x.vps_id vps_id, eq_iff a.vps_id vps_id)
  | inr miss ↦ find-active vps_id js a (ground (arith))
]

get_active-live :
    (vps_id : String) (w : World) (a : Job)
    → get_active_by_vps vps_id w ≡ some a
    → (is_terminal a.state ≡ false) × (a.vps_id ≡ vps_id)
unfolding get_active_by_vps
get_active-live vps_id w a e = find-active vps_id w.jobs a e

module _ (others : Others) (fair : Fair others) (clock : Clock) (vps_id : String) where
  -- What a poll that is given a job left, from the world `w` that `reconcile` leaves: the job of an
  -- unexpired lease as it is, or the next lease. `read` is where the call read the job.
  pub record Claimed (w v : World) (r : ClaimResult) : Type 0 where
    pub read : World
    pub job : Job
    pub reached : Waits others w read
    pub later : Evolves w read
    pub active : get_active_by_vps vps_id read ≡ some job
    pub granted :
        ((lease_is_valid job.lease_expires_at clock.now_ms ≡ true) × (r.job ≡ job) × (v ≡ read))
        ⊎ ((lease_is_valid job.lease_expires_at clock.now_ms ≡ false)
            × IsLeased (read.agents vps_id) clock.now_ms job r.job
            × (get r.job.id v ≡ some r.job))
    pub told : r.requires_reconcile ≡ is_post_swap r.job.state

  abbrev Answer : World → World → Outcome ServiceError (Option ClaimResult) → Type 0
  Answer w v (ok (some r)) = Claimed w v r
  Answer w v _ = Unit

  Answer_earlier :
      (w u : World) (r : World × Outcome ServiceError (Option ClaimResult))
      → Waits others w u
      → Evolves w u
      → Answer u r.0 r.1
      → Answer w r.0 r.1
  Answer_earlier w u (v, err e) waited moved a = tt
  Answer_earlier w u (v, ok none) waited moved a = tt
  Answer_earlier w u (v, ok (some r)) waited moved a = record {
    read = a.read;
    job = a.job;
    reached = Waits-trans waited a.reached;
    later = Evolves-trans w u a.read moved a.later;
    active = a.active;
    granted = a.granted;
    told = a.told;
  }

  abbrev Good : World → World × Outcome ServiceError (Option ClaimResult) → Type 0
  Good w r = Unique w.jobs → (Unique r.0.jobs × Evolves w r.0) × Answer w r.0 r.1

  retried-Good :
      (w u : World) (r : World × Outcome ServiceError (Option ClaimResult))
      → Waits others w u
      → Moves w u
      → Good u r
      → Good w r
  retried-Good w u r waited moved rest unique =
      let (unique_u, later) = moved unique in
      let (kept, answer) = rest unique_u in
      ((kept.0, Evolves-trans w u r.0 later kept.1), Answer_earlier w u r waited later answer)

  lease_won-Good :
      (w read v u : World) (j updated : Job)
      → Waits others w read
      → Moves w read
      → Moves read v
      → get_active_by_vps vps_id read ≡ some j
      → lease_is_valid j.lease_expires_at clock.now_ms ≡ false
      → compare_and_set j.id j.revision
          (claim_patch (read.agents vps_id) clock.now_ms)
          clock.stamp_ms
          v
        ≡ some (updated, u)
      → Good w (audit_claim vps_id j u, ok (some (claim_result updated)))
  unfolding get
  lease_won-Good w read v u j updated reached to_read waits active lapsed won unique =
      let (unique_read, later) = to_read unique in
      let (live, own) = get_active-live vps_id read j active in
      let found = get_active-get vps_id read j unique_read active in
      let patch = claim_patch (read.agents vps_id) clock.now_ms in
      let (unique_v, waited) = waits unique_read in
      let c = compare_and_set-Committed j.id j.revision patch clock.stamp_ms v u updated won in
      let (_, written) =
        commit-Evolves read v u j updated patch clock.stamp_ms found waited won (omega arith)
          (Follows-of_live j.state _ live) in
      (
        Moves-trans w read u to_read
            (λ here.
              commit-Moves read v u j updated patch clock.stamp_ms here found waits won
                (omega arith) (Follows-of_live j.state _ live))
            unique,
        record {
          read = read;
          job = j;
          reached = reached;
          later = later;
          active = active;
          granted = inr (
            lapsed,
            subst (IsLeased (read.agents vps_id) clock.now_ms j) (sym written)
                (patched-IsLeased (read.agents vps_id) clock.now_ms clock.stamp_ms j),
            c.stored updated.id
                ∙ rw ((eq_iff j.id updated.id).1 (sym (ap (λ k. k.id) written))) refl,
          );
          told = refl;
        },
      )

  claim_loop-Good : (n : ℕ) (w : World) → Good w (claim_loop n others clock vps_id w)
  unfolding claim_loop
  claim_loop-Good zero w = λ unique. ((unique, Evolves-refl w), tt)
  claim_loop-Good (suc n) w =
      let read = others (2 * n) w in
      let waited = others (2 * n + 1) read in
      elim (Option-cases (get_active_by_vps vps_id read)) [
        | inl idle ↦ rw (idle, claim_loop) (λ unique. (fair (2 * n) w unique, tt))
        | inr (j, active) ↦ elim (Bool-cases (lease_is_valid j.lease_expires_at clock.now_ms)) [
          | inl valid ↦
              rw (active, valid, claim_loop)
                (λ unique.
                  let (unique_read, later) = fair (2 * n) w unique in
                  (
                    (unique_read, later),
                    record {
                      read = read;
                      job = j;
                      reached = step (2 * n) start;
                      later = later;
                      active = active;
                      granted = inl (valid, refl, refl);
                      told = refl;
                    },
                  ))
          | inr lapsed ↦
              elim (Option-cases (
                compare_and_set j.id j.revision (claim_patch (read.agents vps_id) clock.now_ms)
                  clock.stamp_ms waited)) [
                    | inr ((updated, u), won) ↦
                        rw (active, lapsed, won, claim_loop)
                          (lease_won-Good w read waited u j updated (step (2 * n) start)
                            (fair (2 * n) w) (fair (2 * n + 1) read) active lapsed won)
                    | inl beaten ↦
                        rw (active, lapsed, beaten, claim_loop)
                          (retried-Good w waited (claim_loop n others clock vps_id waited)
                            (step (2 * n + 1) (step (2 * n) start))
                            (Moves-trans w read waited (fair (2 * n) w) (fair (2 * n + 1) read))
                            (claim_loop-Good n waited))
                  ]
        ]
      ]

  module _ (others_of_reconcile : Others) (fair_of_reconcile : Fair others_of_reconcile) where
    -- The world that the poll's own reconciliation leaves.
    abbrev pub reconciled : String → World → World
    reconciled credential_id w =
        reconcile others_of_reconcile clock vps_id (seen_updater vps_id credential_id clock w)

    reconciled-Moves : (credential_id : String) (w : World) → Moves w (reconciled credential_id w)
    reconciled-Moves credential_id w =
        let seen = seen_updater vps_id credential_id clock w in
        Moves-trans w seen (reconciled credential_id w) (seen-Moves vps_id credential_id clock w)
          (reconcile-Moves others_of_reconcile fair_of_reconcile clock vps_id seen)

    -- A poll that is given a job is given the active job of its server, as it was read after the
    -- poll's own reconciliation and nothing but other requests' writes: the one under a lease that
    -- has not expired unchanged, with nothing written after the read; or else, as stored, the job
    -- one revision on, under the next fencing token and a lease of a minute from now, `claimed` if
    -- it was queued and in the same state otherwise, with a baseline build kept or taken from the
    -- agent. It is told to reconcile exactly past the swap. This holds whatever the other requests
    -- that commit meanwhile do, if they keep `Moves` and job ids are unique.
    pub claim-Claimed :
        (credential_id : String) (w : World) (r : ClaimResult)
        → Unique w.jobs
        → (claim others_of_reconcile others clock vps_id credential_id w).1 ≡ ok (some r)
        → Claimed
            (reconciled credential_id w)
            (claim others_of_reconcile others clock vps_id credential_id w).0
            r
    unfolding claim
    claim-Claimed credential_id w r unique answered =
        let ready = reconciled credential_id w in
        subst (Answer ready (claim_loop 3 others clock vps_id ready).0) answered
          (claim_loop-Good 3 ready (reconciled-Moves credential_id w unique).0).1
