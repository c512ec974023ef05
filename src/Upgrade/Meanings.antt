-- ===== src/Upgrade/Meanings.antt =====
-- packages/api/src/local-upgrade/local-upgrade.service.ts: what the tests of the handlers mean.
use vps_manager_nodejs.Prelude.{
  ℕ, ◌+◌, ◌≤◌, ◌<◌, ◌≡◌, refl, ◌⊎◌, ◌↔◌, String, true, Option, none, some, arith, eq_iff, ==_iff,
  &&-true, true-&&, leb→le, subst, sym,
}
use vps_manager_nodejs.Upgrade.Job.{Job, JobState, is_post_swap}
use vps_manager_nodejs.Upgrade.Store.{AgentState}
use vps_manager_nodejs.Upgrade.Service.{
  is_fresh_timestamp, is_fresh, same_build, is_after, is_after_baseline, heartbeat_confirms,
  baseline_verified, meets_baseline, lease_is_valid, holds_lease,
}

abbrev pub IsRecent : ℕ → ℕ → ℕ → Type 0
IsRecent ttl now time = (time ≤ now) × (now < time + ttl)

-- Seen within the last two minutes.
abbrev pub IsSeen : ℕ → Option ℕ → Type 0
IsSeen now seen = (time : ℕ) × (seen ≡ some time) × IsRecent 120000 now time

pub is_fresh_timestamp_iff :
    (time ttl now : ℕ) → (is_fresh_timestamp time ttl now ≡ true) ↔ IsRecent ttl now time
is_fresh_timestamp_iff time ttl now = ground arith

pub is_fresh-IsSeen : (seen : Option ℕ) (now : ℕ) → (is_fresh seen now ≡ true) ↔ IsSeen now seen
is_fresh-IsSeen none now = ground arith
is_fresh-IsSeen (some time) now = (
  (λ e. (time, refl, (is_fresh_timestamp_iff time 120000 now).0 e)),
  (λ (t, same, recent). ground arith),
)

pub same_build_iff :
    (seen : Option String) (build : String) → (same_build seen build ≡ true) ↔ (seen ≡ some build)
same_build_iff none build = ground arith
same_build_iff (some b) build = ground (arith, eq_iff b build)

-- A reported time is later than a baseline, if there is a baseline.
abbrev pub IsAfter : Option ℕ → ℕ → Type 0
IsAfter none time = Unit
IsAfter (some baseline) time = baseline < time

-- The agent runs the job's release: it has reported that build within two minutes, and since the
-- baseline.
pub record Confirms (agent : Option AgentState) (j : Job) (now : ℕ) : Type 0 where
  pub reporter : AgentState
  pub known : agent ≡ some reporter
  pub build : reporter.build_id ≡ some j.release_build_id
  pub time : ℕ
  pub seen : reporter.last_seen_at ≡ some time
  pub recent : IsRecent 120000 now time
  pub later : IsAfter j.baseline_heartbeat_at time

-- The agent runs the build from before the upgrade: it has reported it within two minutes, and since
-- the baseline, which is known.
pub record IsRestored (agent : Option AgentState) (j : Job) (now : ℕ) : Type 0 where
  pub reporter : AgentState
  pub known : agent ≡ some reporter
  pub build : String
  pub baseline_build : j.baseline_build_id ≡ some build
  pub same : reporter.build_id ≡ some build
  pub baseline : ℕ
  pub baseline_time : j.baseline_heartbeat_at ≡ some baseline
  pub time : ℕ
  pub seen : reporter.last_seen_at ≡ some time
  pub recent : IsRecent 120000 now time
  pub later : baseline < time

-- The token is the job's, and the lease runs still.
pub record HoldsLease (j : Job) (token now : ℕ) : Type 0 where
  pub same : token ≡ j.fencing_token
  pub expires : ℕ
  pub lease : j.lease_expires_at ≡ some expires
  pub runs : now ≤ expires

abbrev pub IsPastSwap : JobState → Type 0
IsPastSwap s =
    (s ≡ JobState.restarting) ⊎ ((s ≡ JobState.awaiting_heartbeat) ⊎ (s ≡ JobState.rolling_back))

pub is_post_swap-IsPastSwap : (s : JobState) → (is_post_swap s ≡ true) ↔ IsPastSwap s
is_post_swap-IsPastSwap JobState.restarting = ground arith
is_post_swap-IsPastSwap JobState.awaiting_heartbeat = ground arith
is_post_swap-IsPastSwap JobState.rolling_back = ground arith
is_post_swap-IsPastSwap _ = ground arith

lease_is_valid_iff :
    (lease : Option ℕ) (now : ℕ)
    → (lease_is_valid lease now ≡ true) ↔ ((expires : ℕ) × (lease ≡ some expires) × (now ≤ expires))
lease_is_valid_iff none now = ground arith
lease_is_valid_iff (some e) now = (λ h. (e, refl, leb→le now e h), λ (x, same, h). ground arith)

pub holds_lease-HoldsLease :
    (j : Job) (token now : ℕ) → (holds_lease j token now ≡ true) ↔ HoldsLease j token now
holds_lease-HoldsLease j token now =
    let valid = lease_is_valid_iff j.lease_expires_at now in
    (
      (λ h.
          let (same, runs) = &&-true _ _ h in
          let (expires, lease, left) = valid.0 runs in
          record {
            same = (==_iff token j.fencing_token).0 same;
            expires = expires;
            lease = lease;
            runs = left;
          }),
      (λ l.
          true-&& _ _ ((==_iff token j.fencing_token).1 l.same)
            (valid.1 (l.expires, l.lease, l.runs))),
    )

is_after_baseline-IsAfter :
    (time : ℕ) (baseline : Option ℕ)
    → (is_after_baseline (some time) baseline ≡ true) ↔ IsAfter baseline time
is_after_baseline-IsAfter time none = (λ _. tt, λ _. refl)
is_after_baseline-IsAfter time (some b) = ground arith

heartbeat_confirms-of :
    (agent : Option AgentState) (j : Job) (now : ℕ)
    → Confirms agent j now
    → heartbeat_confirms agent j now ≡ true
unfolding heartbeat_confirms
heartbeat_confirms-of agent j now c =
    let a = c.reporter in
    subst (λ o. heartbeat_confirms o j now ≡ true) (sym c.known)
      (true-&& _ _
        (true-&& _ _ ((same_build_iff a.build_id j.release_build_id).1 c.build)
          ((is_fresh-IsSeen a.last_seen_at now).1 (c.time, c.seen, c.recent)))
        (subst (λ o. is_after_baseline o j.baseline_heartbeat_at ≡ true) (sym c.seen)
          ((is_after_baseline-IsAfter c.time j.baseline_heartbeat_at).1 c.later)))

pub heartbeat_confirms-Confirms :
    (agent : Option AgentState) (j : Job) (now : ℕ)
    → (heartbeat_confirms agent j now ≡ true) ↔ Confirms agent j now
unfolding heartbeat_confirms
heartbeat_confirms-Confirms none j now = (λ h. cc, heartbeat_confirms-of none j now)
heartbeat_confirms-Confirms (some a) j now = (
  (λ h.
      let (first, after) = &&-true _ _ h in
      let (build, fresh) = &&-true _ _ first in
      let (time, seen, recent) = (is_fresh-IsSeen a.last_seen_at now).0 fresh in
      record {
        reporter = a;
        known = refl;
        build = (same_build_iff a.build_id j.release_build_id).0 build;
        time = time;
        seen = seen;
        recent = recent;
        later =
            (is_after_baseline-IsAfter time j.baseline_heartbeat_at).0
              (subst (λ o. is_after_baseline o j.baseline_heartbeat_at ≡ true) seen after);
      }),
  heartbeat_confirms-of (some a) j now,
)

is_after-lt : (time baseline : ℕ) → (is_after (some time) baseline ≡ true) ↔ (baseline < time)
is_after-lt time baseline = ground arith

baseline_verified-of :
    (agent : Option AgentState) (j : Job) (now : ℕ)
    → IsRestored agent j now
    → baseline_verified agent j now ≡ true
unfolding baseline_verified
baseline_verified-of agent j now r =
    let a = r.reporter in
    let test : meets_baseline a (some r.baseline) (some r.build) now ≡ true =
      true-&& _ _
        (true-&& _ _ ((same_build_iff a.build_id r.build).1 r.same)
          ((is_fresh-IsSeen a.last_seen_at now).1 (r.time, r.seen, r.recent)))
        (subst (λ o. is_after o r.baseline ≡ true) (sym r.seen)
          ((is_after-lt r.time r.baseline).1 r.later)) in
    rw (r.known, r.baseline_time, r.baseline_build, baseline_verified) test

meets_baseline-IsRestored :
    (a : AgentState) (j : Job) (now : ℕ) (at : Option ℕ) (build : Option String)
    → j.baseline_heartbeat_at ≡ at
    → j.baseline_build_id ≡ build
    → meets_baseline a at build now ≡ true
    → IsRestored (some a) j now
meets_baseline-IsRestored a j now (some at) (some build) known_at known_build h =
    let (first, after) = &&-true _ _ h in
    let (same, fresh) = &&-true _ _ first in
    let (time, seen, recent) = (is_fresh-IsSeen a.last_seen_at now).0 fresh in
    record {
      reporter = a;
      known = refl;
      build = build;
      baseline_build = known_build;
      same = (same_build_iff a.build_id build).0 same;
      baseline = at;
      baseline_time = known_at;
      time = time;
      seen = seen;
      recent = recent;
      later = (is_after-lt time at).0 (subst (λ o. is_after o at ≡ true) seen after);
    }
meets_baseline-IsRestored a j now none build known_at known_build h = cc
meets_baseline-IsRestored a j now (some at) none known_at known_build h = cc

pub baseline_verified-IsRestored :
    (agent : Option AgentState) (j : Job) (now : ℕ)
    → (baseline_verified agent j now ≡ true) ↔ IsRestored agent j now
unfolding baseline_verified
baseline_verified-IsRestored none j now = (λ h. cc, baseline_verified-of none j now)
baseline_verified-IsRestored (some a) j now = (
  (λ h. meets_baseline-IsRestored a j now j.baseline_heartbeat_at j.baseline_build_id refl refl h),
  baseline_verified-of (some a) j now,
)
