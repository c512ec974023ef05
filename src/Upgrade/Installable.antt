-- ===== src/Upgrade/Installable.antt =====
-- packages/api/src/local-upgrade/local-upgrade.service.ts: the conditions under which `createJob` makes
-- a job, written out.
use vps_manager_nodejs.Prelude.{
  ℕ, ◌≤◌, ◌≡◌, ◌≢◌, refl, sym, ap, inl, inr, ◌↔◌, String, true, false, Option, some, find, eq_iff,
  str_eq, Bool-cases, ok, err, subst,
}
use vps_manager_nodejs.Upgrade.Job.{UpdaterHeartbeat}
use vps_manager_nodejs.Upgrade.Store.{AgentState}
use vps_manager_nodejs.Upgrade.Catalog.{
  Catalog, Manifest, Release, CatalogResult, found, to_entry, get_release_by_id,
}
use vps_manager_nodejs.Upgrade.Creation.{supports_api, is_artifact_for, runs, Target, eligible}
use vps_manager_nodejs.Upgrade.Conditions.{
  IsHealthy, Reports, RunsOn, IsFirstFor, updater_is_healthy-IsHealthy, RunsOn-arch, arch-RunsOn,
  served-IsFirstFor, IsFirstFor-served, supports_iff, runs_iff, reported_iff,
}
use vps_manager_nodejs.Upgrade.Eligible.{eligible-Compatible, Compatible-eligible}

-- What `createJob` asks of a job's target, for the release that was requested.
pub record IsInstallable (heartbeat : Option UpdaterHeartbeat) (agent : Option AgentState)
    (kernel : String) (catalog : Catalog) (release_id : String) (now : ℕ) (t : Target)
    : Type 0 where
  pub healthy : IsHealthy heartbeat now
  pub reported : Reports agent now t.build
  pub manifest : Manifest
  pub resolved : catalog ≡ ok manifest
  pub requested : manifest.release_id ≡ release_id
  pub arch : String
  pub supported : RunsOn kernel arch
  pub entry : t.release ≡ to_entry manifest "linux" arch
  pub contract : (manifest.api_min ≤ 2) × (2 ≤ manifest.api_max)
  pub artifact : IsFirstFor arch t.artifact manifest.artifacts
  pub newer : (t.build ≢ manifest.release_id) × (t.build ≢ manifest.build_id)

or_release : Release → CatalogResult → Release
or_release r (found other) = other
or_release r _ = r

requested-entry :
    (catalog : Catalog) (release_id arch : String) (r : Release)
    → get_release_by_id catalog release_id "linux" arch ≡ found r
    → (m : Manifest) × (catalog ≡ ok m)
      × (m.release_id ≡ release_id)
      × (r ≡ to_entry m "linux" arch)
unfolding get_release_by_id or_release
requested-entry (err reason) release_id arch r e = cc
requested-entry (ok m) release_id arch r e = elim (Bool-cases (str_eq m.release_id release_id)) [
  | inr other ↦ let bad = rw (other, get_release_by_id) at e in cc
  | inl same ↦
      let step : found (to_entry m "linux" arch) ≡ found r = rw (same, get_release_by_id) at e in
      (m, refl, (eq_iff m.release_id release_id).0 same, sym (ap (or_release r) step))
]

entry-requested :
    (catalog : Catalog) (release_id arch : String) (r : Release) (m : Manifest)
    → catalog ≡ ok m
    → m.release_id ≡ release_id
    → r ≡ to_entry m "linux" arch
    → get_release_by_id catalog release_id "linux" arch ≡ found r
unfolding get_release_by_id
entry-requested catalog release_id arch r m resolved requested entry =
    let same = (eq_iff m.release_id release_id).1 requested in
    rw (resolved, same, entry, get_release_by_id) refl

-- `createJob` finds a target exactly where its conditions hold: the updater has reported within five
-- minutes, the agent has reported the target's build within two, the catalog has resolved a manifest
-- with the requested id, the target has that release and its first artifact for Linux on the kernel's
-- architecture, the release supports version 2 of the API contract, and the agent runs another build.
pub eligible_iff :
    (heartbeat : Option UpdaterHeartbeat) (agent : Option AgentState) (kernel : String)
    (catalog : Catalog) (release_id : String) (now : ℕ) (t : Target)
    → (eligible heartbeat agent kernel catalog release_id now ≡ ok t)
      ↔ IsInstallable heartbeat agent kernel catalog release_id now t
eligible_iff heartbeat agent kernel catalog release_id now t = (
  (λ e.
      let c = eligible-Compatible heartbeat agent kernel catalog release_id now t e in
      let (m, resolved, requested, entry) =
        requested-entry catalog release_id c.arch t.release c.signed in
      record {
        healthy = (updater_is_healthy-IsHealthy heartbeat now).0 c.healthy;
        reported = (reported_iff agent now t.build).0 c.reported;
        manifest = m;
        resolved = resolved;
        requested = requested;
        arch = c.arch;
        supported = arch-RunsOn kernel c.arch c.supported;
        entry = entry;
        contract =
            (supports_iff (to_entry m "linux" c.arch)).0
              (subst (λ r. supports_api r ≡ true) entry c.contract);
        artifact = served-IsFirstFor c.arch t.artifact m.artifacts (
            subst (λ r. find (is_artifact_for c.arch) r.artifacts ≡ some t.artifact) entry
              c.artifact);
        newer =
            (runs_iff t.build (to_entry m "linux" c.arch)).0
              (subst (λ r. runs t.build r ≡ false) entry c.newer);
      }),
  (λ i. Compatible-eligible heartbeat agent kernel catalog release_id now t (record {
    healthy = (updater_is_healthy-IsHealthy heartbeat now).1 i.healthy;
    reported = (reported_iff agent now t.build).1 i.reported;
    arch = i.arch;
    supported = RunsOn-arch kernel i.arch i.supported;
    signed =
        entry-requested catalog release_id i.arch t.release i.manifest i.resolved i.requested
          i.entry;
    contract =
        subst (λ r. supports_api r ≡ true) (sym i.entry)
          ((supports_iff (to_entry i.manifest "linux" i.arch)).1 i.contract);
    artifact =
        subst (λ r. find (is_artifact_for i.arch) r.artifacts ≡ some t.artifact) (sym i.entry)
          (IsFirstFor-served i.arch t.artifact i.manifest.artifacts i.artifact);
    newer =
        subst (λ r. runs t.build r ≡ false) (sym i.entry)
          ((runs_iff t.build (to_entry i.manifest "linux" i.arch)).1 i.newer);
  })),
)
