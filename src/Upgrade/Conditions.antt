-- ===== src/Upgrade/Conditions.antt =====
-- packages/api/src/local-upgrade/local-upgrade.service.ts: the conditions of `createJob` one by one,
-- and the tests that decide them.
use vps_manager_nodejs.Prelude.{
  ℕ, ◌≤◌, ◌≡◌, ◌≢◌, refl, sym, ◌⊎◌, inl, inr, ◌↔◌, String, Bool, true, false, ◌&&◌, ◌||◌, List, [],
  ◌∷◌, Option, none, some, find, arith, eq_iff, str_eq, Bool-cases, subst, some-eq,
}
use vps_manager_nodejs.Upgrade.Job.{UpdaterHeartbeat}
use vps_manager_nodejs.Upgrade.Store.{AgentState}
use vps_manager_nodejs.Upgrade.Service.{is_fresh}
use vps_manager_nodejs.Upgrade.Meanings.{IsRecent, IsSeen, is_fresh_timestamp_iff, is_fresh-IsSeen}
use vps_manager_nodejs.Upgrade.Catalog.{Artifact, ManifestArtifact, is_agent, served, Release}
use vps_manager_nodejs.Upgrade.Creation.{
  arch_by_kernel, updater_is_healthy, fresh_build, named_build, supports_api, is_artifact_for, runs,
}

-- The updater has reported within the last five minutes.
abbrev pub IsHealthy : Option UpdaterHeartbeat → ℕ → Type 0
IsHealthy heartbeat now =
    (h : UpdaterHeartbeat) × (heartbeat ≡ some h) × IsRecent 300000 now h.last_seen_at

-- The agent has reported the build within the last two minutes.
abbrev pub Reports : Option AgentState → ℕ → String → Type 0
Reports agent now build =
    (a : AgentState) × (agent ≡ some a)
    × (a.build_id ≡ some build)
    × (build ≢ "")
    × IsSeen now a.last_seen_at

-- The release architecture of a kernel.
abbrev pub RunsOn : String → String → Type 0
RunsOn kernel arch =
    (((kernel ≡ "x86_64") ⊎ (kernel ≡ "amd64")) × (arch ≡ "amd64"))
    ⊎ (((kernel ≡ "aarch64") ⊎ (kernel ≡ "arm64")) × (arch ≡ "arm64"))

-- An agent's binary for Linux on the architecture; an artifact that names no component is one.
abbrev pub IsFor : String → ManifestArtifact → Type 0
IsFor arch x =
    ((x.component ≡ none) ⊎ (x.component ≡ some "agent"))
    × (x.entry.os ≡ "linux")
    × (x.entry.arch ≡ arch)

-- The first artifact of the manifest for the architecture.
pub data IsFirstFor (arch : String) (a : Artifact) : List ManifestArtifact → Type 0 where
  here :
      {x : ManifestArtifact} {artifacts : List ManifestArtifact}
      → IsFor arch x
      → a ≡ x.entry
      → IsFirstFor arch a (x ∷ artifacts)
  there :
      {x : ManifestArtifact} {artifacts : List ManifestArtifact}
      → ¬ (IsFor arch x)
      → IsFirstFor arch a artifacts
      → IsFirstFor arch a (x ∷ artifacts)

pub updater_is_healthy-IsHealthy :
    (heartbeat : Option UpdaterHeartbeat) (now : ℕ)
    → (updater_is_healthy heartbeat now ≡ true) ↔ IsHealthy heartbeat now
updater_is_healthy-IsHealthy none now = ground arith
updater_is_healthy-IsHealthy (some h) now = (
  (λ e. (h, refl, (is_fresh_timestamp_iff h.last_seen_at 300000 now).0 e)),
  (λ (k, same, recent).
      (is_fresh_timestamp_iff h.last_seen_at 300000 now).1
        (subst (λ x. IsRecent 300000 now x.last_seen_at) (sym (some-eq same)) recent)),
)

named_build_iff :
    (seen : Option String) (fresh : Bool) (build : String)
    → (named_build seen fresh ≡ some build) ↔ ((seen ≡ some build) × (build ≢ "") × (fresh ≡ true))
named_build_iff none fresh build = ground arith
named_build_iff (some b) fresh build =
    ground (arith, Bool-cases fresh, eq_iff b "", eq_iff build "")

pub RunsOn-arch : (kernel arch : String) → RunsOn kernel arch → arch_by_kernel kernel ≡ some arch
RunsOn-arch kernel arch (inl (inl k, a)) = rw (k, a) refl
RunsOn-arch kernel arch (inl (inr k, a)) = rw (k, a) refl
RunsOn-arch kernel arch (inr (inl k, a)) = rw (k, a) refl
RunsOn-arch kernel arch (inr (inr k, a)) = rw (k, a) refl

pub arch-RunsOn : (kernel arch : String) → arch_by_kernel kernel ≡ some arch → RunsOn kernel arch
arch-RunsOn kernel arch e = elim (Bool-cases (str_eq kernel "x86_64" || str_eq kernel "amd64")) [
  | inl amd ↦
      let step : ◌≡◌ {A = Option String} (some "amd64") (some arch) = rw amd at e in
      inl (ground (arith, eq_iff kernel "x86_64", eq_iff kernel "amd64"), sym (some-eq step))
  | inr not_amd ↦ elim (Bool-cases (str_eq kernel "aarch64" || str_eq kernel "arm64")) [
    | inl arm ↦
        let step : ◌≡◌ {A = Option String} (some "arm64") (some arch) = rw (not_amd, arm) at e in
        inr (ground (arith, eq_iff kernel "aarch64", eq_iff kernel "arm64"), sym (some-eq step))
    | inr strange ↦ let bad = rw (not_amd, strange) at e in cc
  ]
]

is_agent_iff :
    (component : Option String)
    → (is_agent component ≡ true) ↔ ((component ≡ none) ⊎ (component ≡ some "agent"))
is_agent_iff none = ground arith
is_agent_iff (some c) = ground (arith, eq_iff c "agent")

abbrev is_served : String → ManifestArtifact → Bool
is_served arch x = is_agent x.component && str_eq x.entry.os "linux" && str_eq x.entry.arch arch

is_served-IsFor : (arch : String) (x : ManifestArtifact) → (is_served arch x ≡ true) ↔ IsFor arch x
is_served-IsFor arch x =
    ground (arith, is_agent_iff x.component, eq_iff x.entry.os "linux", eq_iff x.entry.arch arch)

pub served-IsFirstFor :
    (arch : String) (a : Artifact) (artifacts : List ManifestArtifact)
    → find (is_artifact_for arch) (served "linux" arch artifacts) ≡ some a
    → IsFirstFor arch a artifacts
served-IsFirstFor arch a [] e = cc
served-IsFirstFor arch a (x ∷ artifacts) e = elim (Bool-cases (is_served arch x)) [
  | inl hit ↦
      let fits = (is_served-IsFor arch x).0 hit in
      let kept : is_artifact_for arch x.entry ≡ true =
        ground (arith, eq_iff x.entry.os "linux", eq_iff x.entry.arch arch) in
      let step : ◌≡◌ {A = Option Artifact} (some x.entry) (some a) = rw (hit, kept) at e in
      here fits (sym (some-eq step))
  | inr miss ↦
      there (λ fits. let hit = (is_served-IsFor arch x).1 fits in cc)
        (served-IsFirstFor arch a artifacts (rw miss at e))
]

pub IsFirstFor-served :
    (arch : String) (a : Artifact) (artifacts : List ManifestArtifact)
    → IsFirstFor arch a artifacts
    → find (is_artifact_for arch) (served "linux" arch artifacts) ≡ some a
IsFirstFor-served arch a [] first = elim first [ ]
IsFirstFor-served arch a (x ∷ artifacts) (here fits same) =
    let hit = (is_served-IsFor arch x).1 fits in
    let kept : is_artifact_for arch x.entry ≡ true =
      ground (arith, eq_iff x.entry.os "linux", eq_iff x.entry.arch arch) in
    rw (hit, kept, same) refl
IsFirstFor-served arch a (x ∷ artifacts) (there other rest) = elim (Bool-cases (is_served arch x)) [
  | inl hit ↦ absurd (other ((is_served-IsFor arch x).0 hit))
  | inr miss ↦ rw miss (IsFirstFor-served arch a artifacts rest)
]

pub supports_iff : (r : Release) → (supports_api r ≡ true) ↔ ((r.api_min ≤ 2) × (2 ≤ r.api_max))
supports_iff r = ground arith

pub runs_iff :
    (build : String) (r : Release)
    → (runs build r ≡ false) ↔ ((build ≢ r.release_id) × (build ≢ r.build_id))
runs_iff build r = ground (arith, eq_iff build r.release_id, eq_iff build r.build_id)

pub reported_iff :
    (agent : Option AgentState) (now : ℕ) (build : String)
    → (fresh_build agent now ≡ some build) ↔ Reports agent now build
reported_iff none now build = ground arith
reported_iff (some a) now build =
    let named = named_build_iff a.build_id (is_fresh a.last_seen_at now) build in
    let seen = is_fresh-IsSeen a.last_seen_at now in
    (
      (λ e. let (b, filled, fresh) = named.0 e in (a, refl, b, filled, seen.0 fresh)),
      (λ (k, same, b, filled, recent).
          let k_a : k ≡ a = sym (some-eq same) in
          named.1 (
            subst (λ x. x.build_id ≡ some build) k_a b,
            filled,
            seen.1 (subst (λ x. IsSeen now x.last_seen_at) k_a recent),
          )),
    )
