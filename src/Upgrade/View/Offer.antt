-- ===== src/Upgrade/View/Offer.antt =====
-- packages/api/src/local-upgrade/local-upgrade.service.ts: what `getAgentUpdate` offers is what
-- `createJob` accepts, on the stable channel.
use vps_manager_nodejs.Prelude.{
  ℕ, ◌≡◌, refl, ◌↔◌, ◌⊎◌, inl, inr, String, Bool, false, ◌==◌, List, [], ◌∷◌, Option, none, some,
  length, filterb, find, arith, ◌≢◌, sym, ap, subst, true, str_eq, eq_iff, eq_refl, err, ok-eq,
  err-ok, Bool-cases, Option-cases, ok,
}
use vps_manager_nodejs.Upgrade.Job.{UpdaterHeartbeat}
use vps_manager_nodejs.Upgrade.Store.{AgentState}
use vps_manager_nodejs.Upgrade.Catalog.{
  Artifact, Catalog, Manifest, CatalogResult, found, Release, to_entry, get_compatible_release,
  get_release_by_id,
}
use vps_manager_nodejs.Upgrade.Creation.{
  supports_api, runs, arch_by_kernel, fresh_build, is_artifact_for, Target, eligible,
}
use vps_manager_nodejs.Upgrade.Eligible.{Compatible, eligible-Compatible, Compatible-eligible}
use vps_manager_nodejs.Upgrade.View.{available, state_of_build, update_state}

length-find :
    (p : Artifact → Bool) (xs : List Artifact)
    → ((find p xs ≡ none) × (length (filterb p xs) ≡ 0))
      ⊎ ((a : Artifact) × (find p xs ≡ some a) × ((length (filterb p xs) == 0) ≡ false))
length-find p [] = inl (refl, refl)
length-find p (x ∷ xs) = elim (Bool-cases (p x)) [
  | inl hit ↦ rw hit (inr (x, refl, ground arith))
  | inr miss ↦ rw miss (length-find p xs)
]

or_release : Release → CatalogResult → Release
or_release r (found other) = other
or_release r _ = r

found-eq : {r s : Release} → found r ≡ found s → r ≡ s
unfolding or_release
found-eq {r} e = ap (or_release r) e

module _ (heartbeat : Option UpdaterHeartbeat) (agent : Option AgentState) (kernel : String)
    (m : Manifest) (now : ℕ) where
  -- The lookup by the manifest's own id and the one on its own channel find the same release.
  same_release :
      (arch : String) (r : Release)
      → get_release_by_id (ok m) m.release_id "linux" arch ≡ found r
      → r ≡ to_entry m "linux" arch
  unfolding get_release_by_id
  same_release arch r e =
      let same = eq_refl m.release_id in
      let step = rw (same, get_release_by_id) at e in found-eq (sym step)

  Compatible-available :
      (t : Target)
      → m.channel ≡ "stable"
      → Compatible heartbeat agent kernel (ok m) m.release_id now t
      → update_state heartbeat agent kernel (ok m) now ≡ available
  unfolding update_state get_compatible_release
  Compatible-available t channel c =
      let stable : str_eq m.channel "stable" ≡ true = (eq_iff m.channel "stable").1 channel in
      let entry = same_release c.arch t.release c.signed in
      let contract = subst (λ r. supports_api r ≡ true) entry c.contract in
      let newer = subst (λ r. runs t.build r ≡ false) entry c.newer in
      let artifact =
        subst (λ r. find (is_artifact_for c.arch) r.artifacts ≡ some t.artifact) entry c.artifact in
      elim (length-find (is_artifact_for c.arch) (to_entry m "linux" c.arch).artifacts) [
        | inl (missing, _) ↦ cc
        | inr (a, _, some_left) ↦
            rw
              (
                c.supported, stable, c.reported, newer, contract, some_left, c.healthy,
                get_compatible_release, update_state,
              )
              refl
      ]

  built-Compatible :
      (arch : String) (build : String)
      → arch_by_kernel kernel ≡ some arch
      → fresh_build agent now ≡ some build
      → state_of_build (some build) heartbeat arch (to_entry m "linux" arch) now ≡ available
      → (t : Target) × Compatible heartbeat agent kernel (ok m) m.release_id now t
  unfolding get_release_by_id
  built-Compatible arch build supported reported shown =
      let same = eq_refl m.release_id in
      elim (length-find (is_artifact_for arch) (to_entry m "linux" arch).artifacts) [
        | inl (_, empty) ↦ absurd (ground arith)
        | inr (a, there, _) ↦ (
          record { build = build; release = to_entry m "linux" arch; artifact = a },
          record {
            healthy = ground arith;
            reported = reported;
            arch = arch;
            supported = supported;
            signed = rw (same, get_release_by_id) refl;
            contract = ground arith;
            artifact = there;
            newer = ground arith;
          },
        )
      ]

  released-Compatible :
      (arch : String) (build : Option String)
      → arch_by_kernel kernel ≡ some arch
      → fresh_build agent now ≡ build
      → state_of_build build heartbeat arch (to_entry m "linux" arch) now ≡ available
      → (t : Target) × Compatible heartbeat agent kernel (ok m) m.release_id now t
  released-Compatible arch none supported reported shown = cc
  released-Compatible arch (some build) supported reported shown =
      built-Compatible arch build supported reported shown

  available-Compatible :
      update_state heartbeat agent kernel (ok m) now ≡ available
      → (m.channel ≡ "stable")
        × ((t : Target) × Compatible heartbeat agent kernel (ok m) m.release_id now t)
  unfolding update_state get_compatible_release
  available-Compatible shown = elim (Option-cases (arch_by_kernel kernel)) [
    | inl strange ↦ let bad = rw (strange, update_state) at shown in cc
    | inr (arch, supported) ↦ elim (Bool-cases (str_eq m.channel "stable")) [
      | inr other ↦
          let bad = rw (supported, other, get_compatible_release, update_state) at shown in cc
      | inl stable ↦ (
        (eq_iff m.channel "stable").0 stable,
        released-Compatible arch (fresh_build agent now) supported refl
            (rw (supported, stable, get_compatible_release, update_state) at shown),
      )
    ]
  ]

unresolved :
    (heartbeat : Option UpdaterHeartbeat) (agent : Option AgentState) (kernel reason : String)
    (now : ℕ)
    → update_state heartbeat agent kernel (err reason) now ≢ available
unfolding update_state get_compatible_release
unresolved heartbeat agent kernel reason now shown = elim (Option-cases (arch_by_kernel kernel)) [
  | inl strange ↦ let bad = rw (strange, update_state) at shown in cc
  | inr (arch, supported) ↦
      let bad = rw (supported, get_compatible_release, update_state) at shown in cc
]

-- The update is shown as available exactly when, on the same readings of the heartbeats, the agent and
-- the manifest that the catalog has resolved, that manifest is of the stable channel and `createJob`
-- finds a target for its release.
pub available_iff_eligible :
    (heartbeat : Option UpdaterHeartbeat) (agent : Option AgentState) (kernel : String)
    (catalog : Catalog) (now : ℕ)
    → (update_state heartbeat agent kernel catalog now ≡ available) ↔ (
        (m : Manifest) × (catalog ≡ ok m)
        × (m.channel ≡ "stable")
        × ((t : Target) × (eligible heartbeat agent kernel catalog m.release_id now ≡ ok t)))
available_iff_eligible heartbeat agent kernel (err reason) now = (
  (λ shown. absurd (unresolved heartbeat agent kernel reason now shown)),
  (λ (m, resolved, _, _). err-ok resolved),
)
available_iff_eligible heartbeat agent kernel (ok m) now = (
  (λ shown.
      let (channel, (t, c)) = available-Compatible heartbeat agent kernel m now shown in
      (
        m,
        refl,
        channel,
        (t, Compatible-eligible heartbeat agent kernel (ok m) m.release_id now t c),
      )),
  (λ (m', resolved, channel, (t, e)).
      let same : m ≡ m' = ok-eq resolved in
      Compatible-available heartbeat agent kernel m now t
        (subst (λ k. k.channel ≡ "stable") (sym same) channel)
        (eligible-Compatible heartbeat agent kernel (ok m) m.release_id now t (
          subst (λ k. eligible heartbeat agent kernel (ok m) k.release_id now ≡ ok t) (sym same)
            e))),
)
