-- ===== src/Monitoring/Caps.antt =====
-- packages/api/src/persistence/repositories/docker-monitoring.repository.ts: `truncatePerVps` and
-- `enforceCaps`, which bound the sections of the store. A truncation counts by a key of the rows; the
-- watermarks and the batches have the pair of server and agent instance as their key.
pub mod Newest
pub mod Bounds
use vps_manager_nodejs.Prelude.{
  ℕ, suc, ◌-◌, ◌≤◌, String, Bool, true, false, ◌&&◌, List, [], ◌∷◌, Option, ◌≡◌, refl, sym, ap, ◌∙◌,
  ◌↔◌, inl, inr, arith, length, take, take_last, filterb, reverse, reverse-reverse,
  reverse-take-reverse, filterb-reverse, length-take_last, leb, if◌then◌else◌, Bool-cases, str_eq,
  eq_iff, eq_refl, &&-true, true-&&,
}
use vps_manager_nodejs.Monitoring.Records.{Sample, Rollup, Event, Watermark, Batch, Alert, Store}

-- DOCKER_MONITORING_CAPS
abbrev pub samples_per_vps : ℕ
samples_per_vps = 5000

abbrev pub rollups_per_vps : ℕ
rollups_per_vps = 2000

abbrev pub events_per_vps : ℕ
events_per_vps = 10000

abbrev pub alerts_per_vps : ℕ
alerts_per_vps = 1000

abbrev pub watermarks_per_vps : ℕ
watermarks_per_vps = 50

abbrev pub batches_per_vps : ℕ
batches_per_vps = 100

-- The key `${vpsId}\0${agentInstanceId}`.
abbrev pub Owner : Type 0
Owner = String × String

abbrev pub same_owner : Owner → Owner → Bool
same_owner (vps_id, instance) (other_vps, other_instance) =
    str_eq vps_id other_vps && str_eq instance other_instance

pub same_owner_iff : (a b : Owner) → (same_owner a b ≡ true) ↔ (a ≡ b)
same_owner_iff (v, i) (w, j) = (
  λ same.
      let (servers, instances) = &&-true (str_eq v w) (str_eq i j) same in
      ap (λ x. (x, i)) ((eq_iff v w).0 servers) ∙ ap (λ x. (w, x)) ((eq_iff i j).0 instances),
  λ e.
      true-&& (str_eq v w) (str_eq i j) ((eq_iff v w).1 (ap (λ o. o.0) e))
        ((eq_iff i j).1 (ap (λ o. o.1) e)),
)

module _ {ℓ κ} {T : Type ℓ} {K : Type κ} (same : K → K → Bool) (key : T → K) where
  -- `row` is one of the rows that `k` counts.
  abbrev pub of_key : K → T → Bool
  of_key k row = same (key row) k

  -- `counts.set(k, used + 1)`
  abbrev pub counted : K → (K → ℕ) → K → ℕ
  counted k used other = if same k other then suc (used k) else used other

  -- The loop of `truncatePerVps` over the rows from the last to the first.
  pub keep_newest : ℕ → (K → ℕ) → List T → List T
  keep_newest limit used [] = []
  keep_newest limit used (row ∷ rows) = elim (leb limit (used (key row))) [
    | true ↦ keep_newest limit used rows
    | false ↦ row ∷ keep_newest limit (counted (key row) used) rows
  ]

  -- truncatePerVps
  unfoldable pub truncate_per_key : ℕ → List T → List T
  unfolding keep_newest
  truncate_per_key limit rows = reverse (keep_newest limit (λ k. 0) (reverse rows))

-- enforceCaps. It leaves the snapshots as they are.
unfoldable pub enforce_caps : {R : Type 0} → Store R → Store R
unfolding truncate_per_key
enforce_caps s = record s {
  samples = truncate_per_key str_eq (λ x. x.vps_id) samples_per_vps s.samples;
  rollups = truncate_per_key str_eq (λ x. x.vps_id) rollups_per_vps s.rollups;
  events = truncate_per_key str_eq (λ x. x.vps_id) events_per_vps s.events;
  alerts = truncate_per_key str_eq (λ x. x.vps_id) alerts_per_vps s.alerts;
  watermarks =
      truncate_per_key same_owner (λ x. (x.vps_id, x.agent_instance_id)) watermarks_per_vps
        s.watermarks;
  batches =
      truncate_per_key same_owner (λ x. (x.vps_id, x.agent_instance_id)) batches_per_vps s.batches;
}
