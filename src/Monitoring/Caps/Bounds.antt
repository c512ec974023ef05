-- ===== src/Monitoring/Caps/Bounds.antt =====
-- packages/api/src/persistence/repositories/docker-monitoring.repository.ts: the bounds of
-- DOCKER_MONITORING_CAPS on the sections of the store.
use vps_manager_nodejs.Prelude.{ℕ, ◌≤◌, Bool, List, length, filterb, str_eq, eq_iff}
use vps_manager_nodejs.Monitoring.Records.{Store}
use vps_manager_nodejs.Monitoring.Caps.{
  samples_per_vps, rollups_per_vps, events_per_vps, alerts_per_vps, watermarks_per_vps,
  batches_per_vps, same_owner, same_owner_iff, of_key, enforce_caps,
}
use vps_manager_nodejs.Monitoring.Caps.Newest.{length-truncate}

-- At most `limit` rows of each key.
abbrev pub AtMost {ℓ κ} : {T : Type ℓ} {K : Type κ} → (K → K → Bool) → (T → K) → ℕ → List T → Type κ
AtMost same key limit rows = (k : _) → length (filterb (of_key same key k) rows) ≤ limit

pub record IsCapped {R : Type 0} (s : Store R) : Type 0 where
  pub samples : AtMost str_eq (λ x. x.vps_id) samples_per_vps s.samples
  pub rollups : AtMost str_eq (λ x. x.vps_id) rollups_per_vps s.rollups
  pub events : AtMost str_eq (λ x. x.vps_id) events_per_vps s.events
  pub alerts : AtMost str_eq (λ x. x.vps_id) alerts_per_vps s.alerts
  pub watermarks :
      AtMost same_owner (λ x. (x.vps_id, x.agent_instance_id)) watermarks_per_vps s.watermarks
  pub batches : AtMost same_owner (λ x. (x.vps_id, x.agent_instance_id)) batches_per_vps s.batches

pub enforce_caps-IsCapped : {R : Type 0} (s : Store R) → IsCapped (enforce_caps s)
unfolding enforce_caps
enforce_caps-IsCapped s = record {
  samples = λ k. length-truncate str_eq (λ x. x.vps_id) eq_iff samples_per_vps k s.samples;
  rollups = λ k. length-truncate str_eq (λ x. x.vps_id) eq_iff rollups_per_vps k s.rollups;
  events = λ k. length-truncate str_eq (λ x. x.vps_id) eq_iff events_per_vps k s.events;
  alerts = λ k. length-truncate str_eq (λ x. x.vps_id) eq_iff alerts_per_vps k s.alerts;
  watermarks = λ k.
      length-truncate same_owner (λ x. (x.vps_id, x.agent_instance_id)) same_owner_iff
        watermarks_per_vps k s.watermarks;
  batches = λ k.
      length-truncate same_owner (λ x. (x.vps_id, x.agent_instance_id)) same_owner_iff
        batches_per_vps k s.batches;
}
