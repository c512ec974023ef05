-- ===== src/Upgrade/QuietTests.antt =====
-- Runs of packages/api/src/local-upgrade/local-upgrade.service.ts where no other request writes.
use vps_manager_nodejs.Prelude.{◌≡◌, refl, ◌↔◌, [], ◌∷◌, none, some, ok, arith}
use vps_manager_nodejs.Upgrade.Job.{Job, JobState, UpgradeOutcome, UpdaterHeartbeat}
use vps_manager_nodejs.Upgrade.Store.{World, AgentState, get, patched}
use vps_manager_nodejs.Upgrade.Service.{Clock, require_job, heartbeat_confirms}
use vps_manager_nodejs.Upgrade.Progress.{progress_patch, progress}
use vps_manager_nodejs.Upgrade.Verdict.{
  ResultInput, Verdict, settle_succeeded, plain, report_result,
}
use vps_manager_nodejs.Upgrade.Catalog.{Catalog, Manifest}
use vps_manager_nodejs.Upgrade.Creation.{Target, eligible}
use vps_manager_nodejs.Upgrade.View.{available, update_state}
use vps_manager_nodejs.Upgrade.View.Offer.{available_iff_eligible}
use vps_manager_nodejs.Upgrade.Quiet.{quiet, progress-accepts, report_result-settles}
use vps_manager_nodejs.Upgrade.Forgotten.{back_to_download, failure, swap_forgotten}

-- A job past the swap, under the fencing token 2 and a lease until 5000.
abbrev swapped : Job
swapped = record {
  id = "j1";
  vps_id = "v1";
  state = JobState.restarting;
  progress = some 60;
  release_id = "r1";
  release_version = "1.2.0";
  release_build_id = "b2";
  target_sha256 = "aa";
  target_url = "https://example.test/agent";
  target_size_bytes = none;
  manifest_raw = "{}";
  baseline_build_id = some "b1";
  baseline_heartbeat_at = some 1000;
  actor = "dashboard";
  idempotency_key = none;
  message = none;
  fencing_token = 2;
  reclaim_count = 0;
  claimed_at = some 900;
  lease_expires_at = some 5000;
  deadline_at = 100000;
  phase_deadline_at = some 8000;
  error = none;
  result = none;
  revision = 4;
  created_at = 800;
  updated_at = 900;
  completed_at = none;
}

abbrev agent : AgentState
agent = record { build_id = some "b2"; last_seen_at = some 3500 }

abbrev world : World
world = record { jobs = swapped ∷ []; heartbeats = []; agents = λ v. some agent; audits = [] }

abbrev at_4000 : Clock
at_4000 = record { now_ms = 4000; check_ms = 4000; stamp_ms = 4001 }

abbrev at_6000 : Clock
at_6000 = record { now_ms = 6000; check_ms = 6000; stamp_ms = 6001 }

swapped_found : require_job "v1" "j1" world ≡ ok swapped
unfolding require_job get
swapped_found = refl

progress-accepts_example :
    (progress quiet at_4000 "v1" "c1" "j1" (back_to_download 2) world).1
    ≡ ok (patched (progress_patch (back_to_download 2) (some agent) 4000) 4001 swapped)
progress-accepts_example =
    progress-accepts at_4000 "v1" "j1" (back_to_download 2) "c1" world swapped swapped_found refl
      refl

abbrev success : ResultInput
success = record {
  fencing_token = 2;
  outcome = UpgradeOutcome.succeeded;
  reported_build_id = some "b2";
  reason = none;
}

report_result-settles_example :
    (report_result quiet at_4000 "v1" "c1" "j1" success world).1
    ≡ ok (plain (patched (settle_succeeded (some "b2") (some "b2") 4000) 4001 swapped))
unfolding heartbeat_confirms
report_result-settles_example =
    report_result-settles at_4000 "v1" "j1" success "c1" world swapped swapped_found refl refl refl

swap_forgotten_example :
    (verdict : Verdict) × ((report_result quiet at_6000 "v1" "c1" "j1"
        (failure 2)
        (progress quiet at_4000 "v1" "c1" "j1" (back_to_download 2) world).0).1
      ≡ ok verdict)
    × (verdict.job.state ≡ JobState.failed)
swap_forgotten_example =
    swap_forgotten at_4000 at_6000 "v1" "c1" "j1" 2 world swapped (refl, tt) swapped_found refl refl
      (omega arith)

abbrev heartbeat : UpdaterHeartbeat
heartbeat = record { vps_id = "v1"; last_seen_at = 3000; credential_id = some "c1" }

abbrev manifest : Manifest
manifest = record {
  release_id = "r3";
  version = "1.3.0";
  build_id = "b3";
  channel = "stable";
  api_min = 1;
  api_max = 2;
  artifacts =
      record {
        component = none;
        entry = record {
          os = "linux";
          arch = "arm64";
          size = 10;
          sha256 = "aa";
          url = "https://example.test/a";
        };
      }
      ∷ [];
  text = "{}";
}

available_iff_eligible_example :
    (update_state (some heartbeat) (some agent) "aarch64" (ok manifest) 4000 ≡ available) ↔ (
      (m : Manifest) × (◌≡◌ {A = Catalog} (ok manifest) (ok m))
      × (m.channel ≡ "stable")
      × ((t : Target) × (eligible
              (some heartbeat)
              (some agent)
              "aarch64"
              (ok manifest)
              m.release_id
              4000
            ≡ ok t)))
available_iff_eligible_example =
    available_iff_eligible (some heartbeat) (some agent) "aarch64" (ok manifest) 4000
