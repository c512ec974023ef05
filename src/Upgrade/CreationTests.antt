-- ===== src/Upgrade/CreationTests.antt =====
-- Runs of `createJob` of packages/api/src/local-upgrade/local-upgrade.service.ts on a concrete store.
use vps_manager_nodejs.Prelude.{◌≡◌, ◌↔◌, refl, inr, true, false, [], ◌∷◌, some, ok, arith}
use vps_manager_nodejs.Upgrade.Job.{UpdaterHeartbeat}
use vps_manager_nodejs.Upgrade.Store.{World, AgentState}
use vps_manager_nodejs.Upgrade.Limits.{OneActive, KeyedOnce}
use vps_manager_nodejs.Upgrade.Service.{Clock, Others}
use vps_manager_nodejs.Upgrade.Catalog.{Artifact, Catalog, Manifest, to_entry, get_release_by_id}
use vps_manager_nodejs.Upgrade.Creation.{Target, eligible, create_job}
use vps_manager_nodejs.Upgrade.Installable.{IsInstallable, eligible_iff}
use vps_manager_nodejs.Upgrade.Eligible.{KeepsLimits, create_job-KeepsLimits}

abbrev heartbeat : UpdaterHeartbeat
heartbeat = record { vps_id = "v1"; last_seen_at = 3000; credential_id = some "c1" }

abbrev agent : AgentState
agent = record { build_id = some "b1"; last_seen_at = some 3500 }

abbrev artifact : Artifact
artifact = record {
  os = "linux";
  arch = "amd64";
  size = 10;
  sha256 = "aa";
  url = "https://example.test/a";
}

abbrev manifest : Manifest
manifest = record {
  release_id = "r2";
  version = "1.2.0";
  build_id = "b2";
  channel = "stable";
  api_min = 1;
  api_max = 2;
  artifacts = record { component = some "agent"; entry = artifact } ∷ [];
  text = "{}";
}

abbrev catalog : Catalog
catalog = ok manifest

abbrev target : Target
target = record { build = "b1"; release = to_entry manifest "linux" "amd64"; artifact = artifact }

target-eligible : eligible (some heartbeat) (some agent) "x86_64" catalog "r2" 4000 ≡ ok target
unfolding eligible get_release_by_id
target-eligible = refl

eligible_iff_example :
    (eligible (some heartbeat) (some agent) "x86_64" catalog "r2" 4000 ≡ ok target)
    ↔ IsInstallable (some heartbeat) (some agent) "x86_64" catalog "r2" 4000 target
eligible_iff_example = eligible_iff (some heartbeat) (some agent) "x86_64" catalog "r2" 4000 target

abbrev empty_world : World
empty_world = record {
  jobs = [];
  heartbeats = heartbeat ∷ [];
  agents = λ v. some agent;
  audits = [];
}

abbrev idle : Others
idle n w = w

idle-KeepsLimits : KeepsLimits idle
idle-KeepsLimits n w one once = (one, once)

abbrev at_4000 : Clock
at_4000 = record { now_ms = 4000; check_ms = 4000; stamp_ms = 4001 }

empty-OneActive : OneActive empty_world
empty-OneActive vps_id = omega arith

empty-KeyedOnce : KeyedOnce empty_world
empty-KeyedOnce vps_id key = inr (omega arith)

create_job-KeepsLimits_example :
    OneActive
      (create_job false
        (some true)
        idle
        at_4000
        "x86_64"
        catalog
        "r2"
        "j1"
        "v1"
        (some "k1")
        "admin"
        empty_world).0
    × KeyedOnce
        (create_job false
          (some true)
          idle
          at_4000
          "x86_64"
          catalog
          "r2"
          "j1"
          "v1"
          (some "k1")
          "admin"
          empty_world).0
create_job-KeepsLimits_example =
    create_job-KeepsLimits idle idle-KeepsLimits false (some true) at_4000 "x86_64" catalog "r2"
      "j1" "v1" (some "k1") "admin" empty_world empty-OneActive empty-KeyedOnce
