-- ===== src/Access/Tests.antt =====
-- Runs of the coordinator, the terminal registry, the rate limiter and the SSH host policy of
-- packages/api/src.
use vps_manager_nodejs.Prelude.{
  ◌-◌, ◌≡◌, refl, true, false, List, [], ◌∷◌, none, some, ok, err, arith, if◌then◌else◌, str_eq,
  count_if, min, ◌↔◌,
}
use vps_manager_nodejs.Access.Lifecycle.{
  LifecycleOperation, uninstall, Slots, in_progress, put, try_acquire, begin_ingest, end_ingest,
}
use vps_manager_nodejs.Access.Lifecycle.Counts.{Callers}
use vps_manager_nodejs.Access.Lifecycle.Exclusion.{
  Reachable, start, step, ingests, acquires, ends, uninstall-IsExclusive,
}
use vps_manager_nodejs.Access.Terminals.{TerminalLimits}
use vps_manager_nodejs.Access.Terminals.Quota.{Call, admits, closes_vps, run, Within, run-Within}
use vps_manager_nodejs.Access.HostPolicy.{
  Address, ipv4, ipv6, PolicyConfig, dotted, pick_target, localhost_blocked, private_blocked,
}
use vps_manager_nodejs.Access.HostPolicy.Targets.{AllMayConnect, IsPicked, pick_target_iff}
use vps_manager_nodejs.Access.RateLimit.{Buckets}
use vps_manager_nodejs.Access.RateLimit.Window.{Request, of_key, admitted, admitted-IsBounded}

abbrev no_slots : Slots
no_slots k = none

abbrev one_ingest : Slots
one_ingest = put "v1" (some (record { lifecycle = none; ingests = 1; waiters = 0 })) no_slots

abbrev leaving : Slots
leaving =
    put "v1" (some (record { lifecycle = some uninstall; ingests = 1; waiters = 1 })) one_ingest

abbrev alone : Callers
alone = record { holder = some uninstall; waits = false; ingests = 0 }

begun : begin_ingest "v1" no_slots ≡ ok one_ingest
unfolding begin_ingest
begun = refl

asked : try_acquire "v1" uninstall one_ingest ≡ ok (leaving, true)
unfolding try_acquire
asked = refl

-- An ingest begins, an uninstall waits for it, and the ingest ends.
let_through : Reachable "v1" (end_ingest "v1" leaving, alone)
unfolding end_ingest
let_through = step (step (step (start refl) (ingests begun)) (acquires uninstall asked)) (ends refl)

uninstall-IsExclusive_example :
    (alone.ingests ≡ 0)
    × (begin_ingest "v1" (end_ingest "v1" leaving) ≡ err in_progress)
    × ((operation : LifecycleOperation)
        → try_acquire "v1" operation (end_ingest "v1" leaving) ≡ err in_progress)
uninstall-IsExclusive_example =
    uninstall-IsExclusive "v1" (end_ingest "v1" leaving) alone let_through refl refl

abbrev limits : TerminalLimits
limits = record { global = 2; per_dashboard = 2; per_vps = 1 }

abbrev calls : List Call
calls = admits "t1" "d1" "v1" ∷ admits "t2" "d1" "v1" ∷ closes_vps "v1" ∷ admits "t3" "d1" "v1" ∷ []

empty-Within : Within limits []
empty-Within = record {
  overall = omega arith;
  dashboards = λ id. omega arith;
  servers = λ id. omega arith;
}

run-Within_example : Within limits (run limits calls [])
run-Within_example = run-Within limits calls [] empty-Within

-- A bucket that has counted 3 requests of "a", until the time 100.
abbrev counting : Buckets
counting k = if str_eq k "a" then some (record { count = 3; reset_at = 100 }) else none

abbrev requests : List Request
requests =
    record { key = "a"; at = 10 }
    ∷ record { key = "b"; at = 20 }
    ∷ record { key = "a"; at = 30 }
    ∷ []

admitted-IsBounded_example :
    count_if (of_key "a") (admitted 60 4 requests counting)
    ≡ min (count_if (of_key "a") requests) (4 - 3)
admitted-IsBounded_example =
    admitted-IsBounded "a" 60 4 requests counting (record { count = 3; reset_at = 100 }) refl
      (omega arith, (omega arith, (omega arith, tt)))

abbrev on_a_server : PolicyConfig
on_a_server = record { is_local = false; allow_private_network_targets = true }

abbrev at_home : PolicyConfig
at_home = record { is_local = true; allow_private_network_targets = true }

-- 10.0.0.5 and ::ffff:8.8.8.8
abbrev resolved : List Address
resolved = ipv4 (dotted 10 0 0 5) ∷ ipv6 0 0 0 0 0 65535 2056 2056 ∷ []

public_is_preferred : pick_target at_home resolved ≡ ok (ipv4 (dotted 8 8 8 8))
unfolding pick_target
public_is_preferred = refl

private_is_refused : pick_target on_a_server resolved ≡ err private_blocked
unfolding pick_target
private_is_refused = refl

-- ::ffff:127.0.0.1
mapped_loopback : pick_target at_home (ipv6 0 0 0 0 0 65535 32512 1 ∷ []) ≡ err localhost_blocked
unfolding pick_target
mapped_loopback = refl

pick_target_iff_example :
    (pick_target at_home resolved ≡ ok (ipv4 (dotted 8 8 8 8)))
    ↔ (AllMayConnect at_home resolved × IsPicked (ipv4 (dotted 8 8 8 8)) resolved)
pick_target_iff_example = pick_target_iff at_home resolved (ipv4 (dotted 8 8 8 8))
