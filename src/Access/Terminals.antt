-- ===== src/Access/Terminals.antt =====
-- packages/api/src/terminal/terminal-registry.ts: TerminalSessionRegistry. The random id of a new
-- session is an argument; the `close` callbacks are the caller's, and closing removes the session
-- whether its callback fails or not.
pub mod Quota
use vps_manager_nodejs.Prelude.{
  ℕ, ◌+◌, String, Bool, true, false, not, ◌||◌, List, [], ◌∷◌, ◌++◌, Option, none, some, leb,
  length, count_if, filterb, find, if◌then◌else◌, str_eq, Outcome, ok, err,
}

pub record TerminalLimits : Type 0 where
  pub global : ℕ
  pub per_dashboard : ℕ
  pub per_vps : ℕ

-- TerminalRegistration, less its callback.
pub record TerminalRegistration : Type 0 where
  pub id : String
  pub dashboard_id : String
  pub vps_id : String

pub data RegistryError : Type 0 where
  session_limit_reached : RegistryError

-- The sessions in the order of the map.
abbrev pub Sessions : Type 0
Sessions = List TerminalRegistration

-- `sessions.set(registration.id, registration)`
unfoldable pub set : TerminalRegistration → Sessions → Sessions
set r [] = r ∷ []
set r (x ∷ xs) = if str_eq x.id r.id then r ∷ xs else x ∷ set r xs

abbrev pub of_dashboard : String → TerminalRegistration → Bool
of_dashboard id x = str_eq x.dashboard_id id

abbrev pub of_vps : String → TerminalRegistration → Bool
of_vps id x = str_eq x.vps_id id

abbrev pub is_full : TerminalLimits → String → String → Sessions → Bool
is_full limits dashboard_id vps_id all =
    leb limits.global (length all)
    || leb limits.per_dashboard (count_if (of_dashboard dashboard_id) all)
    || leb limits.per_vps (count_if (of_vps vps_id) all)

unfoldable pub admit :
    TerminalLimits
    → String
    → String
    → String
    → Sessions
    → Outcome RegistryError (Sessions × TerminalRegistration)
unfolding set
admit limits id dashboard_id vps_id all =
    if is_full limits dashboard_id vps_id all
    then err session_limit_reached
    else let registration : TerminalRegistration = record {
      id = id;
      dashboard_id = dashboard_id;
      vps_id = vps_id;
    } in
      ok (set registration all, registration)

-- `sessions.delete(id)`
unfoldable pub release : String → Sessions → Sessions
release id all = filterb (λ x. not (str_eq x.id id)) all

abbrev pub delete_each : Sessions → Sessions → Sessions
delete_each [] all = all
delete_each (m ∷ ms) all = delete_each ms (filterb (λ x. not (str_eq x.id m.id)) all)

-- closeMatching: it deletes the sessions that matched when it was called.
unfoldable pub close_matching : (TerminalRegistration → Bool) → Sessions → Sessions
close_matching predicate all = delete_each (filterb predicate all) all

unfoldable pub close_by_dashboard : String → Sessions → Sessions
unfolding close_matching
close_by_dashboard id all = close_matching (of_dashboard id) all

unfoldable pub close_by_vps : String → Sessions → Sessions
unfolding close_matching
close_by_vps id all = close_matching (of_vps id) all

unfoldable pub close_all : Sessions → Sessions
unfolding close_matching
close_all all = close_matching (λ x. true) all
