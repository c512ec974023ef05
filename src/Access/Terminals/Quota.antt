-- ===== src/Access/Terminals/Quota.antt =====
-- packages/api/src/terminal/terminal-registry.ts: the limits hold after every sequence of calls.
use vps_manager_nodejs.Prelude.{
  ◌+◌, ◌≤◌, ◌≡◌, inl, inr, String, Bool, true, false, not, List, [], ◌∷◌, length, count_if, filterb,
  arith, if◌then◌else◌, str_eq, eq_iff, Bool-cases, Outcome, ok, err,
}
use vps_manager_nodejs.Access.Terminals.{
  TerminalLimits, TerminalRegistration, RegistryError, Sessions, set, of_dashboard, of_vps, is_full,
  admit, release, delete_each, close_matching, close_by_dashboard, close_by_vps, close_all,
}

-- A call on the registry.
pub data Call : Type 0 where
  admits : String → String → String → Call
  releases closes_dashboard closes_vps : String → Call
  closes_all : Call

abbrev admitted : Sessions → Outcome RegistryError (Sessions × TerminalRegistration) → Sessions
admitted all (ok (after, _)) = after
admitted all (err e) = all

-- The sessions after a call; a refused `admit` changes nothing.
abbrev pub after_call : TerminalLimits → Call → Sessions → Sessions
after_call limits (admits id dashboard_id vps_id) all =
    admitted all (admit limits id dashboard_id vps_id all)
after_call limits (releases id) all = release id all
after_call limits (closes_dashboard id) all = close_by_dashboard id all
after_call limits (closes_vps id) all = close_by_vps id all
after_call limits closes_all all = close_all all

abbrev pub run : TerminalLimits → List Call → Sessions → Sessions
run limits [] all = all
run limits (c ∷ cs) all = run limits cs (after_call limits c all)

pub record Within (limits : TerminalLimits) (all : Sessions) : Type 0 where
  pub overall : length all ≤ limits.global
  pub dashboards : (id : String) → count_if (of_dashboard id) all ≤ limits.per_dashboard
  pub servers : (id : String) → count_if (of_vps id) all ≤ limits.per_vps

count_if-set :
    (p : TerminalRegistration → Bool) (r : TerminalRegistration) (all : Sessions)
    → count_if p (set r all) ≤ count_if p all + (if p r then 1 else 0)
unfolding set
count_if-set p r [] = ground arith
count_if-set p r (x ∷ xs) = ground (arith, count_if-set p r xs)

length-set : (r : TerminalRegistration) (all : Sessions) → length (set r all) ≤ length all + 1
unfolding set
length-set r [] = ground arith
length-set r (x ∷ xs) = ground (arith, length-set r xs)

module _ (q : TerminalRegistration → Bool) where
  count_if-filterb :
      (p : TerminalRegistration → Bool) (all : Sessions)
      → count_if p (filterb q all) ≤ count_if p all
  count_if-filterb p [] = ground arith
  count_if-filterb p (x ∷ xs) = ground (arith, count_if-filterb p xs)

  length-filterb : (all : Sessions) → length (filterb q all) ≤ length all
  length-filterb [] = ground arith
  length-filterb (x ∷ xs) = ground (arith, length-filterb xs)

  filterb-Within :
      (limits : TerminalLimits) (all : Sessions) → Within limits all → Within limits (filterb q all)
  filterb-Within limits all w = record {
    overall = let o = w.overall in ground (arith, length-filterb all);
    dashboards =
        λ id. let o = w.dashboards id in ground (arith, count_if-filterb (of_dashboard id) all);
    servers = λ id. let o = w.servers id in ground (arith, count_if-filterb (of_vps id) all);
  }

delete_each-Within :
    (limits : TerminalLimits) (ms all : Sessions)
    → Within limits all
    → Within limits (delete_each ms all)
delete_each-Within limits [] all w = w
delete_each-Within limits (m ∷ ms) all w =
    delete_each-Within limits ms _ (filterb-Within (λ x. not (str_eq x.id m.id)) limits all w)

set-Within :
    (limits : TerminalLimits) (r : TerminalRegistration) (all : Sessions)
    → is_full limits r.dashboard_id r.vps_id all ≡ false
    → Within limits all
    → Within limits (set r all)
set-Within limits r all room w = record {
  overall = ground (arith, length-set r all);
  dashboards = λ id.
      let o = w.dashboards id in
      ground (arith, count_if-set (of_dashboard id) r all, eq_iff r.dashboard_id id);
  servers = λ id.
      let o = w.servers id in ground (arith, count_if-set (of_vps id) r all, eq_iff r.vps_id id);
}

admit-Within :
    (limits : TerminalLimits) (id dashboard_id vps_id : String) (all : Sessions)
    → Within limits all
    → Within limits (admitted all (admit limits id dashboard_id vps_id all))
unfolding admit
admit-Within limits id dashboard_id vps_id all w =
    elim (Bool-cases (is_full limits dashboard_id vps_id all)) [
      | inl full ↦ rw (full, admit) w
      | inr room ↦
          rw (room, admit)
            (set-Within limits (record { id = id; dashboard_id = dashboard_id; vps_id = vps_id })
              all room w)
    ]

after_call-Within :
    (limits : TerminalLimits) (c : Call) (all : Sessions)
    → Within limits all
    → Within limits (after_call limits c all)
unfolding release close_matching close_by_dashboard close_by_vps close_all
after_call-Within limits (admits id dashboard_id vps_id) all w =
    admit-Within limits id dashboard_id vps_id all w
after_call-Within limits (releases id) all w =
    filterb-Within (λ x. not (str_eq x.id id)) limits all w
after_call-Within limits (closes_dashboard id) all w =
    delete_each-Within limits (filterb (of_dashboard id) all) all w
after_call-Within limits (closes_vps id) all w =
    delete_each-Within limits (filterb (of_vps id) all) all w
after_call-Within limits closes_all all w =
    delete_each-Within limits (filterb (λ x. true) all) all w

-- Whatever calls are made and in whatever order, the registry never holds more sessions than the
-- limits allow: overall, for each dashboard session and for each server.
pub run-Within :
    (limits : TerminalLimits) (calls : List Call) (all : Sessions)
    → Within limits all
    → Within limits (run limits calls all)
run-Within limits [] all w = w
run-Within limits (c ∷ cs) all w =
    run-Within limits cs (after_call limits c all) (after_call-Within limits c all w)
