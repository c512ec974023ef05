-- ===== src/Upgrade/Store.antt =====
-- packages/api/src/persistence/repositories/local-upgrade.repository.ts, the JSON store. Each call
-- holds the file lock from its read to its write, so it is one step on the store. The world also
-- holds what the upgrade service reads and writes beside it: the agents' last reports and the audit
-- trail.
pub mod Evolution
pub mod Swap
use vps_manager_nodejs.Prelude.{
  ℕ, ◌+◌, String, Bool, true, false, not, ◌&&◌, List, [], ◌∷◌, ◌++◌, Option, none, some, find,
  filterb, drop, take, leb, ◌==◌, if◌then◌else◌, str_eq, Outcome, ok, err,
}
use vps_manager_nodejs.Upgrade.Job.{Job, UpdaterHeartbeat, is_terminal}

-- What the agent repository keeps of a server's agent (agents.getState).
pub record AgentState : Type 0 where
  pub build_id : Option String
  pub last_seen_at : Option ℕ

-- An entry of the audit trail, without its free-form metadata.
pub record AuditEntry : Type 0 where
  pub action : String
  pub resource_id : String
  pub job_id : String
  pub success : Bool

pub record World : Type 0 where
  pub jobs : List Job
  pub heartbeats : List UpdaterHeartbeat
  pub agents : String → Option AgentState
  pub audits : List AuditEntry

-- LocalUpgradeUniqueViolationError
pub data Violation : Type 0 where
  active idempotency : String → Violation

abbrev pub has_id : String → Job → Bool
has_id id j = str_eq j.id id

abbrev pub is_active_of : String → Job → Bool
is_active_of vps_id j = str_eq j.vps_id vps_id && not (is_terminal j.state)

abbrev pub same_key : Option String → String → Bool
same_key none key = false
same_key (some k) key = str_eq k key

abbrev pub has_key : String → String → Job → Bool
has_key vps_id key j = str_eq j.vps_id vps_id && same_key j.idempotency_key key

unfoldable pub get : String → World → Option Job
get id w = find (has_id id) w.jobs

unfoldable pub get_active_by_vps : String → World → Option Job
get_active_by_vps vps_id w = find (is_active_of vps_id) w.jobs

unfoldable pub get_by_idempotency_key : String → String → World → Option Job
get_by_idempotency_key vps_id key w = find (has_key vps_id key) w.jobs

abbrev pub add_job : Job → World → World
add_job j w = record w { jobs = w.jobs ++ record j { revision = 0 } ∷ [] }

-- The idempotency test of `create`; an empty key is no key.
unfoldable pub create_keyed : Job → String → World → Outcome Violation (Job × World)
unfolding get_by_idempotency_key
create_keyed j key w =
    if str_eq key "" then ok (j, add_job j w) else elim (get_by_idempotency_key j.vps_id key w) [
      | some existing ↦ err (idempotency existing.id)
      | none ↦ ok (j, add_job j w)
    ]

unfoldable pub create_key : Option String → Job → World → Outcome Violation (Job × World)
unfolding create_keyed
create_key none j w = ok (j, add_job j w)
create_key (some key) j w = create_keyed j key w

unfoldable pub create : Job → World → Outcome Violation (Job × World)
unfolding get_active_by_vps create_key
create j w = elim (get_active_by_vps j.vps_id w) [
  | some existing ↦ err (active existing.id)
  | none ↦ create_key j.idempotency_key j w
]

-- `sort` by creation time, newest first; it is stable.
unfoldable pub insert_newest : Job → List Job → List Job
insert_newest j [] = j ∷ []
insert_newest j (k ∷ ks) =
    if leb k.created_at j.created_at then j ∷ k ∷ ks else k ∷ insert_newest j ks

unfoldable pub sort_newest : List Job → List Job
unfolding insert_newest
sort_newest [] = []
sort_newest (j ∷ js) = insert_newest j (sort_newest js)

unfoldable pub list_by_vps : String → ℕ → ℕ → World → List Job
unfolding sort_newest
list_by_vps vps_id limit offset w =
    take limit (drop offset (sort_newest (filterb (λ j. str_eq j.vps_id vps_id) w.jobs)))

-- The record that `compareAndSet` writes: the patch, which overwrites the fields that it names, and
-- over it the fields that no write may change.
abbrev pub patched : (Job → Job) → ℕ → Job → Job
patched patch stamp j = record (patch j) {
  id = j.id;
  vps_id = j.vps_id;
  created_at = j.created_at;
  release_id = j.release_id;
  manifest_raw = j.manifest_raw;
  revision = j.revision + 1;
  updated_at = stamp;
}

-- `data.jobs[index] = updated` at the first job with the id.
abbrev pub replace_first : String → Job → List Job → List Job
replace_first id new [] = []
replace_first id new (j ∷ js) = if has_id id j then new ∷ js else j ∷ replace_first id new js

abbrev pub set_job : String → Job → World → World
set_job id new w = record w { jobs = replace_first id new w.jobs }

unfoldable pub compare_and_set : String → ℕ → (Job → Job) → ℕ → World → Option (Job × World)
unfolding get
compare_and_set id expected patch stamp w = elim (get id w) [
  | none ↦ none
  | some j ↦
      if j.revision == expected
      then some (patched patch stamp j, set_job id (patched patch stamp j) w)
      else none
]

-- `data.updaterHeartbeats[vpsId] = heartbeat`
abbrev put_heartbeat : UpdaterHeartbeat → List UpdaterHeartbeat → List UpdaterHeartbeat
put_heartbeat h [] = h ∷ []
put_heartbeat h (k ∷ ks) = if str_eq k.vps_id h.vps_id then h ∷ ks else k ∷ put_heartbeat h ks

unfoldable pub record_updater_heartbeat : UpdaterHeartbeat → World → World
record_updater_heartbeat h w = record w { heartbeats = put_heartbeat h w.heartbeats }

unfoldable pub get_updater_heartbeat : String → World → Option UpdaterHeartbeat
get_updater_heartbeat vps_id w = find (λ h. str_eq h.vps_id vps_id) w.heartbeats

abbrev pub add_audit : AuditEntry → World → World
add_audit a w = record w { audits = w.audits ++ a ∷ [] }
