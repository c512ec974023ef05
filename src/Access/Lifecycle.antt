-- ===== src/Access/Lifecycle.antt =====
-- packages/api/src/agents/agent-lifecycle-coordinator.ts. Each method runs to its first `await`
-- without a break, so it is one step on the slots; the closure that a method returns is `release` or
-- `end_ingest`, called at most once by its `released` flag.
pub mod Counts
pub mod Exclusion
use vps_manager_nodejs.Prelude.{
  ℕ, zero, suc, ◌+◌, ◌-◌, String, Bool, true, false, not, ◌&&◌, Option, none, some, or_else,
  is_some, ◌==◌, if◌then◌else◌, str_eq, Outcome, ok, err, ltb,
}

-- LifecycleOperation
pub data LifecycleOperation : Type 0 where
  install uninstall upgrade restart rotate : LifecycleOperation

-- Slot; `waiters` is the number of calls that wait for the ingests to end.
pub record Slot : Type 0 where
  pub lifecycle : Option LifecycleOperation
  pub ingests : ℕ
  pub waiters : ℕ

-- The map from a server to its slot.
abbrev pub Slots : Type 0
Slots = String → Option Slot

pub data Conflict : Type 0 where
  in_progress : Conflict

abbrev pub fresh_slot : Slot
fresh_slot = record { lifecycle = none; ingests = 0; waiters = 0 }

-- The private method `slot`, which inserts the slot that is missing.
abbrev pub slot : String → Slots → Slot
slot id slots = or_else (slots id) fresh_slot

abbrev pub put : String → Option Slot → Slots → Slots
put id s slots = λ k. if str_eq k id then s else slots k

abbrev pub is_uninstall : Option LifecycleOperation → Bool
is_uninstall (some uninstall) = true
is_uninstall _ = false

-- tryAcquire up to its wait: the slots, and whether the call waits.
unfoldable pub try_acquire : String → LifecycleOperation → Slots → Outcome Conflict (Slots × Bool)
try_acquire id operation slots =
    let s = slot id slots in
    if is_some s.lifecycle
    then err in_progress
    else if is_uninstall (some operation) && ltb 0 s.ingests
    then ok (
      put id (some (record s { lifecycle = some operation; waiters = s.waiters + 1 })) slots,
      true,
    )
    else ok (put id (some (record s { lifecycle = some operation })) slots, false)

-- drain: it wakes the waiters once no ingest is left, and deletes a slot that nothing uses.
unfoldable pub drain : String → Slot → Slots → Slots
drain id s slots =
    let awake = if s.ingests == 0 then record s { waiters = 0 } else s in
    if not (is_some awake.lifecycle) && (awake.ingests == 0) && (awake.waiters == 0)
    then put id none slots
    else put id (some awake) slots

-- What the closure of `tryAcquire` does the first time.
unfoldable pub release : String → Slots → Slots
unfolding drain
release id slots = drain id (record (slot id slots) { lifecycle = none }) slots

unfoldable pub begin_ingest : String → Slots → Outcome Conflict Slots
begin_ingest id slots =
    let s = slot id slots in
    if is_uninstall s.lifecycle
    then err in_progress
    else ok (put id (some (record s { ingests = s.ingests + 1 })) slots)

-- What the closure of `beginIngest` does the first time.
unfoldable pub end_ingest : String → Slots → Slots
unfolding drain
end_ingest id slots =
    drain id (record (slot id slots) { ingests = (slot id slots).ingests - 1 }) slots

unfoldable pub is_lifecycle_active : String → Slots → Slots × Bool
is_lifecycle_active id slots =
    (put id (some (slot id slots)) slots, is_some (slot id slots).lifecycle)

unfoldable pub is_uninstalling : String → Slots → Slots × Bool
is_uninstalling id slots =
    (put id (some (slot id slots)) slots, is_uninstall (slot id slots).lifecycle)
