-- ===== src/Access/Lifecycle/Counts.antt =====
-- packages/api/src/agents/agent-lifecycle-coordinator.ts: how a slot counts the callers of its server,
-- and what each call does to that count.
use vps_manager_nodejs.Prelude.{
  ℕ, suc, ◌+◌, ◌-◌, ◌≤◌, ◌≡◌, refl, sym, ap, ◌∙◌, ◌⊎◌, inl, inr, String, Bool, true, false, not,
  ◌&&◌, Option, none, some, is_some, ◌==◌, ltb, arith, if◌then◌else◌, eq_refl, Bool-cases,
  Option-cases,
}
use vps_manager_nodejs.Access.Lifecycle.{
  LifecycleOperation, Slot, Slots, fresh_slot, slot, put, is_uninstall, drain,
}

-- The callers of one server: the lifecycle call, which may wait, and the ingests that are open.
pub record Callers : Type 0 where
  pub holder : Option LifecycleOperation
  pub waits : Bool
  pub ingests : ℕ

abbrev pub no_callers : Callers
no_callers = record { holder = none; waits = false; ingests = 0 }

-- A waiting call goes on when the slot has no waiter left: `drain` has called it.
abbrev pub woken : Slot → Callers → Callers
woken s c = record c { waits = c.waits && not (s.waiters == 0) }

-- The slot counts its callers, and an uninstall that waits no longer is alone.
pub record Counts (s : Slot) (c : Callers) : Type 0 where
  pub held : s.lifecycle ≡ c.holder
  pub counted : s.ingests ≡ c.ingests
  pub waiting : s.waiters ≡ (if c.waits then 1 else 0)
  pub some_waited : (c.waits ≡ false) ⊎ ((is_uninstall c.holder ≡ true) × (1 ≤ c.ingests))
  pub alone : (is_uninstall c.holder ≡ false) ⊎ ((c.waits ≡ true) ⊎ (c.ingests ≡ 0))

abbrev pub Agrees : String → Slots × Callers → Type 0
Agrees id x = Counts (slot id x.0) x.1

pub slot-put : (id : String) (s : Slot) (slots : Slots) → slot id (put id (some s) slots) ≡ s
slot-put id s slots = rw (eq_refl id) refl

slot-delete : (id : String) (slots : Slots) → slot id (put id none slots) ≡ fresh_slot
slot-delete id slots = rw (eq_refl id) refl

empty_slot :
    (s : Slot)
    → (not (is_some s.lifecycle) && (s.ingests == 0) && (s.waiters == 0)) ≡ true
    → fresh_slot ≡ s
empty_slot s e =
    let l : none ≡ s.lifecycle = ground (arith, Option-cases s.lifecycle) in
    let i : 0 ≡ s.ingests = ground arith in
    let n : 0 ≡ s.waiters = ground arith in
    λ k. record { lifecycle = l k; ingests = i k; waiters = n k }

put-unless_empty :
    (id : String) (s : Slot) (slots : Slots)
    → slot id (
        if not (is_some s.lifecycle) && (s.ingests == 0) && (s.waiters == 0)
        then put id none slots
        else put id (some s) slots)
      ≡ s
put-unless_empty id s slots =
    elim (Bool-cases (not (is_some s.lifecycle) && (s.ingests == 0) && (s.waiters == 0))) [
      | inl empty ↦ rw empty (slot-delete id slots ∙ empty_slot s empty)
      | inr used ↦ rw used (slot-put id s slots)
    ]

-- What the drained slot is read as.
pub slot-drain :
    (id : String) (s : Slot) (slots : Slots)
    → slot id (drain id s slots) ≡ (if s.ingests == 0 then record s { waiters = 0 } else s)
unfolding drain
slot-drain id s slots =
    put-unless_empty id (if s.ingests == 0 then record s { waiters = 0 } else s) slots

module _ (s : Slot) (c : Callers) (a : Counts s c) where
  pub acquired-Counts :
      (operation : LifecycleOperation)
      → is_some s.lifecycle ≡ false
      → Counts
          (if is_uninstall (some operation) && ltb 0 s.ingests
            then record s { lifecycle = some operation; waiters = s.waiters + 1 }
            else record s { lifecycle = some operation })
          (record c {
            holder = some operation;
            waits = is_uninstall (some operation) && ltb 0 s.ingests;
          })
  acquired-Counts operation free =
      let held = a.held in
      let counted = a.counted in
      let waiting = a.waiting in
      let some_waited = a.some_waited in
      let alone = a.alone in
      let holder_free : is_uninstall c.holder ≡ false =
        ground (arith, Option-cases s.lifecycle, Option-cases c.holder) in
      let quiet : c.waits ≡ false = ground arith in
      elim (Bool-cases (is_uninstall (some operation) && ltb 0 s.ingests)) [
        | inl waits ↦ rw waits (record {
          held = refl;
          counted = counted;
          waiting = ground arith;
          some_waited = inr (ground arith, ground arith);
          alone = inr (inl refl);
        })
        | inr at_once ↦ rw at_once (record {
          held = refl;
          counted = counted;
          waiting = ground arith;
          some_waited = inl refl;
          alone = ground arith;
        })
      ]

  pub ingest-Counts :
      is_uninstall s.lifecycle ≡ false
      → Counts (record s { ingests = s.ingests + 1 }) (record c { ingests = c.ingests + 1 })
  ingest-Counts free =
      let held = a.held in
      let counted = a.counted in
      let waiting = a.waiting in
      let some_waited = a.some_waited in
      record {
        held = held;
        counted = omega arith;
        waiting = waiting;
        some_waited = ground arith;
        alone = inl (ap is_uninstall (sym held) ∙ free);
      }

  pub ended-Counts :
      (n : ℕ)
      → c.ingests ≡ suc n
      → let left : Slot =
          if (s.ingests - 1) == 0
          then record s { ingests = s.ingests - 1; waiters = 0 }
          else record s { ingests = s.ingests - 1 } in
        Counts left (woken left (record c { ingests = n }))
  ended-Counts n e =
      let held = a.held in
      let counted = a.counted in
      let waiting = a.waiting in
      let some_waited = a.some_waited in
      let alone = a.alone in
      elim (Bool-cases ((s.ingests - 1) == 0)) [
        | inl last ↦ rw last (record {
          held = held;
          counted = omega arith;
          waiting = ground arith;
          some_waited = inl (ground arith);
          alone = inr (inr (ground arith));
        })
        | inr more ↦ rw more (record {
          held = held;
          counted = omega arith;
          waiting = ground arith;
          some_waited = ground arith;
          alone = ground arith;
        })
      ]

  pub released-Counts :
      c.waits ≡ false
      → Counts
          (if s.ingests == 0
            then record s { lifecycle = none; waiters = 0 }
            else record s { lifecycle = none })
          (record c { holder = none })
  released-Counts e =
      let counted = a.counted in
      let waiting = a.waiting in
      elim (Bool-cases (s.ingests == 0)) [
        | inl last ↦ rw last (record {
          held = refl;
          counted = counted;
          waiting = ground arith;
          some_waited = inl e;
          alone = inl refl;
        })
        | inr more ↦ rw more (record {
          held = refl;
          counted = counted;
          waiting = waiting;
          some_waited = inl e;
          alone = inl refl;
        })
      ]
