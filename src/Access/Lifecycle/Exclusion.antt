-- ===== src/Access/Lifecycle/Exclusion.antt =====
-- packages/api/src/agents/agent-lifecycle-coordinator.ts: what the coordinator promises the
-- lifecycle services and the ingest of one server, over every order of their calls.
use vps_manager_nodejs.Prelude.{
  ℕ, suc, ◌+◌, ◌-◌, ◌≡◌, refl, sym, ap, ◌∙◌, inl, inr, String, Bool, true, false, ◌&&◌, none, some,
  or_else, is_some, ltb, arith, if◌then◌else◌, Outcome, ok, err, Bool-cases, subst,
}
use vps_manager_nodejs.Access.Lifecycle.{
  LifecycleOperation, uninstall, Slots, Conflict, in_progress, fresh_slot, slot, put, is_uninstall,
  try_acquire, release, begin_ingest, end_ingest, is_uninstalling,
}
use vps_manager_nodejs.Access.Lifecycle.Counts.{
  Callers, no_callers, woken, Counts, Agrees, slot-put, slot-drain, acquired-Counts, ingest-Counts,
  ended-Counts, released-Counts,
}

-- The steps of the callers of the server `id`, and of the others.
pub data Step (id : String) : Slots × Callers → Slots × Callers → Type 0 where
  acquires :
      {slots slots' : Slots} {c : Callers} {waits : Bool} (operation : LifecycleOperation)
      → try_acquire id operation slots ≡ ok (slots', waits)
      → Step id (slots, c) (slots', record c { holder = some operation; waits = waits })
  releases :
      {slots : Slots} {c : Callers} {operation : LifecycleOperation}
      → c.holder ≡ some operation
      → c.waits ≡ false
      → Step id (slots, c) (release id slots, record c { holder = none })
  ingests :
      {slots slots' : Slots} {c : Callers}
      → begin_ingest id slots ≡ ok slots'
      → Step id (slots, c) (slots', record c { ingests = c.ingests + 1 })
  ends :
      {slots : Slots} {c : Callers} {n : ℕ}
      → c.ingests ≡ suc n
      → Step id
          (slots, c)
          (end_ingest id slots, woken (slot id (end_ingest id slots)) (record c { ingests = n }))
  asks : {slots : Slots} {c : Callers} → Step id (slots, c) ((is_uninstalling id slots).0, c)
  elsewhere :
      {slots slots' : Slots} {c : Callers} → slots' id ≡ slots id → Step id (slots, c) (slots', c)

pub data Reachable (id : String) : Slots × Callers → Type 0 where
  start : {slots : Slots} → slots id ≡ none → Reachable id (slots, no_callers)
  step : {x y : Slots × Callers} → Reachable id x → Step id x y → Reachable id y

module _ (id : String) where
  try_acquire-slot :
      (slots slots' : Slots) (waits : Bool) (operation : LifecycleOperation)
      → try_acquire id operation slots ≡ ok (slots', waits)
      → let s = slot id slots in
        (is_some s.lifecycle ≡ false)
        × (waits ≡ (is_uninstall (some operation) && ltb 0 s.ingests))
        × (slot id slots' ≡ (
            if is_uninstall (some operation) && ltb 0 s.ingests
            then record s { lifecycle = some operation; waiters = s.waiters + 1 }
            else record s { lifecycle = some operation }))
  unfolding try_acquire
  try_acquire-slot slots slots' waits operation e =
      let s = slot id slots in
      elim (Bool-cases (is_some s.lifecycle)) [
        | inl taken ↦ absurd (ground arith)
        | inr free ↦ elim (Bool-cases (is_uninstall (some operation) && ltb 0 s.ingests)) [
          | inl later ↦
              let step : ◌≡◌ {A = Outcome Conflict (Slots × Bool)}
                  (ok (
                    put id (some (record s { lifecycle = some operation; waiters = s.waiters + 1 }))
                        slots,
                    true,
                  ))
                  (ok (slots', waits)) =
                rw (free, later, try_acquire) at e in
              let moved : slots'
                  ≡ put id (some (record s { lifecycle = some operation; waiters = s.waiters + 1 }))
                      slots =
                ground arith in
              let told : waits ≡ true = ground arith in
              (free, told ∙ sym later, rw (moved, later) (slot-put id _ slots))
          | inr now ↦
              let step : ◌≡◌ {A = Outcome Conflict (Slots × Bool)}
                  (ok (put id (some (record s { lifecycle = some operation })) slots, false))
                  (ok (slots', waits)) =
                rw (free, now, try_acquire) at e in
              let moved : slots' ≡ put id (some (record s { lifecycle = some operation })) slots =
                ground arith in
              let told : waits ≡ false = ground arith in
              (free, told ∙ sym now, rw (moved, now) (slot-put id _ slots))
        ]
      ]

  begin_ingest-slot :
      (slots slots' : Slots)
      → begin_ingest id slots ≡ ok slots'
      → let s = slot id slots in
        (is_uninstall s.lifecycle ≡ false) × (slot id slots' ≡ record s { ingests = s.ingests + 1 })
  unfolding begin_ingest
  begin_ingest-slot slots slots' e =
      let s = slot id slots in
      elim (Bool-cases (is_uninstall s.lifecycle)) [
        | inl leaving ↦ absurd (ground arith)
        | inr staying ↦
            let step : ◌≡◌ {A = Outcome Conflict Slots}
                (ok (put id (some (record s { ingests = s.ingests + 1 })) slots)) (ok slots') =
              rw (staying, begin_ingest) at e in
            let moved : slots' ≡ put id (some (record s { ingests = s.ingests + 1 })) slots =
              ground arith in
            (staying, rw moved (slot-put id _ slots))
      ]

  Step-Agrees : {x y : Slots × Callers} → Step id x y → Agrees id x → Agrees id y
  unfolding release end_ingest is_uninstalling
  Step-Agrees (acquires {slots} {slots'} {c} {waits} operation e) a =
      let (free, told, moved) = try_acquire-slot slots slots' waits operation e in
      rw (moved, told) (acquired-Counts (slot id slots) c a operation free)
  Step-Agrees (releases {slots} {c} h q) a =
      rw (slot-drain id (record (slot id slots) { lifecycle = none }) slots)
        (released-Counts (slot id slots) c a q)
  Step-Agrees (ingests {slots} {slots'} {c} e) a =
      let (staying, moved) = begin_ingest-slot slots slots' e in
      rw moved (ingest-Counts (slot id slots) c a staying)
  Step-Agrees (ends {slots} {c} {n} e) a =
      rw (slot-drain id (record (slot id slots) { ingests = (slot id slots).ingests - 1 }) slots)
        (ended-Counts (slot id slots) c a n e)
  Step-Agrees (asks {slots} {c}) a =
      subst (λ s. Counts s c) (sym (slot-put id (slot id slots) slots)) a
  Step-Agrees (elsewhere {slots} {slots'} {c} e) a =
      subst (λ o. Counts (or_else o fresh_slot) c) (sym e) a

  Reachable-Agrees : {x : Slots × Callers} → Reachable id x → Agrees id x
  Reachable-Agrees (start e) =
      subst (λ o. Counts (or_else o fresh_slot) no_callers) (sym e)
        (record {
          held = refl;
          counted = refl;
          waiting = refl;
          some_waited = inl refl;
          alone = inl refl;
        })
  Reachable-Agrees (step r s) = Step-Agrees s (Reachable-Agrees r)

-- In every order of the calls for a server, an uninstall that has been let through runs alone: as long
-- as it is held, no ingest is open and no other lifecycle operation is let through.
pub uninstall-IsExclusive :
    (id : String) (slots : Slots) (c : Callers)
    → Reachable id (slots, c)
    → c.holder ≡ some uninstall
    → c.waits ≡ false
    → (c.ingests ≡ 0)
      × (begin_ingest id slots ≡ err in_progress)
      × ((operation : LifecycleOperation) → try_acquire id operation slots ≡ err in_progress)
unfolding begin_ingest try_acquire
uninstall-IsExclusive id slots c r held waits =
    let a = Reachable-Agrees id r in
    let lifecycle : (slot id slots).lifecycle ≡ some uninstall = a.held ∙ held in
    let alone = a.alone in
    let leaving : is_uninstall c.holder ≡ true = ap is_uninstall held in
    (ground arith, rw (lifecycle, begin_ingest) refl, λ operation. rw (lifecycle, try_acquire) refl)
