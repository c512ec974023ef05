-- ===== src/Monitoring/Ingest/Judged.antt =====
-- packages/api/src/persistence/repositories/docker-monitoring.repository.ts: what the alert rules leave
-- as it is when `ingestUnit` hands them its evidence.
use vps_manager_nodejs.Prelude.{
  ℕ, String, List, Option, some, ◌≡◌, refl, sym, ap, ◌∙◌, inl, inr, Bool-cases, Option-cases,
  Outcome-cases, Outcome, ok, err, ◌>>=◌, >>=-eq-ok, ok-eq, err-ok, subst,
}
use vps_manager_nodejs.Alerts.Unavailable as unavailable_rule
use vps_manager_nodejs.Alerts.RuleState as typed_rule
use vps_manager_nodejs.Alerts.RuleState.{TypedState}
use vps_manager_nodejs.Alerts.Typed.{evaluate}
use vps_manager_nodejs.Prelude.{[], ◌∷◌}
use vps_manager_nodejs.Monitoring.Records.{IngestUnit, Alert, RuleKey, Store}
use vps_manager_nodejs.Monitoring.Runtime.{Runtime}
use vps_manager_nodejs.Monitoring.HostRule.{ingest_availability, judge}
use vps_manager_nodejs.Monitoring.Evidence.{Item, typed_items}
use vps_manager_nodejs.Monitoring.TypedRules.{typed_step, typed_steps, typed_state, settle_typed}
use vps_manager_nodejs.Monitoring.Ingest.{
  with_history, with_storage, with_availability, with_alerts, replaces_storage, unavailable_or,
  typed_or,
}

module _ {R : Type 0} where
  -- `s` with other alerts and other states of the rules.
  abbrev pub judged_as :
      Store R
      → List Alert
      → (String → Option unavailable_rule.State)
      → (RuleKey → Option TypedState)
      → Store R
  judged_as s alerts hosts typed = record s {
    alerts = alerts;
    unavailable_states = hosts;
    typed_states = typed;
  }

  -- The two stores differ in what the alert rules write only.
  abbrev pub Judges : Store R → Store R → Type 0
  Judges s after = after ≡ judged_as s after.alerts after.unavailable_states after.typed_states

  module _ (runtime : Runtime R) (max_bytes : ℕ) where
    ingest_availability-Judges :
        (vps_id instance : String) (availability : unavailable_rule.Availability) (at : String)
        (s after : Store R)
        → ingest_availability runtime vps_id instance availability at s ≡ ok after
        → Judges s after
    unfolding ingest_availability
    ingest_availability-Judges vps_id instance availability at s after returned =
        elim (Outcome-cases (judge runtime vps_id availability at s)) [
          | inl (r, judged) ↦
              let e = rw (judged, ingest_availability) at returned in
              subst (Judges s) (ok-eq e) refl
          | inr (thrown, failed) ↦ err-ok (rw (failed, ingest_availability) at returned)
        ]

    Judges-trans :
        (first : Store R) {second third : Store R}
        → Judges first second
        → Judges second third
        → Judges first third
    Judges-trans first {third = third} early late =
        late ∙ ap (λ s. judged_as s third.alerts third.unavailable_states third.typed_states) early

    typed_step-Judges :
        (vps_id : String) (item : Item R) (s after : Store R)
        → typed_step runtime vps_id item s ≡ ok after
        → Judges s after
    unfolding typed_step
    typed_step-Judges vps_id item s after returned =
        let (previous, _, rest) =
          >>=-eq-ok (typed_state runtime vps_id item s)
            (λ previous.
              evaluate runtime.ratios runtime.is_valid_date previous (some item.1) >>= λ r.
              ok (settle_typed runtime vps_id item r s))
            returned in
        let (r, _, e) =
          >>=-eq-ok (evaluate runtime.ratios runtime.is_valid_date previous (some item.1))
            (λ r. ok (settle_typed runtime vps_id item r s)) rest in
        subst (Judges s) (ok-eq e) refl

    typed_steps-Judges :
        (vps_id : String) (items : List (Item R)) (s after : Store R)
        → typed_steps runtime vps_id items s ≡ ok after
        → Judges s after
    unfolding typed_steps
    typed_steps-Judges vps_id [] s after returned = subst (Judges s) (ok-eq returned) refl
    typed_steps-Judges vps_id (item ∷ items) s after returned =
        let (next, stepped, rest) =
          >>=-eq-ok (typed_step runtime vps_id item s)
            (λ next. typed_steps runtime vps_id items next) returned in
        Judges-trans s (typed_step-Judges vps_id item s next stepped)
          (typed_steps-Judges vps_id items next after rest)

    unavailable_or-ok :
        (call : Outcome unavailable_rule.Error (Store R)) (after : Store R)
        → unavailable_or runtime max_bytes call ≡ ok after
        → call ≡ ok after
    unfolding unavailable_or
    unavailable_or-ok (ok s) after returned = ap ok (ok-eq returned)
    unavailable_or-ok (err thrown) after returned = err-ok returned

    typed_or-ok :
        (call : Outcome typed_rule.Error (Store R)) (after : Store R)
        → typed_or runtime max_bytes call ≡ ok after
        → call ≡ ok after
    unfolding typed_or
    typed_or-ok (ok s) after returned = ap ok (ok-eq returned)
    typed_or-ok (err thrown) after returned = err-ok returned

    with_availability-Judges :
        (u : IngestUnit R) (s after : Store R)
        → with_availability runtime max_bytes u s ≡ ok after
        → Judges s after
    unfolding with_availability
    with_availability-Judges u s after returned = elim (Option-cases u.monitoring) [
      | inl nothing ↦ subst (Judges s) (ok-eq (rw nothing at returned)) refl
      | inr (monitoring, given) ↦
          ingest_availability-Judges u.vps_id u.agent_instance_id monitoring.availability
            u.host_sample.collected_at s after (unavailable_or-ok _ after (rw (given) at returned))
    ]

    -- The alert rules write alerts and their own states only.
    pub with_alerts-Judges :
        (u : IngestUnit R) (s after : Store R)
        → with_alerts runtime max_bytes u s ≡ ok after
        → Judges s after
    unfolding with_alerts
    with_alerts-Judges u s after returned =
        let (next, observed, rest) =
          >>=-eq-ok (with_availability runtime max_bytes u s)
            (λ next.
              typed_or runtime max_bytes
                (typed_steps runtime u.vps_id (typed_items runtime u) next))
            returned in
        Judges-trans s (with_availability-Judges u s next observed) (
          typed_steps-Judges u.vps_id (typed_items runtime u) next after (typed_or-ok _ after rest))

  with_storage-Keeps :
      (u : IngestUnit R) (s : Store R)
      → with_storage u s ≡ record s { latest_storage = (with_storage u s).latest_storage }
  unfolding with_storage
  with_storage-Keeps u s = elim (Option-cases u.storage_latest) [
    | inl nothing ↦ rw (nothing) refl
    | inr (storage, given) ↦
        elim (Bool-cases (
          replaces_storage u.source_sequence (s.latest_storage u.vps_id)
            (s.latest_by_vps u.vps_id))) [
              | inl newer ↦ rw (given, newer) refl
              | inr older ↦ rw (given, older) refl
            ]
  ]

  -- What a unit is registered on: the store with its history, other storage and other alerts.
  pub history-Judges :
      (u : IngestUnit R) (s judged : Store R)
      → Judges (with_storage u (with_history u s)) judged
      → judged ≡ record (with_history u s) {
        latest_storage = judged.latest_storage;
        alerts = judged.alerts;
        unavailable_states = judged.unavailable_states;
        typed_states = judged.typed_states;
      }
  history-Judges u s judged judges =
      let stored : judged.latest_storage ≡ (with_storage u (with_history u s)).latest_storage =
        ap (λ x. x.latest_storage) judges in
      judges
      ∙ ap (λ x. judged_as x judged.alerts judged.unavailable_states judged.typed_states)
          (with_storage-Keeps u (with_history u s))
      ∙ ap
          (λ x. record (with_history u s) {
            latest_storage = x;
            alerts = judged.alerts;
            unavailable_states = judged.unavailable_states;
            typed_states = judged.typed_states;
          })
          (sym stored)
