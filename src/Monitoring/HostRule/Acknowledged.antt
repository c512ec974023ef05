-- ===== src/Monitoring/HostRule/Acknowledged.antt =====
-- packages/api/src/persistence/repositories/docker-monitoring.repository.ts: an acknowledged alert
-- docker_unavailable at the next observation of its server.
use vps_manager_nodejs.Prelude.{
  String, Bool, true, Option, none, some, ◌≡◌, ◌≢◌, refl, sym, ap, ◌∙◌, subst, inl, inr, or_else,
  find, Bool-cases, Option-cases, Outcome-cases, some-eq, ok, ok-eq, err-ok,
}
use vps_manager_nodejs.Alerts.Unavailable as rule
use vps_manager_nodejs.Alerts.Unavailable.Hysteresis.{KeepsAcknowledged, evaluate-KeepsAcknowledged}
use vps_manager_nodejs.Monitoring.Records.{acknowledged, Alert, Store}
use vps_manager_nodejs.Monitoring.Runtime.{Runtime}
use vps_manager_nodejs.Monitoring.HostRule.{
  is_host_alert, listed_state, is_resolution, listed_alert, first_state, observation_of, settle,
  settle_alerts, judge, apply_unavailable_observation,
}
use vps_manager_nodejs.Monitoring.Upkeep.{is_alert, is_open, acknowledge_alert}

listed_state-open :
    (state : rule.AlertState)
    → state ≡ rule.AlertState.open_alert
    → listed_state state ≢ acknowledged
listed_state-open state is_it = rw (is_it) cc

module _ {R : Type 0} where
  acknowledge_alert-keeps_rules :
      (vps_id id by at : String) (s after : Store R) (answer : Alert × Bool)
      → acknowledge_alert vps_id id by at s ≡ ok (after, answer)
      → after.unavailable_states ≡ s.unavailable_states
  unfolding acknowledge_alert
  acknowledge_alert-keeps_rules vps_id id by at s after answer returned =
      elim (Option-cases (find (is_alert vps_id id) s.alerts)) [
        | inl missing ↦ err-ok (rw (missing, acknowledge_alert) at returned)
        | inr (a, found) ↦ elim (Bool-cases (is_open a.state)) [
          | inl unread ↦ sym (
              ap (λ p. p.0.unavailable_states)
                (ok-eq (rw (found, acknowledge_alert, unread) at returned)))
          | inr settled ↦ sym (
              ap (λ p. p.0.unavailable_states)
                (ok-eq (rw (found, acknowledge_alert, settled) at returned)))
        ]
      ]

  module _ (runtime : Runtime R) where
    -- Nothing that an evaluation lists for an open alert of the rule is acknowledged.
    settle-not_acknowledged :
        (vps_id instance at : String) (active : Option rule.ActiveAlert) (r : rule.Result)
        (s : Store R) (listed : Alert)
        → ((a : rule.ActiveAlert) → active ≡ some a → a.state ≡ rule.AlertState.open_alert)
        → (settle runtime vps_id instance at active r s).1.0 ≡ some listed
        → listed.state ≢ acknowledged
    unfolding settle listed_alert
    settle-not_acknowledged vps_id instance at (some a) r s listed opened answered =
        subst (λ l. l.state ≢ acknowledged) (some-eq answered)
          (listed_state-open a.state (opened a refl))
    settle-not_acknowledged vps_id instance at none r s listed opened answered =
        elim (Option-cases (find (is_host_alert vps_id) s.alerts)) [
          | inl missing ↦ let e = rw (missing, settle_alerts) at answered in cc
          | inr (old, found) ↦ elim (Bool-cases (is_resolution r.transition)) [
            | inl ended ↦
                subst (λ l. l.state ≢ acknowledged)
                  (some-eq (rw (found, settle_alerts, ended) at answered)) cc
            | inr held ↦ let e = rw (found, settle_alerts, held) at answered in cc
          ]
        ]

    -- An acknowledgement is not kept: once an alert docker_unavailable has been acknowledged, the next
    -- observation of its server either answers no alert or one that is not acknowledged, whoever
    -- acknowledged it. (`acknowledgeAlert` writes the list of alerts only; the state of the rule, from
    -- which the alert is listed again, stays open.)
    pub acknowledgement_lost :
        (vps_id instance id by at later : String) (availability : rule.Availability)
        (s after last : Store R) (acked listed : Alert) (transition : rule.Transition)
        (state : rule.State) (active : rule.ActiveAlert)
        → s.unavailable_states vps_id ≡ some state
        → state.alert ≡ some active
        → active.state ≡ rule.AlertState.open_alert
        → acknowledge_alert vps_id id by at s ≡ ok (after, (acked, true))
        → apply_unavailable_observation runtime vps_id instance availability later after
          ≡ ok (last, (some listed, transition))
        → listed.state ≢ acknowledged
    unfolding apply_unavailable_observation judge
    acknowledgement_lost vps_id instance id by at later availability s after last acked listed
          transition state active kept is_active unread acknowledging observing =
        elim (Outcome-cases (judge runtime vps_id availability later after)) [
          | inr (thrown, failed) ↦ err-ok (rw (failed, apply_unavailable_observation) at observing)
          | inl (r, judged) ↦
              settle-not_acknowledged vps_id instance later r.next.alert r after listed
                (stays_open r judged)
                (ap (λ p. p.1.0) (ok-eq (rw (judged, apply_unavailable_observation) at observing)))
        ]
      where
        before : or_else (after.unavailable_states vps_id) (first_state vps_id) ≡ state
        before =
            ap (λ x. or_else (x vps_id) (first_state vps_id))
              (acknowledge_alert-keeps_rules vps_id id by at s after (acked, true) acknowledging)
            ∙ ap (λ x. or_else x (first_state vps_id)) kept

        stays_open :
            (r : rule.Result)
            → judge runtime vps_id availability later after ≡ ok r
            → (a : rule.ActiveAlert) → r.next.alert ≡ some a
            → a.state ≡ rule.AlertState.open_alert
        stays_open r judged a is_a =
            let alert_before : (or_else (after.unavailable_states vps_id)
                  (first_state vps_id)).alert
                ≡ some active =
              ap (λ x. x.alert) before ∙ is_active in
            let kept : KeepsAcknowledged (some active) (some a) =
              subst (λ x. KeepsAcknowledged x (some a)) alert_before
                (subst
                  (KeepsAcknowledged
                    ((or_else (after.unavailable_states vps_id) (first_state vps_id)).alert))
                  is_a
                  (evaluate-KeepsAcknowledged runtime.is_valid_date
                    (or_else (after.unavailable_states vps_id) (first_state vps_id))
                    (some (observation_of runtime availability later)) r judged)) in
            kept.0 ∙ unread
