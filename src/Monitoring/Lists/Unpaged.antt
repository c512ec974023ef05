-- ===== src/Monitoring/Lists/Unpaged.antt =====
-- packages/api/src/persistence/repositories/docker-monitoring.repository.ts: `listAlerts` on more alerts
-- than a page holds, with the cursors of packages/api/src/docker/docker-monitoring.schemas.ts.
use vps_manager_nodejs.Prelude.{
  ℕ, ◌+◌, ◌≤◌, ◌<◌, String, true, false, List, [], Option, none, some, ◌≡◌, refl, ap, ◌∙◌, subst,
  ◌⊎◌, inl, inr, arith, All, length, take, or_else, ltb, text_append, err,
}
use text.Mathlib.TextLemmas.{append_assoc as text_assoc}
use vps_manager_nodejs.Alerts.Evidence.{RuleKind}
use vps_manager_nodejs.Monitoring.Records.{AlertState, Alert, Store}
use vps_manager_nodejs.Monitoring.Caps.{alerts_per_vps}
use vps_manager_nodejs.Monitoring.HostRule.{unavailable_alert_id}
use vps_manager_nodejs.Monitoring.TypedRules.{typed_fingerprint, kind_name}
use vps_manager_nodejs.Monitoring.Cursor.{
  Codec, Binding, is_valid_payload, encode_cursor, invalid_payload,
}
use vps_manager_nodejs.Monitoring.Pages.{
  next_of, payload_of, paginate_keyset, start_of, newest_first,
}
use vps_manager_nodejs.Monitoring.Pages.Kept.{All-filterb, All-take, All-sort_by}
use vps_manager_nodejs.Monitoring.Pages.Following.{All-middle, length-take}
use vps_manager_nodejs.Monitoring.Pages.Complete.{page-split}
use vps_manager_nodejs.Monitoring.Lists.{
  ListQuery, is_listed_alert, alert_place, alert_rows, alert_binding, list_alerts,
}

-- The regular expression of a cursor's id does not match a text with a colon.
abbrev pub RefusesColons : Codec → Type 0
RefusesColons codec =
    (size : ℕ) (a b : String) → codec.is_opaque size (text_append a (text_append ":" b)) ≡ false

-- The id is one that the alert rules give: that of docker_unavailable, or a fingerprint.
abbrev pub IsRuleId : String → Type 0
IsRuleId id =
    ((vps_id : String) × (id ≡ unavailable_alert_id vps_id))
    ⊎ ((vps_id : String) × ((kind : RuleKind) × ((instance : Option String) × ((key : Option String)
              × (id ≡ typed_fingerprint vps_id kind instance key)))))

more_rows :
    {A : Type 0} (limit : ℕ) (rows : List A)
    → limit < length rows
    → ltb (0 + length (take limit rows)) (length rows) ≡ true
more_rows limit rows long = ground (arith, length-take limit rows)

module _ (codec : Codec) (refuses : RefusesColons codec) where
  IsRuleId-refused : (id : String) → IsRuleId id → codec.is_opaque 128 id ≡ false
  unfolding unavailable_alert_id typed_fingerprint
  IsRuleId-refused id (inl (vps_id, is_id)) =
      ap (codec.is_opaque 128) is_id ∙ refuses 128 vps_id "docker_unavailable"
  IsRuleId-refused id (inr (vps_id, (kind, (instance, (key, is_id))))) =
      ap (codec.is_opaque 128) (is_id ∙ ap (text_append (kind_name kind)) (text_assoc ":" "v1:" _))
      ∙ refuses 128 (kind_name kind) _

  refused-payload :
      (binding : Binding) (a : Alert)
      → IsRuleId a.id
      → is_valid_payload codec (payload_of codec alert_place binding a) ≡ false
  unfolding is_valid_payload
  refused-payload binding a id = ground (arith, IsRuleId-refused a.id id)

  refused-next :
      (binding : Binding) (a : Alert)
      → IsRuleId a.id
      → next_of codec alert_place binding true (some a) ≡ err invalid_payload
  unfolding next_of encode_cursor
  refused-next binding a id = rw (refused-payload binding a id) refl

  -- The alerts of a server cannot be paged: when more of them match a query than its page holds, the
  -- first page throws, on every store whose alerts have the ids that the alert rules give. The ids have
  -- colons, which the id of a cursor may not have.
  pub list_alerts-throws :
      {R : Type 0} (q : ListQuery) (state : Option AlertState) (rule_kind : Option String)
      (s : Store R)
      → q.cursor ≡ none
      → All (λ a. IsRuleId a.id) s.alerts
      → 1 ≤ or_else q.limit 50
      → or_else q.limit 50 < length (alert_rows codec q state rule_kind s)
      → list_alerts codec q state rule_kind s ≡ err invalid_payload
  unfolding list_alerts alert_rows paginate_keyset start_of
  list_alerts-throws q state rule_kind s first ids some_row long =
      let rows = alert_rows codec q state rule_kind s in
      let limit = or_else q.limit 50 in
      let binding = alert_binding q state rule_kind in
      let (row, (before, (split, is_last))) = page-split limit rows some_row long in
      let id : IsRuleId row.id =
        All-middle alert_place (λ a. IsRuleId a.id) before row []
          (subst (All (λ a. IsRuleId a.id)) split
            (All-take (λ a. IsRuleId a.id) limit rows (listed ids))) in
      rw (first, more_rows limit rows long, is_last, refused-next binding row id) refl
    where
      listed :
          All (λ a. IsRuleId a.id) s.alerts
          → All (λ a. IsRuleId a.id) (alert_rows codec q state rule_kind s)
      listed given =
          All-take (λ a. IsRuleId a.id) alerts_per_vps _
            (All-sort_by (λ a. IsRuleId a.id) (newest_first codec.before alert_place) _
              (All-filterb (λ a. IsRuleId a.id) (is_listed_alert codec q state rule_kind) s.alerts
                given))
