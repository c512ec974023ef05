-- ===== src/Monitoring/Lists.antt =====
-- packages/api/src/persistence/repositories/docker-monitoring.repository.ts: the paged lists of the store,
-- and the containers of the latest snapshot.
pub mod Unpaged
use vps_manager_nodejs.Prelude.{
  ℕ, String, Bool, true, false, not, ◌&&◌, List, [], ◌∷◌, ◌++◌, Option, none, some, or_else,
  is_some, filterb, take, map, if◌then◌else◌, str_eq, Outcome,
}
use vps_manager_nodejs.Monitoring.Records.{
  AlertState, open_alert, acknowledged, resolved, EventAction, create, start, restart, die, stop,
  kill, destroy, remove, health_status, stream_gap, daemon_restarted, ContainerFields, Sample,
  CurrentContainer, RollupScope, host, container, aggregate, Rollup, Event, Alert, Store,
}
use vps_manager_nodejs.Monitoring.Caps.{
  samples_per_vps, rollups_per_vps, events_per_vps, alerts_per_vps,
}
use vps_manager_nodejs.Monitoring.Cursor.{
  Codec, Binding, ListScope, host_scope, container_scope, events_scope, alerts_scope, rollups_scope,
  ListOrder, by_effective_at, by_event_occurred_at, by_last_observed_at, by_bucket_start,
  CursorError,
}
use vps_manager_nodejs.Monitoring.Pages.{
  Place, comes_first, in_range, newest_first, sort_by, Page, paginate_keyset,
}

-- DockerHostSamplesQuery, DockerContainerSamplesQuery, DockerEventsQuery, DockerAlertsQuery and
-- DockerRollupsQuery: what they have in common.
pub record ListQuery : Type 0 where
  pub vps_id : String
  pub limit : Option ℕ
  pub from : Option String
  pub to : Option String
  pub cursor : Option String
  pub agent_instance_id : Option String
  pub container_key : Option String

abbrev action_name : EventAction → String
action_name create = "create"
action_name start = "start"
action_name restart = "restart"
action_name die = "die"
action_name stop = "stop"
action_name kill = "kill"
action_name destroy = "destroy"
action_name remove = "remove"
action_name health_status = "health_status"
action_name stream_gap = "stream_gap"
action_name daemon_restarted = "daemon_restarted"

abbrev state_name : AlertState → String
state_name open_alert = "open"
state_name acknowledged = "acknowledged"
state_name resolved = "resolved"

abbrev rollup_scope_name : RollupScope → String
rollup_scope_name host = "host"
rollup_scope_name container = "container"
rollup_scope_name aggregate = "aggregate"

-- `wanted === undefined ? true : (given ?? undefined) === wanted`
abbrev pub matches : Option String → Option String → Bool
matches none given = true
matches (some wanted) none = false
matches (some wanted) (some given) = str_eq given wanted

abbrev named : {A : Type 0} → (A → String) → Option A → Option String
named name none = none
named name (some x) = some (name x)

-- alertTime
abbrev pub alert_time : Alert → String
alert_time a = or_else a.last_observed_at a.opened_at

abbrev pub alert_place : Alert → Place
alert_place a = (alert_time a, a.id)

abbrev key_of_container : Option ContainerFields → Option String
key_of_container none = none
key_of_container (some fields) = some fields.container_key

abbrev is_container_of : Option String → Option ContainerFields → Bool
is_container_of key none = false
is_container_of key (some fields) = matches (some fields.container_key) key

abbrev range_of : ListQuery → List (String × Option String)
range_of q = ("from", q.from) ∷ ("to", q.to) ∷ []

abbrev bound : ListQuery → ListScope → ListOrder → List (String × Option String) → Binding
bound q scope order filters = record {
  vps_id = q.vps_id;
  scope = scope;
  agent_instance_id = q.agent_instance_id;
  container_key = q.container_key;
  filters = filters;
  order = order;
}

pub alert_binding : ListQuery → Option AlertState → Option String → Binding
alert_binding q state rule_kind =
    bound q alerts_scope by_last_observed_at
      (("state", named state_name state) ∷ ("ruleKind", rule_kind) ∷ range_of q)

-- The filters of listAlerts.
abbrev pub is_listed_alert : Codec → ListQuery → Option AlertState → Option String → Alert → Bool
is_listed_alert codec q state rule_kind a =
    str_eq a.vps_id q.vps_id
    && matches (named state_name state) (some (state_name a.state))
    && matches rule_kind (some a.rule_kind)
    && matches q.agent_instance_id a.agent_instance_id
    && matches q.container_key a.container_key
    && in_range codec.before (alert_time a) q.from q.to

module _ {R : Type 0} (codec : Codec) where
  abbrev sample_place : Sample R → Place
  sample_place x = (x.effective_at, x.id)

  pub list_host_samples : ListQuery → Store R → Outcome CursorError (Page (Sample R))
  unfolding in_range newest_first sort_by paginate_keyset
  list_host_samples q s =
      paginate_keyset codec sample_place
        (record (bound q host_scope by_effective_at (range_of q)) {
          agent_instance_id = none;
          container_key = none;
        })
        (or_else q.limit 100) q.cursor
        (take samples_per_vps (
          sort_by (newest_first codec.before sample_place) (
            filterb (λ x. in_range codec.before x.effective_at q.from q.to)
              (filterb (λ x. str_eq x.vps_id q.vps_id && not (is_some x.container)) s.samples))))

  -- Here the query names its agent instance and its container.
  pub list_container_samples : ListQuery → Store R → Outcome CursorError (Page (Sample R))
  unfolding in_range newest_first sort_by paginate_keyset
  list_container_samples q s =
      paginate_keyset codec sample_place (bound q container_scope by_effective_at (range_of q))
        (or_else q.limit 100) q.cursor
        (take samples_per_vps (
          sort_by (newest_first codec.before sample_place) (
            filterb (λ x. in_range codec.before x.effective_at q.from q.to)
              (filterb
                (λ x.
                  str_eq x.vps_id q.vps_id
                  && matches (some x.agent_instance_id) q.agent_instance_id
                  && is_container_of q.container_key x.container)
                s.samples))))

  pub list_events : ListQuery → Option EventAction → Store R → Outcome CursorError (Page Event)
  unfolding in_range newest_first sort_by paginate_keyset
  list_events q action s =
      let place : Event → Place = λ x. (x.event_occurred_at, x.id) in
      paginate_keyset codec place
        (bound q events_scope by_event_occurred_at
          (("action", named action_name action) ∷ range_of q))
        (or_else q.limit 50) q.cursor
        (take events_per_vps (
          sort_by (newest_first codec.before place) (
            filterb
              (λ x.
                str_eq x.vps_id q.vps_id
                && matches (named action_name action) (some (action_name x.action))
                && matches q.agent_instance_id (some x.agent_instance_id)
                && matches q.container_key x.container_key
                && in_range codec.before x.event_occurred_at q.from q.to)
              s.events)))

  pub list_rollups :
      ListQuery → Option RollupScope → Store R → Outcome CursorError (Page (Rollup R))
  unfolding in_range newest_first sort_by paginate_keyset
  list_rollups q scope s =
      let place : Rollup R → Place = λ x. (x.bucket_start, x.id) in
      paginate_keyset codec place
        (bound q rollups_scope by_bucket_start
          (("scope", named rollup_scope_name scope) ∷ range_of q))
        (or_else q.limit 100) q.cursor
        (take rollups_per_vps (
          sort_by (newest_first codec.before place) (
            filterb
              (λ x.
                str_eq x.vps_id q.vps_id
                && matches q.agent_instance_id (some x.agent_instance_id)
                && matches (named rollup_scope_name scope) (some (rollup_scope_name x.scope))
                && matches q.container_key x.container_key
                && in_range codec.before x.bucket_start q.from q.to)
              s.rollups)))

  -- The rows of listAlerts.
  unfoldable pub alert_rows : ListQuery → Option AlertState → Option String → Store R → List Alert
  unfolding in_range newest_first sort_by
  alert_rows q state rule_kind s = take alerts_per_vps (
      sort_by (newest_first codec.before alert_place)
        (filterb (is_listed_alert codec q state rule_kind) s.alerts))

  unfoldable pub list_alerts :
      ListQuery → Option AlertState → Option String → Store R → Outcome CursorError (Page Alert)
  unfolding alert_rows alert_binding paginate_keyset
  list_alerts q state rule_kind s =
      paginate_keyset codec alert_place (alert_binding q state rule_kind) (or_else q.limit 50)
        q.cursor (alert_rows q state rule_kind s)

  newer_of : String → Sample R → Option (Sample R) → Option (Sample R)
  unfolding comes_first
  newer_of vps_id x none = if str_eq x.vps_id vps_id then some x else none
  newer_of vps_id x (some l) =
      if str_eq x.vps_id vps_id && comes_first codec.before (sample_place x) (sample_place l)
      then some x
      else some l

  -- The newest sample of a server, of equal ones the first.
  newest : String → List (Sample R) → Option (Sample R) → Option (Sample R)
  unfolding newer_of
  newest vps_id [] latest = latest
  newest vps_id (x ∷ xs) latest = newest vps_id xs (newer_of vps_id x latest)

  abbrev container_name : Sample R → String
  container_name x = or_else (key_of_container x.container) ""

  current_of : Sample R → List (CurrentContainer R)
  current_of x = elim x.container [
    | none ↦ []
    | some fields ↦
        (record {
          agent_instance_id = x.agent_instance_id;
          fields = fields;
          cpu_percent = x.metrics "cpuPercent";
          memory_usage_bytes = x.metrics "memoryUsageBytes";
          pids = x.metrics "pids";
        })
        ∷ []
  ]

  each_current : List (Sample R) → List (CurrentContainer R)
  unfolding current_of
  each_current [] = []
  each_current (x ∷ xs) = current_of x ++ each_current xs

  -- listCurrentContainers: the containers of the snapshot that the newest sample is of.
  pub list_current_containers : String → Store R → List (CurrentContainer R)
  unfolding newest sort_by each_current
  list_current_containers vps_id s = elim (newest vps_id s.samples none) [
    | none ↦ []
    | some l ↦ each_current (
        sort_by (λ a b. codec.before (container_name a) (container_name b))
          (filterb
            (λ x.
              str_eq x.vps_id vps_id
              && is_some x.container
              && str_eq x.agent_instance_id l.agent_instance_id
              && str_eq x.snapshot_id l.snapshot_id)
            s.samples))
  ]
