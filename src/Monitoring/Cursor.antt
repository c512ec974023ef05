-- ===== src/Monitoring/Cursor.antt =====
-- packages/api/src/docker/docker-monitoring.schemas.ts: the cursors of the paged lists. Base64 and JSON
-- text belong to the runtime and the field checks to the schema library: both are parameters.
pub mod RoundTrip
use vps_manager_nodejs.Prelude.{
  ℕ, String, Bool, true, false, not, ◌&&◌, List, [], ◌∷◌, ◌++◌, Option, none, some, if◌then◌else◌,
  str_eq, every, Outcome, ok, err, guard, ◌>>◌,
}

-- DockerListScope
pub data ListScope : Type 0 where
  host_scope container_scope events_scope alerts_scope rollups_scope : ListScope

pub data ListOrder : Type 0 where
  by_effective_at by_event_occurred_at by_last_observed_at by_bucket_start : ListOrder

abbrev pub scope_name : ListScope → String
scope_name host_scope = "host"
scope_name container_scope = "container"
scope_name events_scope = "events"
scope_name alerts_scope = "alerts"
scope_name rollups_scope = "rollups"

abbrev pub order_name : ListOrder → String
order_name by_effective_at = "effectiveAt,id"
order_name by_event_occurred_at = "eventOccurredAt,id"
order_name by_last_observed_at = "lastObservedAt,id"
order_name by_bucket_start = "bucketStart,id"

abbrev pub Filters : Type 0
Filters = List (String × Option String)

-- CursorBinding
pub record Binding : Type 0 where
  pub vps_id : String
  pub scope : ListScope
  pub agent_instance_id : Option String
  pub container_key : Option String
  pub filters : Filters
  pub order : ListOrder

-- DockerCursorPayload: what a list is bound to, and the last row of a page.
pub record CursorPayload : Type 0 where
  pub binding : Binding
  pub at : String
  pub id : String

pub data CursorError : Type 0 where
  malformed_cursor invalid_payload vps_mismatch scope_mismatch : CursorError
  instance_mismatch container_mismatch order_mismatch filters_mismatch : CursorError

-- The parameters: the text of a payload, the payload of a text, comparison of text, and the checks of
-- zod. JSON does not write a filter that is undefined.
pub record Codec : Type 0 where
  pub write : CursorPayload → String
  pub read : String → Option CursorPayload
  pub before : String → String → Bool
  -- `z.string().min(low).max(high)`
  pub is_sized : ℕ → ℕ → String → Bool
  -- `z.string().min(1).max(high).regex(/^[A-Za-z0-9._~-]+$/)`
  pub is_opaque : ℕ → String → Bool
  -- `z.string().datetime({ offset: true })`
  pub is_iso_date : String → Bool

abbrev pub same_optional : Option String → Option String → Bool
same_optional none none = true
same_optional (some a) (some b) = str_eq a b
same_optional _ _ = false

abbrev pub optional : (String → Bool) → Option String → Bool
optional p none = true
optional p (some t) = p t

-- The entries that are not undefined.
abbrev pub defined : Filters → List (String × String)
defined [] = []
defined ((key, none) ∷ rest) = defined rest
defined ((key, some value) ∷ rest) = (key, value) ∷ defined rest

abbrev pub same_entries : List (String × String) → List (String × String) → Bool
same_entries [] [] = true
same_entries ((a, x) ∷ mine) ((b, y) ∷ theirs) =
    (str_eq a b && str_eq x y) && same_entries mine theirs
same_entries _ _ = false

module _ (codec : Codec) where
  insert_entry : String × String → List (String × String) → List (String × String)
  insert_entry (k, v) [] = (k, v) ∷ []
  insert_entry (k, v) ((other, x) ∷ rest) =
      let later = insert_entry (k, v) rest in
      if codec.before other k then (other, x) ∷ later else (k, v) ∷ (other, x) ∷ rest

  -- The entries with their keys sorted.
  sorted_entries : List (String × String) → List (String × String)
  unfolding insert_entry
  sorted_entries [] = []
  sorted_entries (entry ∷ rest) = insert_entry entry (sorted_entries rest)

  pub same_filters : Filters → Filters → Bool
  unfolding sorted_entries
  same_filters a b = same_entries (sorted_entries (defined a)) (sorted_entries (defined b))

  -- cursorPayloadSchema
  unfoldable pub is_valid_payload : CursorPayload → Bool
  is_valid_payload p =
      codec.is_sized 1 128 p.binding.vps_id
      && optional (codec.is_opaque 32) p.binding.agent_instance_id
      && optional (codec.is_opaque 32) p.binding.container_key
      && every (λ f. codec.is_sized 0 64 f.0 && optional (codec.is_sized 0 512) f.1)
          p.binding.filters
      && codec.is_iso_date p.at
      && codec.is_opaque 128 p.id

  -- encodeDockerCursor
  unfoldable pub encode_cursor : CursorPayload → Outcome CursorError String
  unfolding is_valid_payload
  encode_cursor p = if is_valid_payload p then ok (codec.write p) else err invalid_payload

  -- decodeDockerCursor
  unfoldable pub decode_cursor : String → Outcome CursorError CursorPayload
  unfolding is_valid_payload
  decode_cursor text = elim (codec.read text) [
    | none ↦ err malformed_cursor
    | some p ↦ if is_valid_payload p then ok p else err malformed_cursor
  ]

  -- assertDockerCursorBinding
  unfoldable pub assert_binding : Binding → Binding → Outcome CursorError (Unit {0})
  unfolding same_filters
  assert_binding given wanted =
      guard (str_eq given.vps_id wanted.vps_id) vps_mismatch
      >> guard (str_eq (scope_name given.scope) (scope_name wanted.scope)) scope_mismatch
      >> guard (same_optional given.agent_instance_id wanted.agent_instance_id) instance_mismatch
      >> guard (same_optional given.container_key wanted.container_key) container_mismatch
      >> guard (str_eq (order_name given.order) (order_name wanted.order)) order_mismatch
      >> guard (same_filters given.filters wanted.filters) filters_mismatch
