-- ===== src/Monitoring/ListTests.antt =====
-- Runs of the paged lists and of the pruning of
-- packages/api/src/persistence/repositories/docker-monitoring.repository.ts.
use Prim.Native.Char.{code}
use text.Mathlib.TextLemmas.{nil-append, cons-append}
use vps_manager_nodejs.Prelude.{
  ◌==◌, ◌||◌, not, ap, ◌∙◌, text_append, ℕ, ◌≡◌, refl, String, Bool, true, false, List, [], ◌∷◌,
  none, some, arith, inl, if◌then◌else◌, str_eq, ok, err,
}
use vps_manager_nodejs.Monitoring.Records.{open_alert, Alert, Store}
use vps_manager_nodejs.Monitoring.Cursor.{
  Codec, Binding, CursorPayload, host_scope, by_effective_at, invalid_payload, is_valid_payload,
}
use vps_manager_nodejs.Monitoring.Pages.{Place}
use vps_manager_nodejs.Monitoring.Pages.Following.{read_pages}
use vps_manager_nodejs.Monitoring.Pages.Complete.{read_pages-rows}
use vps_manager_nodejs.Monitoring.HostRule.{unavailable_alert_id}
use vps_manager_nodejs.Monitoring.Lists.{ListQuery, alert_rows, list_alerts}
use vps_manager_nodejs.Monitoring.Lists.Unpaged.{list_alerts-throws}
use vps_manager_nodejs.Monitoring.Upkeep.{empty_store}
use vps_manager_nodejs.Monitoring.Examples.{before, host_sample_of}
use vps_manager_nodejs.Monitoring.Pruning.{MaintenanceOptions}

abbrev binding : Binding
binding = record {
  vps_id = "v1";
  scope = host_scope;
  agent_instance_id = none;
  container_key = none;
  filters = ("from", none) ∷ [];
  order = by_effective_at;
}

abbrev payload : String → String → CursorPayload
payload at id = record { binding = record binding { filters = [] }; at = at; id = id }

-- Cursors of three rows, by their ids.
abbrev three : Codec
three = record {
  write = λ p. p.id;
  read = λ text.
      if str_eq text "c"
      then some (payload "t3" "c")
      else if str_eq text "b"
      then some (payload "t2" "b")
      else some (payload "t1" "a");
  before = before;
  is_sized = λ low high text. true;
  is_opaque = λ high text. true;
  is_iso_date = λ text. true;
}

abbrev rows : List Place
rows = ("t3", "c") ∷ ("t2", "b") ∷ ("t1", "a") ∷ []

-- Two pages of two rows give all three.
pages_of_two : read_pages (λ r. r) three binding 2 4 none rows ≡ ok rows
unfolding read_pages
pages_of_two = refl

read_pages-rows_example : read_pages (λ r. r) three binding 2 4 none rows ≡ ok rows
unfolding is_valid_payload
read_pages-rows_example =
    read_pages-rows (λ r. r) three binding 2 (omega arith) 4 rows
      ((refl, (refl, tt)), ((refl, tt), (tt, tt)))
      ((refl, refl), ((refl, refl), ((refl, refl), tt))) (omega arith)

abbrev has_colon : String → Bool
has_colon String.[] = false
has_colon (String.◌∷◌ c rest) = (code c == 58) || has_colon rest

has_colon-append : (a b : String) → has_colon (text_append a (text_append ":" b)) ≡ true
has_colon-append String.[] b =
    ap has_colon (nil-append (text_append ":" b) ∙ cons-append ":" String.[] b)
has_colon-append (String.◌∷◌ c rest) b =
    ap has_colon (cons-append c rest (text_append ":" b))
    ∙ later (code c == 58) (has_colon (text_append rest (text_append ":" b)))
        (has_colon-append rest b)
  where
    later : (x y : Bool) → y ≡ true → (x || y) ≡ true
    later x y e = ground arith

-- A codec that lets the ids without a colon through.
abbrev strict : Codec
strict = record three { is_opaque = λ high text. not (has_colon text) }

abbrev query : ListQuery
query = record {
  vps_id = "v1";
  limit = some 1;
  from = none;
  to = none;
  cursor = none;
  agent_instance_id = none;
  container_key = none;
}

abbrev alert_at : String → Alert
alert_at at = record {
  id = "v1:docker_unavailable";
  vps_id = "v1";
  agent_instance_id = some "a1";
  rule_kind = "docker_unavailable";
  container_key = none;
  state = open_alert;
  fingerprint = "docker_unavailable:v1:v1";
  opened_at = at;
  last_observed_at = some at;
  resolved_at = none;
  acknowledged_at = none;
  acknowledged_by = none;
  occurrences = 1;
  summary = "docker unavailable";
  resolution_reason = none;
}

abbrev two_alerts : Store ℕ
two_alerts = record (empty_store {R = ℕ}) { alerts = alert_at "t1" ∷ alert_at "t2" ∷ [] }

list_alerts-throws_example : list_alerts strict query none none two_alerts ≡ err invalid_payload
unfolding alert_rows unavailable_alert_id
list_alerts-throws_example =
    list_alerts-throws strict (λ size a b. ap not (has_colon-append a b)) query none none two_alerts
      refl (inl ("v1", refl), (inl ("v1", refl), tt)) (omega arith) (omega arith)

-- Of three samples one is too old, and one is left of the two others.
abbrev samples : Store ℕ
samples = record (empty_store {R = ℕ}) {
  samples = host_sample_of "a" "t1" ∷ host_sample_of "b" "t3" ∷ host_sample_of "c" "t2" ∷ [];
}

abbrev options : MaintenanceOptions
options = record {
  cutoff = "t2";
  rollup_cutoff = none;
  alert_cutoff = none;
  samples_per_vps = 1;
  events_per_vps = 1;
}

abbrev one_left : Store ℕ
one_left = record samples {
  samples = host_sample_of "b" "t3" ∷ [];
  last_maintenance_at = some "now";
}
