-- ===== src/Monitoring/Ingest.antt =====
-- packages/api/src/persistence/repositories/docker-monitoring.repository.ts: `ingestUnit`, `getWatermark`
-- and `getIngestBatch`. The file lock makes a call one step on the store, and a call that throws writes
-- nothing. `max_bytes` is the option maxBytes.
pub mod Judged
pub mod Branches
pub mod Replay
pub mod Ledger
pub mod Bounds
use vps_manager_nodejs.Prelude.{
  ℕ, suc, String, Bool, true, false, not, ◌&&◌, List, [], ◌∷◌, ◌++◌, Option, none, some, or_else,
  find, ltb, leb, ◌==◌, if◌then◌else◌, str_eq, Outcome, ok, err, ◌>>=◌,
}
use vps_manager_nodejs.Alerts.Unavailable as unavailable_rule
use vps_manager_nodejs.Alerts.RuleState as typed_rule
use vps_manager_nodejs.Monitoring.Records.{
  Sample, Event, Watermark, EventProtocol, StorageLatest, IngestUnit, IngestStatus, committed,
  already_committed, replay_ignored, rejected, Snapshot, Batch, Latest, Store, ConflictCode,
  snapshot_conflict, request_digest_mismatch, active_instance_conflict, watermark_conflict,
  IngestResult,
}
use vps_manager_nodejs.Monitoring.Runtime.{Runtime}
use vps_manager_nodejs.Monitoring.Tables.{upsert, set_entry, truthy}
use vps_manager_nodejs.Monitoring.Caps.{enforce_caps}
use vps_manager_nodejs.Monitoring.HostRule.{ingest_availability}
use vps_manager_nodejs.Monitoring.Evidence.{typed_items}
use vps_manager_nodejs.Monitoring.TypedRules.{typed_steps}

-- What a call may throw.
pub data Error : Type 0 where
  conflict : ConflictCode → Error
  unavailable_error : unavailable_rule.Error → Error
  typed_error : typed_rule.Error → Error

abbrev pub is_watermark_of : String → String → Watermark → Bool
is_watermark_of vps_id instance w = str_eq w.vps_id vps_id && str_eq w.agent_instance_id instance

abbrev pub is_batch_of : String → String → String → Batch → Bool
is_batch_of vps_id instance batch_id b =
    str_eq b.vps_id vps_id && str_eq b.agent_instance_id instance && str_eq b.batch_id batch_id

abbrev pub is_snapshot_of : String → String → Snapshot → Bool
is_snapshot_of vps_id snapshot_id s = str_eq s.vps_id vps_id && str_eq s.snapshot_id snapshot_id

abbrev pub proposed : Option EventProtocol → Option Watermark
proposed none = none
proposed (some protocol) = some protocol.proposed_watermark

abbrev is_replay_ignored : IngestStatus → Bool
is_replay_ignored replay_ignored = true
is_replay_ignored _ = false

-- The status for a snapshot that the store has, by the status that it was stored with.
abbrev pub repeated : IngestStatus → IngestStatus
repeated status = if is_replay_ignored status then replay_ignored else already_committed

-- Whether a unit of this sequence replaces the storage that is kept for its server.
abbrev pub replaces_storage : ℕ → Option StorageLatest → Option Latest → Bool
replaces_storage sequence none prior = true
replaces_storage sequence (some storage) none = true
replaces_storage sequence (some storage) (some prior) = leb prior.source_sequence sequence

module _ {R : Type 0} where
  pub get_watermark : String → String → Store R → Option Watermark
  get_watermark vps_id instance s = find (is_watermark_of vps_id instance) s.watermarks

  pub get_ingest_batch : String → String → String → Store R → Option Batch
  get_ingest_batch vps_id instance batch_id s =
      find (is_batch_of vps_id instance batch_id) s.batches

  -- `batchKey`: no batch where the unit names none.
  pub batch_of : IngestUnit R → Store R → Option Batch
  unfolding get_ingest_batch
  batch_of u s = elim (truthy u.batch_id) [
    | none ↦ none
    | some batch_id ↦ get_ingest_batch u.vps_id u.agent_instance_id batch_id s
  ]

  -- The answer about `u`.
  abbrev pub result_of : IngestUnit R → IngestStatus → String → ℕ → IngestResult
  result_of u status snapshot_id revision = record {
    vps_id = u.vps_id;
    ingest_status = status;
    snapshot_id = snapshot_id;
    agent_instance_id = u.agent_instance_id;
    batch_id = u.batch_id;
    received_at = u.received_at;
    committed_watermark = proposed u.event_protocol;
    revision = revision;
  }

  abbrev pub snapshot_of : IngestUnit R → IngestStatus → ℕ → Snapshot
  snapshot_of u status revision = record {
    vps_id = u.vps_id;
    snapshot_id = u.snapshot_id;
    agent_instance_id = u.agent_instance_id;
    request_digest = u.request_digest;
    source_sequence = u.source_sequence;
    status = status;
    received_at = u.received_at;
    revision = revision;
  }

  -- The watermarks with the unit's proposal.
  pub next_watermarks : IngestUnit R → List Watermark → List Watermark
  next_watermarks u rows = elim (proposed u.event_protocol) [
    | none ↦ rows
    | some w ↦ upsert (is_watermark_of u.vps_id u.agent_instance_id) w rows
  ]

  -- The history of the store with that of the unit: `historyCandidate`, and the first writes of a
  -- commit.
  pub with_history : IngestUnit R → Store R → Store R
  unfolding next_watermarks
  with_history u s = record s {
    samples = s.samples ++ u.host_sample ∷ u.container_samples;
    events = s.events ++ u.events;
    watermarks = next_watermarks u s.watermarks;
  }

  pub with_storage : IngestUnit R → Store R → Store R
  with_storage u s = elim u.storage_latest [
    | none ↦ s
    | some storage ↦
        if replaces_storage u.source_sequence (s.latest_storage u.vps_id) (s.latest_by_vps u.vps_id)
        then record s { latest_storage = set_entry u.vps_id (some storage) s.latest_storage }
        else s
  ]

  abbrev pub latest_of : IngestUnit R → ℕ → Latest
  latest_of u revision = record {
    active_instance_id = u.agent_instance_id;
    snapshot_id = u.snapshot_id;
    source_sequence = u.source_sequence;
    received_at = u.received_at;
    updated_at = u.received_at;
    revision = revision;
    available = u.available;
    error_code = u.error_code;
    engine_version = u.engine_version;
    api_version = u.api_version;
  }

  pub with_batch : IngestUnit R → ℕ → List Batch → List Batch
  with_batch u revision rows = elim (truthy u.batch_id) [
    | none ↦ rows
    | some batch_id ↦
        rows
        ++ (record {
          vps_id = u.vps_id;
          agent_instance_id = u.agent_instance_id;
          batch_id = batch_id;
          snapshot_id = u.snapshot_id;
          request_digest = u.request_digest;
          revision = some revision;
        })
          ∷ []
  ]

  -- The last writes of a commit: the revision, the latest identity, the snapshot and the batch.
  pub registered : IngestUnit R → Store R → Store R
  unfolding with_batch
  registered u s = record s {
    revision = suc s.revision;
    latest_by_vps = set_entry u.vps_id (some (latest_of u (suc s.revision))) s.latest_by_vps;
    snapshots = s.snapshots ++ snapshot_of u committed (suc s.revision) ∷ [];
    batches = with_batch u (suc s.revision) s.batches;
  }

module _ {R : Type 0} (runtime : Runtime R) (max_bytes : ℕ) where
  pub unavailable_or : Outcome unavailable_rule.Error (Store R) → Outcome Error (Store R)
  unavailable_or (ok s) = ok s
  unavailable_or (err thrown) = err (unavailable_error thrown)

  pub typed_or : Outcome typed_rule.Error (Store R) → Outcome Error (Store R)
  typed_or (ok s) = ok s
  typed_or (err thrown) = err (typed_error thrown)

  -- The rule docker_unavailable on the unit.
  pub with_availability : IngestUnit R → Store R → Outcome Error (Store R)
  unfolding unavailable_or ingest_availability
  with_availability u s = elim u.monitoring [
    | none ↦ ok s
    | some monitoring ↦ unavailable_or (
        ingest_availability runtime u.vps_id u.agent_instance_id monitoring.availability
          u.host_sample.collected_at s)
  ]

  -- The alert rules on the evidence of the unit.
  pub with_alerts : IngestUnit R → Store R → Outcome Error (Store R)
  unfolding with_availability typed_or typed_steps typed_items
  with_alerts u s = with_availability u s >>= λ next.
      typed_or (typed_steps runtime u.vps_id (typed_items runtime u) next)

  -- A unit that passed every test is committed.
  pub commit : IngestUnit R → Store R → Outcome Error (Store R × IngestResult)
  unfolding with_history with_storage with_alerts registered
  commit u s = with_alerts u (with_storage u (with_history u s)) >>= λ judged. ok (
    enforce_caps (registered u judged),
    result_of u committed u.snapshot_id (suc judged.revision),
  )

  -- The test of the store's size.
  pub ingest_history : IngestUnit R → Store R → Outcome Error (Store R × IngestResult)
  unfolding with_history commit
  ingest_history u s =
      if ltb max_bytes (runtime.json_bytes (with_history u s))
      then ok
          (s, record (result_of u rejected u.snapshot_id s.revision) { committed_watermark = none })
      else commit u s

  -- compareDockerWatermarks(a, b) === 0
  abbrev pub same_watermark : Watermark → Watermark → Bool
  same_watermark a b =
      (a.time_nano == b.time_nano) && runtime.same_boundary a.boundary_digests b.boundary_digests

  -- Whether the unit's events start at the watermark that the store has.
  abbrev pub continues : Option EventProtocol → Option Watermark → Bool
  continues none watermark = true
  continues (some protocol) none = true
  continues (some protocol) (some w) = same_watermark protocol.from_watermark w

  -- The test of the watermark.
  pub ingest_events : IngestUnit R → Store R → Outcome Error (Store R × IngestResult)
  unfolding get_watermark ingest_history
  ingest_events u s =
      if continues u.event_protocol (get_watermark u.vps_id u.agent_instance_id s)
      then ingest_history u s
      else err (conflict watermark_conflict)

  -- A unit of the active instance that is older than the latest one is noted and ignored.
  pub ingest_stale : IngestUnit R → Store R → Store R × IngestResult
  ingest_stale u s = (
    enforce_caps
        (record s { snapshots = s.snapshots ++ snapshot_of u replay_ignored s.revision ∷ [] }),
    result_of u replay_ignored u.snapshot_id s.revision,
  )

  -- The tests of the source sequence against the latest unit of the server.
  pub ingest_sequence : IngestUnit R → Store R → Outcome Error (Store R × IngestResult)
  unfolding ingest_events ingest_stale
  ingest_sequence u s = elim (s.latest_by_vps u.vps_id) [
    | none ↦ ingest_events u s
    | some prior ↦
        if str_eq prior.active_instance_id u.agent_instance_id
        then if ltb u.source_sequence prior.source_sequence
          then ok (ingest_stale u s)
          else ingest_events u s
        else if leb u.source_sequence prior.source_sequence
        then err (conflict active_instance_conflict)
        else ingest_events u s
  ]

  -- A unit whose batch the store has.
  pub ingest_known_batch : IngestUnit R → Store R → Batch → Outcome Error (Store R × IngestResult)
  ingest_known_batch u s b =
      if str_eq b.request_digest u.request_digest
      then ok (s, result_of u already_committed b.snapshot_id (or_else b.revision s.revision))
      else err (conflict request_digest_mismatch)

  -- A unit whose snapshot the store has.
  pub ingest_known_snapshot :
      IngestUnit R → Store R → Snapshot → Outcome Error (Store R × IngestResult)
  ingest_known_snapshot u s known =
      if str_eq known.request_digest u.request_digest
      then ok (s, result_of u (repeated known.status) known.snapshot_id known.revision)
      else err (conflict snapshot_conflict)

  -- ingestUnit
  unfoldable pub ingest_unit : IngestUnit R → Store R → Outcome Error (Store R × IngestResult)
  unfolding batch_of ingest_sequence ingest_known_batch ingest_known_snapshot
  ingest_unit u s = elim (find (is_snapshot_of u.vps_id u.snapshot_id) s.snapshots) [
    | some known ↦ ingest_known_snapshot u s known
    | none ↦ elim (batch_of u s) [ some b ↦ ingest_known_batch u s b | none ↦ ingest_sequence u s ]
  ]
