-- ===== src/Monitoring/Ingest/Ledger.antt =====
-- packages/api/src/persistence/repositories/docker-monitoring.repository.ts: what the clients of
-- `ingestUnit` rely on, as a ledger: of each server the active agent instance with its sequence, of
-- each instance the watermark up to which its events are stored, and the revision.
pub mod Booked
pub mod Refines
use vps_manager_nodejs.Prelude.{
  ℕ, suc, zero, ◌-◌, ◌≤◌, ◌<◌, min, max, String, Bool, true, false, ◌&&◌, List, [], ◌∷◌, ◌++◌,
  Option, none, some, find, filterb, length, ◌≡◌, ◌≢◌, refl, sym, ap, ◌∙◌, subst, fun_ext, inl, inr,
  arith, if◌then◌else◌, str_eq, eq_iff, eq_refl, Bool-cases, Option-cases, true-&&, take_last,
  find-filterb, take_last_all, first, Outcome, ok, err,
}
use vps_manager_nodejs.Monitoring.Records.{
  EventProtocol, IngestUnit, committed, Watermark, Latest, Store, IngestResult,
}
use vps_manager_nodejs.Monitoring.Runtime.{Runtime}
use vps_manager_nodejs.Monitoring.Tables.{upsert}
use vps_manager_nodejs.Monitoring.Tables.Upserts.{
  find-upsert, length-filterb-upsert, filterb-upsert_other,
}
use vps_manager_nodejs.Monitoring.Caps.{
  Owner, same_owner, same_owner_iff, of_key, truncate_per_key, enforce_caps, watermarks_per_vps,
}
use vps_manager_nodejs.Monitoring.Caps.Newest.{truncate-take_last}
use vps_manager_nodejs.Monitoring.Ingest.{
  is_watermark_of, get_watermark, proposed, with_history, next_watermarks, registered, continues,
  ingest_stale, ingest_unit,
}
use vps_manager_nodejs.Monitoring.Ingest.Judged.{Judges, history-Judges}
use vps_manager_nodejs.Monitoring.Ingest.Branches.{
  Succeeds, first_unit, same_instance, new_instance, Ingested, repeats_snapshot, repeats_batch,
  ignores, refuses, commits, ingest_unit-Ingested,
}

pub record Ledger : Type 0 where
  pub revision : ℕ
  pub active : String → Option (String × ℕ)
  pub mark : String → String → Option Watermark

abbrev pub identity_of : Option Latest → Option (String × ℕ)
identity_of none = none
identity_of (some l) = some (l.active_instance_id, l.source_sequence)

abbrev pub or_kept : Option Watermark → Option Watermark → Option Watermark
or_kept none kept = kept
or_kept (some w) kept = some w

abbrev pub owner_of : Watermark → Owner
owner_of w = (w.vps_id, w.agent_instance_id)

abbrev pub rows_of : Owner → List Watermark → List Watermark
rows_of owner rows = filterb (of_key same_owner owner_of owner) rows

module _ {R : Type 0} where
  -- A unit may follow another one of its server: of the same instance with a sequence that is not
  -- smaller, of another instance with a greater one.
  pub data Follows (u : IngestUnit R) : Option (String × ℕ) → Type 0 where
    first_of_all : Follows u none
    goes_on :
        (sequence : ℕ)
        → sequence ≤ u.source_sequence
        → Follows u (some (u.agent_instance_id, sequence))
    takes_over :
        (instance : String) (sequence : ℕ)
        → instance ≢ u.agent_instance_id
        → sequence < u.source_sequence
        → Follows u (some (instance, sequence))

  -- What accepting a unit writes: its instance and sequence, its watermark where it proposes one, and
  -- the next revision.
  abbrev pub accept : IngestUnit R → Ledger → Ledger
  accept u l = record {
    revision = suc l.revision;
    active = λ v.
        if str_eq u.vps_id v then some (u.agent_instance_id, u.source_sequence) else l.active v;
    mark = λ v i.
        if same_owner (u.vps_id, u.agent_instance_id) (v, i)
        then or_kept (proposed u.event_protocol) (l.mark v i)
        else l.mark v i;
  }

  -- The events of a unit start at a stored watermark: at the same time, with the same digests.
  abbrev pub StartsAt : Runtime R → IngestUnit R → Option Watermark → Type 0
  StartsAt runtime u mark =
      (protocol : EventProtocol) (w : Watermark)
      → u.event_protocol ≡ some protocol
      → mark ≡ some w
      → (protocol.from_watermark.time_nano ≡ w.time_nano)
        × (runtime.same_boundary protocol.from_watermark.boundary_digests w.boundary_digests ≡ true)

  module _ (runtime : Runtime R) (max_bytes : ℕ) where
    -- A call leaves the ledger as it is, or accepts a unit that follows the active one and whose
    -- events start where the stored ones end.
    pub data Books (u : IngestUnit R) (l : Ledger) : Ledger → Type 0 where
      keeps : Books u l l
      accepts :
          Follows u (l.active u.vps_id)
          → StartsAt runtime u (l.mark u.vps_id u.agent_instance_id)
          → Books u l (accept u l)

  abbrev pub ledger_of : Store R → Ledger
  ledger_of s = record {
    revision = s.revision;
    active = λ v. identity_of (s.latest_by_vps v);
    mark = λ v i. get_watermark v i s;
  }

  -- An agent instance has one watermark at most.
  abbrev pub OneWatermarkEach : Store R → Type 0
  OneWatermarkEach s = (owner : Owner) → length (rows_of owner s.watermarks) ≤ 1

  -- The watermark that a unit proposes is its own.
  abbrev pub ProposesOwn : IngestUnit R → Type 0
  ProposesOwn u =
      (w : Watermark)
      → proposed u.event_protocol ≡ some w
      → is_watermark_of u.vps_id u.agent_instance_id w ≡ true
