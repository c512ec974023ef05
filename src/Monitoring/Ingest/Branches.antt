-- ===== src/Monitoring/Ingest/Branches.antt =====
-- packages/api/src/persistence/repositories/docker-monitoring.repository.ts: what each way of returning
-- from `ingestUnit` does to the store.
use vps_manager_nodejs.Prelude.{
  ℕ, suc, ◌≤◌, ◌<◌, true, Option, none, some, or_else, find, ◌≡◌, ◌≢◌, sym, ap, inl, inr, arith,
  ltb, leb, ltb→lt, str_eq, eq_iff, Bool-cases, Option-cases, ok, >>=-eq-ok, ok-eq, err-ok, subst,
}
use vps_manager_nodejs.Monitoring.Records.{
  IngestUnit, committed, already_committed, replay_ignored, rejected, Snapshot, Batch, Latest,
  Store, IngestResult,
}
use vps_manager_nodejs.Monitoring.Runtime.{Runtime}
use vps_manager_nodejs.Monitoring.Caps.{enforce_caps}
use vps_manager_nodejs.Monitoring.Ingest.{
  is_snapshot_of, get_watermark, batch_of, result_of, repeated, with_history, with_storage,
  with_alerts, registered, commit, continues, ingest_history, ingest_events, ingest_stale,
  ingest_sequence, ingest_known_batch, ingest_known_snapshot, ingest_unit,
}
use vps_manager_nodejs.Monitoring.Ingest.Judged.{Judges, with_alerts-Judges}

module _ {R : Type 0} where
  -- The unit comes after the latest one of its server: from the same agent instance not with a
  -- smaller sequence, from another one with a greater sequence.
  pub data Succeeds (u : IngestUnit R) : Option Latest → Type 0 where
    first_unit : Succeeds u none
    same_instance :
        (prior : Latest)
        → prior.active_instance_id ≡ u.agent_instance_id
        → prior.source_sequence ≤ u.source_sequence
        → Succeeds u (some prior)
    new_instance :
        (prior : Latest)
        → prior.active_instance_id ≢ u.agent_instance_id
        → prior.source_sequence < u.source_sequence
        → Succeeds u (some prior)

  -- The unit's snapshot and batch are not in the store yet.
  pub record IsFresh (u : IngestUnit R) (s : Store R) : Type 0 where
    pub snapshot : find (is_snapshot_of u.vps_id u.snapshot_id) s.snapshots ≡ none
    pub batch : batch_of u s ≡ none

  module _ (runtime : Runtime R) (max_bytes : ℕ) where
    -- How a call returns: with what it leaves and what it answers.
    pub data Ingested (u : IngestUnit R) (s after : Store R) (answer : IngestResult) : Type 0 where
      repeats_snapshot :
          (known : Snapshot)
          → find (is_snapshot_of u.vps_id u.snapshot_id) s.snapshots ≡ some known
          → known.request_digest ≡ u.request_digest
          → after ≡ s
          → answer ≡ result_of u (repeated known.status) known.snapshot_id known.revision
          → Ingested u s after answer
      repeats_batch :
          (known : Batch)
          → batch_of u s ≡ some known
          → known.request_digest ≡ u.request_digest
          → after ≡ s
          → answer
            ≡ result_of u already_committed known.snapshot_id (or_else known.revision s.revision)
          → Ingested u s after answer
      ignores :
          IsFresh u s
          → (prior : Latest) → s.latest_by_vps u.vps_id ≡ some prior
          → prior.active_instance_id ≡ u.agent_instance_id
          → u.source_sequence < prior.source_sequence
          → after ≡ (ingest_stale runtime max_bytes u s).0
          → answer ≡ result_of u replay_ignored u.snapshot_id s.revision
          → Ingested u s after answer
      refuses :
          IsFresh u s
          → max_bytes < runtime.json_bytes (with_history u s)
          → after ≡ s
          → answer.ingest_status ≡ rejected
          → Ingested u s after answer
      commits :
          IsFresh u s
          → Succeeds u (s.latest_by_vps u.vps_id)
          → continues runtime max_bytes u.event_protocol
              (get_watermark u.vps_id u.agent_instance_id s)
            ≡ true
          → runtime.json_bytes (with_history u s) ≤ max_bytes
          → (judged : Store R) → Judges (with_storage u (with_history u s)) judged
          → after ≡ enforce_caps (registered u judged)
          → answer ≡ result_of u committed u.snapshot_id (suc judged.revision)
          → Ingested u s after answer

    ingest_history-Ingested :
        (u : IngestUnit R) (s after : Store R) (answer : IngestResult)
        → IsFresh u s
        → Succeeds u (s.latest_by_vps u.vps_id)
        → continues runtime max_bytes u.event_protocol
            (get_watermark u.vps_id u.agent_instance_id s)
          ≡ true
        → ingest_history runtime max_bytes u s ≡ ok (after, answer)
        → Ingested u s after answer
    unfolding ingest_history commit
    ingest_history-Ingested u s after answer fresh succeeds goes_on returned =
        elim (Bool-cases (ltb max_bytes (runtime.json_bytes (with_history u s)))) [
          | inl full ↦
              let e = ok-eq (rw (full) at returned) in
              refuses fresh (ltb→lt _ _ full) (sym (ap (λ p. p.0) e))
                (sym (ap (λ p. p.1.ingest_status) e))
          | inr room ↦
              let (judged, done, e) =
                >>=-eq-ok (with_alerts runtime max_bytes u (with_storage u (with_history u s)))
                  (λ judged. ok (
                    enforce_caps (registered u judged),
                    result_of u committed u.snapshot_id (suc judged.revision),
                  ))
                  (rw (room) at returned) in
              commits fresh succeeds goes_on (ground arith) judged
                (with_alerts-Judges runtime max_bytes u (with_storage u (with_history u s)) judged
                  done)
                (sym (ap (λ p. p.0) (ok-eq e))) (sym (ap (λ p. p.1) (ok-eq e)))
        ]

    ingest_events-Ingested :
        (u : IngestUnit R) (s after : Store R) (answer : IngestResult)
        → IsFresh u s
        → Succeeds u (s.latest_by_vps u.vps_id)
        → ingest_events runtime max_bytes u s ≡ ok (after, answer)
        → Ingested u s after answer
    unfolding ingest_events
    ingest_events-Ingested u s after answer fresh succeeds returned =
        elim (Bool-cases (
          continues runtime max_bytes u.event_protocol
            (get_watermark u.vps_id u.agent_instance_id s))) [
              | inl goes_on ↦
                  ingest_history-Ingested u s after answer fresh succeeds goes_on
                    (rw (goes_on) at returned)
              | inr jumps ↦ err-ok (rw (jumps) at returned)
            ]

    -- The three ways past the tests of the source sequence against a latest unit.
    ingest_after-Ingested :
        (u : IngestUnit R) (s after : Store R) (answer : IngestResult) (prior : Latest)
        → IsFresh u s
        → s.latest_by_vps u.vps_id ≡ some prior
        → ingest_sequence runtime max_bytes u s ≡ ok (after, answer)
        → Ingested u s after answer
    unfolding ingest_sequence ingest_stale
    ingest_after-Ingested u s after answer prior fresh latest returned =
        elim (Bool-cases (str_eq prior.active_instance_id u.agent_instance_id)) [
          | inl same ↦
              let instance = (eq_iff prior.active_instance_id u.agent_instance_id).0 same in
              elim (Bool-cases (ltb u.source_sequence prior.source_sequence)) [
                | inl older ↦
                    let e = ok-eq (rw (latest, same, older, ingest_sequence) at returned) in
                    ignores fresh prior latest instance (ltb→lt _ _ older) (sym (ap (λ p. p.0) e))
                      (sym (ap (λ p. p.1) e))
                | inr newer ↦
                    ingest_events-Ingested u s after answer fresh
                      (subst (Succeeds u) (sym latest)
                        (same_instance prior instance (ground arith)))
                      (rw (latest, same, newer, ingest_sequence) at returned)
              ]
          | inr other ↦ elim (Bool-cases (leb u.source_sequence prior.source_sequence)) [
            | inl older ↦ err-ok (rw (latest, other, older, ingest_sequence) at returned)
            | inr newer ↦
                ingest_events-Ingested u s after answer fresh
                  (subst (Succeeds u) (sym latest) (
                    new_instance prior
                      (λ instance.
                        let same =
                          (eq_iff prior.active_instance_id u.agent_instance_id).1 instance in
                        cc)
                      (ground arith)))
                  (rw (latest, other, newer, ingest_sequence) at returned)
          ]
        ]

    ingest_sequence-Ingested :
        (u : IngestUnit R) (s after : Store R) (answer : IngestResult)
        → IsFresh u s
        → ingest_sequence runtime max_bytes u s ≡ ok (after, answer)
        → Ingested u s after answer
    unfolding ingest_sequence
    ingest_sequence-Ingested u s after answer fresh returned =
        elim (Option-cases (s.latest_by_vps u.vps_id)) [
          | inl never ↦
              ingest_events-Ingested u s after answer fresh
                (subst (Succeeds u) (sym never) first_unit)
                (rw (never, ingest_sequence) at returned)
          | inr (prior, latest) ↦ ingest_after-Ingested u s after answer prior fresh latest returned
        ]

    pub ingest_unit-Ingested :
        (u : IngestUnit R) (s after : Store R) (answer : IngestResult)
        → ingest_unit runtime max_bytes u s ≡ ok (after, answer)
        → Ingested u s after answer
    unfolding ingest_unit ingest_known_snapshot ingest_known_batch
    ingest_unit-Ingested u s after answer returned =
        elim (Option-cases (find (is_snapshot_of u.vps_id u.snapshot_id) s.snapshots)) [
          | inr (known, found) ↦ elim (Bool-cases (str_eq known.request_digest u.request_digest)) [
            | inl same ↦
                let e = ok-eq (rw (found, same, ingest_unit) at returned) in
                repeats_snapshot known found ((eq_iff known.request_digest u.request_digest).0 same)
                  (sym (ap (λ p. p.0) e)) (sym (ap (λ p. p.1) e))
            | inr other ↦ err-ok (rw (found, other, ingest_unit) at returned)
          ]
          | inl new ↦ elim (Option-cases (batch_of u s)) [
            | inr (known, found) ↦
                elim (Bool-cases (str_eq known.request_digest u.request_digest)) [
                  | inl same ↦
                      let e = ok-eq (rw (new, found, same, ingest_unit) at returned) in
                      repeats_batch known found
                        ((eq_iff known.request_digest u.request_digest).0 same)
                        (sym (ap (λ p. p.0) e)) (sym (ap (λ p. p.1) e))
                  | inr other ↦ err-ok (rw (new, found, other, ingest_unit) at returned)
                ]
            | inl unknown ↦
                ingest_sequence-Ingested u s after answer
                  (record { snapshot = new; batch = unknown })
                  (rw (new, unknown, ingest_unit) at returned)
          ]
        ]
