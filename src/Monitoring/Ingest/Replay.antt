-- ===== src/Monitoring/Ingest/Replay.antt =====
-- packages/api/src/persistence/repositories/docker-monitoring.repository.ts: `ingestUnit` on a unit that
-- is sent again.
use vps_manager_nodejs.Prelude.{
  Bool, true, List, [], ◌∷◌, ◌++◌, none, some, find, ◌≡◌, refl, sym, ap, ◌∙◌, inl, inr, ℕ, suc,
  if◌then◌else◌, str_eq, eq_refl, Bool-cases, true-&&, ok, err,
}
use vps_manager_nodejs.Monitoring.Records.{
  IngestUnit, IngestStatus, committed, already_committed, replay_ignored, rejected, Store,
  IngestResult, snapshot_conflict,
}
use vps_manager_nodejs.Monitoring.Runtime.{Runtime}
use vps_manager_nodejs.Monitoring.Caps.{enforce_caps}
use vps_manager_nodejs.Monitoring.Ingest.{
  conflict, is_snapshot_of, result_of, snapshot_of, repeated, with_history, registered,
  ingest_known_snapshot, ingest_unit,
}
use vps_manager_nodejs.Monitoring.Ingest.Judged.{history-Judges}
use vps_manager_nodejs.Monitoring.Ingest.Branches.{
  Ingested, repeats_snapshot, repeats_batch, ignores, refuses, commits, ingest_unit-Ingested,
}

find-append :
    {A : Type 0} (p : A → Bool) (xs : List A) (x : A)
    → find p xs ≡ none
    → p x ≡ true
    → find p (xs ++ x ∷ []) ≡ some x
find-append p [] x absent holds = rw holds refl
find-append p (y ∷ ys) x absent holds = elim (Bool-cases (p y)) [
  | inl found ↦ let e = rw (found) at absent in cc
  | inr other ↦ rw (other) (find-append p ys x (rw (other) at absent) holds)
]

repeated_never_committed : {B : Type 0} (status : IngestStatus) → repeated status ≡ committed → B
repeated_never_committed committed e = cc
repeated_never_committed already_committed e = cc
repeated_never_committed replay_ignored e = cc
repeated_never_committed rejected e = cc

module _ {R : Type 0} (runtime : Runtime R) (max_bytes : ℕ) where
  -- What a committed unit leaves of itself among the snapshots.
  committed_snapshot :
      (u : IngestUnit R) (s after : Store R) (answer : IngestResult)
      → Ingested runtime max_bytes u s after answer
      → answer.ingest_status ≡ committed
      → find (is_snapshot_of u.vps_id u.snapshot_id) after.snapshots
        ≡ some (snapshot_of u committed answer.revision)
  unfolding with_history enforce_caps registered
  committed_snapshot u s after answer (repeats_snapshot known found same unchanged answered)
        status =
      repeated_never_committed known.status (sym (ap (λ a. a.ingest_status) answered) ∙ status)
  committed_snapshot u s after answer (repeats_batch known found same unchanged answered) status =
      let e = sym (ap (λ a. a.ingest_status) answered) ∙ status in cc
  committed_snapshot u s after answer (ignores fresh prior latest instance older left answered)
        status =
      let e = sym (ap (λ a. a.ingest_status) answered) ∙ status in cc
  committed_snapshot u s after answer (refuses fresh full unchanged answered) status =
      let e = sym answered ∙ status in cc
  committed_snapshot u s after answer
        (commits fresh succeeds goes_on room judged judges left answered) status =
      let kept : judged.snapshots ≡ s.snapshots =
        ap (λ x. x.snapshots) (history-Judges u s judged judges) in
      let stored : after.snapshots ≡ s.snapshots ++ snapshot_of u committed answer.revision ∷ [] =
        ap (λ x. x.snapshots) left
        ∙ ap (λ rows. rows ++ snapshot_of u committed (suc judged.revision) ∷ []) kept
        ∙ ap (λ n. s.snapshots ++ snapshot_of u committed n ∷ [])
            (sym (ap (λ a. a.revision) answered)) in
      rw (stored) (
        find-append (is_snapshot_of u.vps_id u.snapshot_id) s.snapshots
          (snapshot_of u committed answer.revision) fresh.snapshot
          (true-&& _ _ (eq_refl u.vps_id) (eq_refl u.snapshot_id)))

  -- A unit that was committed is committed once: sent again with the same digest, whatever else it then
  -- says and whatever its sequence is, it changes nothing and is answered `already_committed` with the
  -- revision of the first time; with another digest it is refused as `snapshot_conflict`.
  pub committed_once :
      (u again : IngestUnit R) (s after : Store R) (answer : IngestResult)
      → ingest_unit runtime max_bytes u s ≡ ok (after, answer)
      → answer.ingest_status ≡ committed
      → again.vps_id ≡ u.vps_id
      → again.snapshot_id ≡ u.snapshot_id
      → ingest_unit runtime max_bytes again after ≡ (
          if str_eq u.request_digest again.request_digest
          then ok (after, result_of again already_committed u.snapshot_id answer.revision)
          else err (conflict snapshot_conflict))
  unfolding ingest_unit ingest_known_snapshot
  committed_once u again s after answer returned status same_vps same_snapshot =
      let found : find (is_snapshot_of again.vps_id again.snapshot_id) after.snapshots
          ≡ some (snapshot_of u committed answer.revision) =
        ap (λ v. find (is_snapshot_of v again.snapshot_id) after.snapshots) same_vps
        ∙ ap (λ i. find (is_snapshot_of u.vps_id i) after.snapshots) same_snapshot
        ∙ committed_snapshot u s after answer
            (ingest_unit-Ingested runtime max_bytes u s after answer returned) status in
      rw (found, ingest_unit) refl
