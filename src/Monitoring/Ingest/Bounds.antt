-- ===== src/Monitoring/Ingest/Bounds.antt =====
-- packages/api/src/persistence/repositories/docker-monitoring.repository.ts: the size of what
-- `ingestUnit` leaves.
use vps_manager_nodejs.Prelude.{ℕ, ◌≡◌, sym, subst, ◌⊎◌, inl, inr, ok}
use vps_manager_nodejs.Monitoring.Records.{IngestUnit, Store, IngestResult}
use vps_manager_nodejs.Monitoring.Runtime.{Runtime}
use vps_manager_nodejs.Monitoring.Caps.Bounds.{IsCapped, enforce_caps-IsCapped}
use vps_manager_nodejs.Monitoring.Ingest.{registered, ingest_stale, ingest_unit}
use vps_manager_nodejs.Monitoring.Ingest.Branches.{
  Ingested, repeats_snapshot, repeats_batch, ignores, refuses, commits, ingest_unit-Ingested,
}

module _ {R : Type 0} (runtime : Runtime R) (max_bytes : ℕ) where
  Ingested-IsCapped :
      (u : IngestUnit R) (s after : Store R) (answer : IngestResult)
      → Ingested runtime max_bytes u s after answer
      → (after ≡ s) ⊎ IsCapped after
  unfolding ingest_stale
  Ingested-IsCapped u s after answer (repeats_snapshot known found same unchanged answered) =
      inl unchanged
  Ingested-IsCapped u s after answer (repeats_batch known found same unchanged answered) =
      inl unchanged
  Ingested-IsCapped u s after answer (refuses fresh full unchanged answered) = inl unchanged
  Ingested-IsCapped u s after answer (ignores fresh prior latest instance older left answered) =
      inr (subst IsCapped (sym left) (enforce_caps-IsCapped _))
  Ingested-IsCapped u s after answer
        (commits fresh succeeds continued room judged judges left answered) =
      inr (subst IsCapped (sym left) (enforce_caps-IsCapped (registered u judged)))

  -- A call that returns leaves the store as it was, or with at most 5000 samples, 2000 rollups, 10000
  -- events and 1000 alerts for each server, and 50 watermarks and 100 batches for each agent instance,
  -- however large the store was before.
  pub ingest_unit-IsCapped :
      (u : IngestUnit R) (s after : Store R) (answer : IngestResult)
      → ingest_unit runtime max_bytes u s ≡ ok (after, answer)
      → (after ≡ s) ⊎ IsCapped after
  ingest_unit-IsCapped u s after answer returned =
      Ingested-IsCapped u s after answer
        (ingest_unit-Ingested runtime max_bytes u s after answer returned)
