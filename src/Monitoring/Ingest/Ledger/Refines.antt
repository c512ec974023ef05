-- ===== src/Monitoring/Ingest/Ledger/Refines.antt =====
-- packages/api/src/persistence/repositories/docker-monitoring.repository.ts: `ingestUnit` keeps the
-- ledger.
use vps_manager_nodejs.Prelude.{
  ℕ, suc, String, List, [], ◌∷◌, ◌++◌, Option, none, some, find, All, ◌≡◌, refl, sym, ap, ◌∙◌,
  subst, fun_ext, inl, inr, if◌then◌else◌, str_eq, Bool-cases, ok, err, Outcome-cases, true, ◌==◌,
  &&-true, ==_iff,
}
use vps_manager_nodejs.Monitoring.Records.{
  IngestUnit, replay_ignored, Watermark, Latest, Store, IngestResult,
}
use vps_manager_nodejs.Monitoring.Runtime.{Runtime}
use vps_manager_nodejs.Monitoring.Caps.{enforce_caps}
use vps_manager_nodejs.Monitoring.Ingest.{
  snapshot_of, is_watermark_of, get_watermark, with_history, with_storage, next_watermarks,
  registered, continues, ingest_stale, ingest_unit,
}
use vps_manager_nodejs.Monitoring.Ingest.Judged.{Judges, history-Judges}
use vps_manager_nodejs.Monitoring.Ingest.Branches.{
  Succeeds, first_unit, same_instance, new_instance, Ingested, repeats_snapshot, repeats_batch,
  ignores, refuses, commits, ingest_unit-Ingested,
}
use vps_manager_nodejs.Monitoring.Ingest.Ledger.{
  Ledger, identity_of, Follows, first_of_all, goes_on, takes_over, accept, Books, StartsAt, keeps,
  accepts, ledger_of, OneWatermarkEach, ProposesOwn,
}
use vps_manager_nodejs.Monitoring.Ingest.Ledger.Booked.{
  get_watermark-enforce_caps, next_watermarks-one, find-next_watermarks, rows_of-enforce_caps,
}

abbrev ledger : ℕ → (String → Option (String × ℕ)) → (String → String → Option Watermark) → Ledger
ledger revision active mark = record { revision = revision; active = active; mark = mark }

module _ {R : Type 0} where
  Succeeds-Follows :
      (u : IngestUnit R) (prior : Option Latest) → Succeeds u prior → Follows u (identity_of prior)
  Succeeds-Follows u none first_unit = first_of_all
  Succeeds-Follows u (some _) (same_instance prior same newer) =
      subst (λ i. Follows u (some (i, prior.source_sequence))) (sym same)
        (goes_on prior.source_sequence newer)
  Succeeds-Follows u (some _) (new_instance prior other newer) =
      takes_over prior.active_instance_id prior.source_sequence other newer

  one-enforce_caps : (s : Store R) → OneWatermarkEach s → OneWatermarkEach (enforce_caps s)
  one-enforce_caps s one owner = rw (rows_of-enforce_caps s owner one) (one owner)

  ledger_of-enforce_caps :
      (s : Store R) → OneWatermarkEach s → ledger_of (enforce_caps s) ≡ ledger_of s
  unfolding enforce_caps
  ledger_of-enforce_caps s one =
      ap (ledger s.revision (λ v. identity_of (s.latest_by_vps v)))
        (fun_ext (λ v. fun_ext (λ i. get_watermark-enforce_caps s v i one)))

  module _ (u : IngestUnit R) (s judged : Store R)
      (judges : Judges (with_storage u (with_history u s)) judged) where
    registered-watermarks : (registered u judged).watermarks ≡ next_watermarks u s.watermarks
    unfolding registered with_history
    registered-watermarks = ap (λ x. x.watermarks) (history-Judges u s judged judges)

    registered-one : ProposesOwn u → OneWatermarkEach s → OneWatermarkEach (registered u judged)
    registered-one own one owner =
        rw (registered-watermarks) (next_watermarks-one u owner s.watermarks own (one owner))

    registered-revision : (registered u judged).revision ≡ suc s.revision
    unfolding registered with_history
    registered-revision = ap (λ x. suc x.revision) (history-Judges u s judged judges)

    registered-active :
        (v : String)
        → identity_of ((registered u judged).latest_by_vps v) ≡ (
            if str_eq u.vps_id v
            then some (u.agent_instance_id, u.source_sequence)
            else identity_of (s.latest_by_vps v))
    unfolding registered with_history
    registered-active v = elim (Bool-cases (str_eq u.vps_id v)) [
      | inl its ↦ rw (its) refl
      | inr other ↦
          rw (other) (ap (λ x. identity_of (x.latest_by_vps v)) (history-Judges u s judged judges))
    ]

    registered-mark :
        (v i : String)
        → ProposesOwn u
        → OneWatermarkEach s
        → get_watermark v i (enforce_caps (registered u judged)) ≡ (accept u (ledger_of s)).mark v i
    unfolding get_watermark
    registered-mark v i own one =
        get_watermark-enforce_caps (registered u judged) v i (registered-one own one)
        ∙ ap (find (is_watermark_of v i)) registered-watermarks
        ∙ find-next_watermarks u v i s.watermarks own

    ledger_of-registered :
        ProposesOwn u
        → OneWatermarkEach s
        → ledger_of (enforce_caps (registered u judged)) ≡ accept u (ledger_of s)
    unfolding enforce_caps
    ledger_of-registered own one =
        let l = ledger_of (enforce_caps (registered u judged)) in
        let l' = accept u (ledger_of s) in
        ap (λ r. ledger r l.active l.mark) registered-revision
        ∙ ap (λ a. ledger l'.revision a l.mark) (fun_ext registered-active)
        ∙ ap (ledger l'.revision l'.active)
            (fun_ext (λ v. fun_ext (λ i. registered-mark v i own one)))

  abbrev noted : IngestUnit R → Store R → Store R
  noted u s = record s { snapshots = s.snapshots ++ snapshot_of u replay_ignored s.revision ∷ [] }

  module _ (runtime : Runtime R) (max_bytes : ℕ) where
    continues-StartsAt :
        (u : IngestUnit R) (mark : Option Watermark)
        → continues runtime max_bytes u.event_protocol mark ≡ true
        → StartsAt runtime u mark
    continues-StartsAt u mark continued protocol w given marked =
        let (time, digests) =
          &&-true (protocol.from_watermark.time_nano == w.time_nano)
            (runtime.same_boundary protocol.from_watermark.boundary_digests w.boundary_digests)
            (rw (given, marked) at continued) in
        ((==_iff protocol.from_watermark.time_nano w.time_nano).0 time, digests)

    -- The store after a call, one that throws included.
    pub after_call : IngestUnit R → Store R → Store R
    unfolding ingest_unit
    after_call u s = elim (ingest_unit runtime max_bytes u s) [
      | ok (after, answer) ↦ after
      | err thrown ↦ s
    ]

    -- The store after calls, one after the other.
    pub after_calls : List (IngestUnit R) → Store R → Store R
    unfolding after_call
    after_calls [] s = s
    after_calls (u ∷ units) s = after_calls units (after_call u s)

    -- A ledger that each unit in turn was booked in.
    pub data Journal : Ledger → List (IngestUnit R) → Ledger → Type 0 where
      ends : {l : Ledger} → Journal l [] l
      books :
          {l m n : Ledger} {u : IngestUnit R} {units : List (IngestUnit R)}
          → Books runtime max_bytes u l m
          → Journal m units n
          → Journal l (u ∷ units) n

    Booked : IngestUnit R → Store R → Store R → Type 0
    Booked u s after =
        OneWatermarkEach after × Books runtime max_bytes u (ledger_of s) (ledger_of after)

    Ingested-Booked :
        (u : IngestUnit R) (s after : Store R) (answer : IngestResult)
        → ProposesOwn u
        → OneWatermarkEach s
        → Ingested runtime max_bytes u s after answer
        → Booked u s after
    unfolding Booked ingest_stale get_watermark
    Ingested-Booked u s after answer own one
          (repeats_snapshot known found same unchanged answered) =
        subst (Booked u s) (sym unchanged) (one, keeps)
    Ingested-Booked u s after answer own one (repeats_batch known found same unchanged answered) =
        subst (Booked u s) (sym unchanged) (one, keeps)
    Ingested-Booked u s after answer own one (refuses fresh full unchanged answered) =
        subst (Booked u s) (sym unchanged) (one, keeps)
    Ingested-Booked u s after answer own one
          (ignores fresh prior latest instance older left answered) =
        subst (Booked u s) (sym left) (
          one-enforce_caps (noted u s) one,
          subst (Books runtime max_bytes u (ledger_of s))
              (sym (ledger_of-enforce_caps (noted u s) one)) keeps,
        )
    Ingested-Booked u s after answer own one
          (commits fresh succeeds continued room judged judges left answered) =
        subst (Booked u s) (sym left) (
          one-enforce_caps (registered u judged) (registered-one u s judged judges own one),
          subst (Books runtime max_bytes u (ledger_of s))
              (sym (ledger_of-registered u s judged judges own one))
              (accepts (Succeeds-Follows u (s.latest_by_vps u.vps_id) succeeds)
                (continues-StartsAt u (get_watermark u.vps_id u.agent_instance_id s) continued)),
        )

    after_call-Booked :
        (u : IngestUnit R) (s : Store R)
        → ProposesOwn u
        → OneWatermarkEach s
        → Booked u s (after_call u s)
    unfolding after_call Booked
    after_call-Booked u s own one = elim (Outcome-cases (ingest_unit runtime max_bytes u s)) [
      | inl ((after, answer), returned) ↦
          let left : after_call u s ≡ after = rw (returned, after_call) refl in
          subst (Booked u s) (sym left) (
            Ingested-Booked u s after answer own one
              (ingest_unit-Ingested runtime max_bytes u s after answer returned))
      | inr (thrown, failed) ↦
          let left : after_call u s ≡ s = rw (failed, after_call) refl in
          subst (Booked u s) (sym left) (one, keeps)
    ]

    -- However many units are sent, in whatever order and however often, to a store that has one
    -- watermark for each agent instance at most: the stored ledger moves as the journal allows. Each
    -- call leaves the ledger as it is, or books a unit that follows the active one of its server (with
    -- no smaller sequence from the active instance, with a greater one from another), whose events
    -- start at the stored watermark, with the next revision, the unit's own identity and watermark, and
    -- nothing of other servers and instances. The units propose watermarks of their own instance.
    pub after_calls-Journal :
        (units : List (IngestUnit R)) (s : Store R)
        → All ProposesOwn units
        → OneWatermarkEach s
        → Journal (ledger_of s) units (ledger_of (after_calls units s))
    unfolding after_calls Booked
    after_calls-Journal [] s own one = ends
    after_calls-Journal (u ∷ units) s own one =
        let (still_one, booked) = after_call-Booked u s (own.0) one in
        books booked (after_calls-Journal units (after_call u s) (own.1) still_one)
