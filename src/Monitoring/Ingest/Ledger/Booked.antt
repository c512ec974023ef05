-- ===== src/Monitoring/Ingest/Ledger/Booked.antt =====
-- packages/api/src/persistence/repositories/docker-monitoring.repository.ts: which watermarks
-- `ingestUnit` leaves.
use vps_manager_nodejs.Prelude.{
  ◌≤◌, String, true, false, List, some, find, length, ◌≡◌, refl, sym, ap, ◌∙◌, subst, inl, inr,
  arith, if◌then◌else◌, Bool-cases, Option-cases, find-filterb, take_last_all, first,
}
use vps_manager_nodejs.Monitoring.Records.{IngestUnit, Watermark, Store}
use vps_manager_nodejs.Monitoring.Tables.{upsert}
use vps_manager_nodejs.Monitoring.Tables.Upserts.{
  find-upsert, length-filterb-upsert, filterb-upsert_other,
}
use vps_manager_nodejs.Monitoring.Caps.{
  Owner, same_owner, same_owner_iff, of_key, enforce_caps, watermarks_per_vps,
}
use vps_manager_nodejs.Monitoring.Caps.Newest.{truncate-take_last}
use vps_manager_nodejs.Monitoring.Ingest.{is_watermark_of, get_watermark, proposed, next_watermarks}
use vps_manager_nodejs.Monitoring.Ingest.Ledger.{
  or_kept, owner_of, rows_of, OneWatermarkEach, ProposesOwn,
}

module _ {R : Type 0} where
  -- The caps do not reach the watermarks of a store that has one for each instance.
  pub rows_of-enforce_caps :
      (s : Store R) (owner : Owner)
      → OneWatermarkEach s
      → rows_of owner (enforce_caps s).watermarks ≡ rows_of owner s.watermarks
  unfolding enforce_caps
  rows_of-enforce_caps s owner one =
      truncate-take_last same_owner owner_of same_owner_iff watermarks_per_vps owner s.watermarks
      ∙ take_last_all watermarks_per_vps (rows_of owner s.watermarks) (omega (arith, one owner))

  pub get_watermark-enforce_caps :
      (s : Store R) (v i : String)
      → OneWatermarkEach s
      → get_watermark v i (enforce_caps s) ≡ get_watermark v i s
  unfolding get_watermark
  get_watermark-enforce_caps s v i one =
      find-filterb (is_watermark_of v i) (enforce_caps s).watermarks
      ∙ ap first (rows_of-enforce_caps s (v, i) one)
      ∙ sym (find-filterb (is_watermark_of v i) s.watermarks)

  -- A watermark of the unit's instance is not one of another owner.
  apart :
      (u : IngestUnit R) (owner : Owner)
      → same_owner (u.vps_id, u.agent_instance_id) owner ≡ false
      → (w : Watermark) → is_watermark_of u.vps_id u.agent_instance_id w ≡ true
      → of_key same_owner owner_of owner w ≡ false
  apart u owner other w its =
      ap (λ k. same_owner k owner)
        ((same_owner_iff (owner_of w) (u.vps_id, u.agent_instance_id)).0 its)
      ∙ other

  pub next_watermarks-own :
      (u : IngestUnit R) (w : Watermark) (rows : List Watermark)
      → proposed u.event_protocol ≡ some w
      → next_watermarks u rows ≡ upsert (is_watermark_of u.vps_id u.agent_instance_id) w rows
  unfolding next_watermarks
  next_watermarks-own u w rows given = rw (given, next_watermarks) refl

  pub rows_of-next_watermarks :
      (u : IngestUnit R) (owner : Owner) (rows : List Watermark)
      → ProposesOwn u
      → same_owner (u.vps_id, u.agent_instance_id) owner ≡ false
      → rows_of owner (next_watermarks u rows) ≡ rows_of owner rows
  unfolding next_watermarks
  rows_of-next_watermarks u owner rows own other = elim (Option-cases (proposed u.event_protocol)) [
    | inl nothing ↦ rw (nothing, next_watermarks) refl
    | inr (w, given) ↦
        ap (rows_of owner) (next_watermarks-own u w rows given)
        ∙ filterb-upsert_other (is_watermark_of u.vps_id u.agent_instance_id) w
            (of_key same_owner owner_of owner) rows (apart u owner other)
            (apart u owner other w (own w given))
  ]

  pub next_watermarks-one :
      (u : IngestUnit R) (owner : Owner) (rows : List Watermark)
      → ProposesOwn u
      → length (rows_of owner rows) ≤ 1
      → length (rows_of owner (next_watermarks u rows)) ≤ 1
  unfolding next_watermarks
  next_watermarks-one u owner rows own one =
      elim (Bool-cases (same_owner (u.vps_id, u.agent_instance_id) owner)) [
        | inr other ↦ rw (rows_of-next_watermarks u owner rows own other) one
        | inl its ↦ elim (Option-cases (proposed u.event_protocol)) [
          | inl nothing ↦ rw (nothing, next_watermarks) one
          | inr (w, given) ↦
              let at_owner : length (rows_of (u.vps_id, u.agent_instance_id) rows) ≤ 1 =
                subst (λ o. length (rows_of o rows) ≤ 1) (sym ((same_owner_iff _ owner).0 its))
                  one in
              subst (λ o. length (rows_of o (next_watermarks u rows)) ≤ 1)
                ((same_owner_iff _ owner).0 its)
                (rw (next_watermarks-own u w rows given) (
                  omega (
                    arith,
                    at_owner,
                    length-filterb-upsert (is_watermark_of u.vps_id u.agent_instance_id) w rows
                        (own w given),
                  )))
        ]
      ]

  next_watermarks-found :
      (u : IngestUnit R) (w : Watermark) (rows : List Watermark)
      → ProposesOwn u
      → proposed u.event_protocol ≡ some w
      → find (is_watermark_of u.vps_id u.agent_instance_id) (next_watermarks u rows) ≡ some w
  next_watermarks-found u w rows own given =
      ap (find (is_watermark_of u.vps_id u.agent_instance_id)) (next_watermarks-own u w rows given)
      ∙ find-upsert (is_watermark_of u.vps_id u.agent_instance_id) w rows (own w given)

  pub find-next_watermarks :
      (u : IngestUnit R) (v i : String) (rows : List Watermark)
      → ProposesOwn u
      → find (is_watermark_of v i) (next_watermarks u rows) ≡ (
          if same_owner (u.vps_id, u.agent_instance_id) (v, i)
          then or_kept (proposed u.event_protocol) (find (is_watermark_of v i) rows)
          else find (is_watermark_of v i) rows)
  unfolding next_watermarks
  find-next_watermarks u v i rows own =
      elim (Bool-cases (same_owner (u.vps_id, u.agent_instance_id) (v, i))) [
        | inr other ↦ rw (other) (
            find-filterb (is_watermark_of v i) (next_watermarks u rows)
            ∙ ap first (rows_of-next_watermarks u (v, i) rows own other)
            ∙ sym (find-filterb (is_watermark_of v i) rows))
        | inl its ↦ rw (its) (
            subst
              (λ o.
                find (is_watermark_of o.0 o.1) (next_watermarks u rows)
                ≡ or_kept (proposed u.event_protocol) (find (is_watermark_of o.0 o.1) rows))
              ((same_owner_iff (u.vps_id, u.agent_instance_id) (v, i)).0 its)
              (elim (Option-cases (proposed u.event_protocol)) [
                | inl nothing ↦ rw (nothing, next_watermarks) refl
                | inr (w, given) ↦ next_watermarks-found u w rows own given ∙ rw (given) refl
              ]))
      ]
