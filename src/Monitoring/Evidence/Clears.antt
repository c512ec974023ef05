-- ===== src/Monitoring/Evidence/Clears.antt =====
-- packages/api/src/persistence/repositories/docker-monitoring.repository.ts: which alerts the evidence of
-- an ingest can clear.
use vps_manager_nodejs.Prelude.{
  not, ◌&&◌, List, [], ◌∷◌, ◌≡◌, refl, ◌⊎◌, inl, inr, arith, All, All-append, ◌==◌, str_eq,
  Bool-cases, Option-cases,
}
use vps_manager_nodejs.Alerts.Evidence.{
  container_cpu_high, container_memory_high, docker_storage_pressure, classify, classify_event_gap,
}
use vps_manager_nodejs.Alerts.Typed.Clearing.{
  CannotClear, loop-CannotClear, mute-CannotClear, gap-CannotClear, unhealthy-CannotClear,
}
use vps_manager_nodejs.Monitoring.Records.{Sample, Event, IngestUnit}
use vps_manager_nodejs.Monitoring.Runtime.{Runtime}
use vps_manager_nodejs.Monitoring.Evidence.{
  Item, sample_items, event_items, storage_items, gap_items, each, typed_items, has_no_events,
}

module _ {R : Type 0} (runtime : Runtime R) where
  -- The item is of one of the two rules on a container's ratios, or it clears no alert.
  abbrev pub OnlyRatiosClear : Item R → Type 0
  OnlyRatiosClear (kind, o) =
      (kind ≡ container_cpu_high)
      ⊎ ((kind ≡ container_memory_high) ⊎ CannotClear runtime.ratios runtime.is_valid_date kind o)

  module _ (u : IngestUnit R) where
    samples-OnlyRatiosClear :
        (samples : List (Sample R)) → All OnlyRatiosClear (each (sample_items runtime u) samples)
    unfolding sample_items
    samples-OnlyRatiosClear [] = tt
    samples-OnlyRatiosClear (sample ∷ samples) = (
      inr (inr (unhealthy-CannotClear runtime.ratios runtime.is_valid_date _)),
      (inl refl, (inr (inl refl), samples-OnlyRatiosClear samples)),
    )

    event-OnlyRatiosClear : (event : Event) → All OnlyRatiosClear (event_items runtime u event)
    unfolding event_items
    event-OnlyRatiosClear event = elim (Option-cases event.container_key) [
      | inl nothing ↦ rw (nothing, event_items) tt
      | inr (key, given) ↦ elim (Bool-cases (str_eq key "")) [
        | inl empty ↦ rw (given, event_items, empty) tt
        | inr named ↦
            rw (given, event_items, named)
              (inr (inr (loop-CannotClear runtime.ratios runtime.is_valid_date _ refl)), tt)
      ]
    ]

    events-OnlyRatiosClear :
        (events : List Event) → All OnlyRatiosClear (each (event_items runtime u) events)
    events-OnlyRatiosClear [] = tt
    events-OnlyRatiosClear (event ∷ events) =
        All-append OnlyRatiosClear (event_items runtime u event)
          (each (event_items runtime u) events) (event-OnlyRatiosClear event)
          (events-OnlyRatiosClear events)

    storage-OnlyRatiosClear : All OnlyRatiosClear (storage_items runtime u)
    unfolding storage_items classify
    storage-OnlyRatiosClear = elim (Option-cases u.storage_latest) [
      | inl nothing ↦ rw (nothing, storage_items) tt
      | inr (storage, given) ↦
          rw (given, storage_items)
            (
              inr (
                  inr (
                    mute-CannotClear runtime.ratios runtime.is_valid_date docker_storage_pressure _
                      refl)),
              tt,
            )
    ]

    gap-OnlyRatiosClear : All OnlyRatiosClear (gap_items runtime u)
    unfolding gap_items classify classify_event_gap
    gap-OnlyRatiosClear = elim (Option-cases u.event_protocol) [
      | inl nothing ↦ rw (nothing, gap_items) tt
      | inr (protocol, given) ↦
          elim (Bool-cases (
            not (protocol.from_watermark.time_nano == protocol.proposed_watermark.time_nano)
            && has_no_events u.events)) [
              | inr steady ↦ rw (given, gap_items, steady) tt
              | inl moved ↦
                  rw (given, gap_items, moved)
                    (
                      inr (
                          inr (
                            gap-CannotClear runtime.ratios runtime.is_valid_date _ (ground arith))),
                      tt,
                    )
            ]
    ]

  -- Of the evidence that an ingest gives to the typed rules, only that of container_cpu_high and
  -- container_memory_high can clear an alert: on any other item of it, whatever the state of the rule,
  -- `evaluateDockerAlert` never answers `resolved`.
  pub typed_items-OnlyRatiosClear : (u : IngestUnit R) → All OnlyRatiosClear (typed_items runtime u)
  unfolding typed_items
  typed_items-OnlyRatiosClear u =
      All-append OnlyRatiosClear _ (gap_items runtime u)
        (All-append OnlyRatiosClear _ (storage_items runtime u)
          (All-append OnlyRatiosClear (each (sample_items runtime u) u.container_samples) _
            (samples-OnlyRatiosClear u u.container_samples) (events-OnlyRatiosClear u u.events))
          (storage-OnlyRatiosClear u))
        (gap-OnlyRatiosClear u)
