-- ===== src/Monitoring/Tables/Upserts.antt =====
-- packages/api/src/persistence/repositories/docker-monitoring.repository.ts: replacing or adding a row of
-- an array, as the reads see it.
use vps_manager_nodejs.Prelude.{
  Bool, true, false, List, [], ◌∷◌, some, ◌≡◌, refl, ap, inl, inr, arith, max, length, find,
  filterb, Bool-cases,
}
use vps_manager_nodejs.Monitoring.Tables.{upsert}

module _ {ℓ} {A : Type ℓ} (p : A → Bool) (row : A) where
  pub find-upsert : (xs : List A) → p row ≡ true → find p (upsert p row xs) ≡ some row
  find-upsert [] holds = rw (holds) refl
  find-upsert (x ∷ xs) holds = elim (Bool-cases (p x)) [
    | inl found ↦ rw (found, holds) refl
    | inr other ↦ rw (other, other) (find-upsert xs holds)
  ]

  pub length-filterb-upsert :
      (xs : List A)
      → p row ≡ true
      → length (filterb p (upsert p row xs)) ≡ max 1 (length (filterb p xs))
  length-filterb-upsert [] holds = rw (holds) refl
  length-filterb-upsert (x ∷ xs) holds = elim (Bool-cases (p x)) [
    | inl found ↦ rw (found, holds) (omega arith)
    | inr other ↦ rw (other, other) (length-filterb-upsert xs holds)
  ]

  -- Rows that `q` finds are not touched where `p` finds others.
  pub filterb-upsert_other :
      (q : A → Bool) (xs : List A)
      → ((x : A) → p x ≡ true → q x ≡ false)
      → q row ≡ false
      → filterb q (upsert p row xs) ≡ filterb q xs
  filterb-upsert_other q [] apart other = rw (other) refl
  filterb-upsert_other q (x ∷ xs) apart other = elim (Bool-cases (p x)) [
    | inl found ↦ let away = apart x found in rw (found, other, away) refl
    | inr passed ↦ elim (Bool-cases (q x)) [
      | inl kept ↦ rw (passed, kept) (ap (λ r. x ∷ r) (filterb-upsert_other q xs apart other))
      | inr dropped ↦ rw (passed, dropped) (filterb-upsert_other q xs apart other)
    ]
  ]
