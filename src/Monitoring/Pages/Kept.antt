-- ===== src/Monitoring/Pages/Kept.antt =====
-- packages/api/src/persistence/repositories/docker-monitoring.repository.ts: what holds of all rows of an
-- array holds of its rows when they are filtered, cut and sorted.
use vps_manager_nodejs.Prelude.{
  ℕ, zero, suc, Bool, List, [], ◌∷◌, inl, inr, All, take, filterb, Bool-cases,
}
use vps_manager_nodejs.Monitoring.Pages.{insert_row, sort_by}

module _ {A : Type 0} (P : A → Type 0) where
  pub All-filterb : (p : A → Bool) (xs : List A) → All P xs → All P (filterb p xs)
  All-filterb p [] all = tt
  All-filterb p (x ∷ xs) all = elim (Bool-cases (p x)) [
    | inl kept ↦ rw (kept) (all.0, All-filterb p xs all.1)
    | inr dropped ↦ rw (dropped) (All-filterb p xs all.1)
  ]

  pub All-take : (n : ℕ) (xs : List A) → All P xs → All P (take n xs)
  All-take zero xs all = tt
  All-take (suc n) [] all = tt
  All-take (suc n) (x ∷ xs) all = (all.0, All-take n xs all.1)

  All-insert_row :
      (first : A → A → Bool) (x : A) (ys : List A) → P x → All P ys → All P (insert_row first x ys)
  unfolding insert_row
  All-insert_row first x [] here all = (here, tt)
  All-insert_row first x (y ∷ ys) here all = elim (Bool-cases (first y x)) [
    | inl later ↦ rw (later) (all.0, All-insert_row first x ys here all.1)
    | inr before ↦ rw (before) (here, all)
  ]

  pub All-sort_by : (first : A → A → Bool) (xs : List A) → All P xs → All P (sort_by first xs)
  unfolding sort_by
  All-sort_by first [] all = tt
  All-sort_by first (x ∷ xs) all =
      All-insert_row first x (sort_by first xs) all.0 (All-sort_by first xs all.1)
