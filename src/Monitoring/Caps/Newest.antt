-- ===== src/Monitoring/Caps/Newest.antt =====
-- packages/api/src/persistence/repositories/docker-monitoring.repository.ts: which rows `truncatePerVps`
-- keeps.
use vps_manager_nodejs.Prelude.{
  ℕ, zero, suc, ◌-◌, ◌≤◌, Bool, true, false, List, [], ◌∷◌, ◌≡◌, refl, sym, ap, ◌∙◌, ◌↔◌, inl, inr,
  arith, length, take, take_last, filterb, take-nil, reverse, reverse-take-reverse, filterb-reverse,
  length-take_last, leb, leb→le, Bool-cases,
}
use vps_manager_nodejs.Monitoring.Caps.{of_key, counted, keep_newest, truncate_per_key}

module _ {ℓ κ} {T : Type ℓ} {K : Type κ} (same : K → K → Bool) (key : T → K)
    (same_iff : (a b : K) → (same a b ≡ true) ↔ (a ≡ b)) where
  -- What the loop keeps of a key: as many of its rows as the limit still leaves.
  keep_newest_lem :
      (limit : ℕ) (used : K → ℕ) (k : K) (rows : List T)
      → filterb (of_key same key k) (keep_newest same key limit used rows)
        ≡ take (limit - used k) (filterb (of_key same key k) rows)
  unfolding keep_newest
  keep_newest_lem limit used k [] = sym (take-nil (limit - used k))
  keep_newest_lem limit used k (row ∷ rows) = elim (Bool-cases (leb limit (used (key row)))) [
    | inl full ↦ elim (Bool-cases (same (key row) k)) [
      | inl its ↦
          let spent : limit - used k ≡ zero =
            let at_k : limit ≤ used k =
              rw (sym (ap used ((same_iff (key row) k).0 its)))
                (leb→le limit (used (key row)) full) in
            omega arith in
          rw (full, keep_newest, its, keep_newest_lem limit used k rows, spent) refl
      | inr other ↦ rw (full, keep_newest, other) (keep_newest_lem limit used k rows)
    ]
    | inr room ↦ elim (Bool-cases (same (key row) k)) [
      | inl its ↦
          let one_less : limit - used k ≡ suc (limit - suc (used k)) =
            let at_k : leb limit (used k) ≡ false =
              rw (sym (ap used ((same_iff (key row) k).0 its))) room in
            ground arith in
          let now : counted same key (key row) used k ≡ suc (used k) =
            rw its (ap (λ x. suc (used x)) ((same_iff (key row) k).0 its)) in
          rw (room, keep_newest, its, one_less)
            (ap (λ r. row ∷ r)
              (keep_newest_lem limit (counted same key (key row) used) k rows
                ∙ ap (λ n. take (limit - n) (filterb (of_key same key k) rows)) now))
      | inr other ↦
          let now : counted same key (key row) used k ≡ used k = rw other refl in
          rw (room, keep_newest, other)
            (keep_newest_lem limit (counted same key (key row) used) k rows
              ∙ ap (λ n. take (limit - n) (filterb (of_key same key k) rows)) now)
    ]
  ]

  -- `truncatePerVps` keeps, of the rows of each key, the last ones up to the cap, in their order.
  pub truncate-take_last :
      (limit : ℕ) (k : K) (rows : List T)
      → filterb (of_key same key k) (truncate_per_key same key limit rows)
        ≡ take_last limit (filterb (of_key same key k) rows)
  unfolding truncate_per_key
  truncate-take_last limit k rows =
      let no_less : limit - 0 ≡ limit = omega arith in
      filterb-reverse (of_key same key k) (keep_newest same key limit (λ other. 0) (reverse rows))
      ∙ ap reverse (keep_newest_lem limit (λ other. 0) k (reverse rows))
      ∙ ap (λ r. reverse (take (limit - 0) r)) (filterb-reverse (of_key same key k) rows)
      ∙ ap (λ n. reverse (take n (reverse (filterb (of_key same key k) rows)))) no_less
      ∙ reverse-take-reverse limit (filterb (of_key same key k) rows)

  pub length-truncate :
      (limit : ℕ) (k : K) (rows : List T)
      → length (filterb (of_key same key k) (truncate_per_key same key limit rows)) ≤ limit
  length-truncate limit k rows =
      rw (truncate-take_last limit k rows)
        (omega (arith, length-take_last limit (filterb (of_key same key k) rows)))
