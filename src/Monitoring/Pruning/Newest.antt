-- ===== src/Monitoring/Pruning/Newest.antt =====
-- packages/api/src/persistence/repositories/docker-monitoring.repository.ts: which rows
-- `pruneToCapNewestFirst` keeps.
use vps_manager_nodejs.Prelude.{
  ℕ, String, Bool, true, false, List, [], ◌∷◌, ◌++◌, ◌≡◌, refl, sym, ap, ◌∙◌, inl, inr, All, take,
  filterb, filterb-append, append-nil, str_eq, eq_iff, Bool-cases, All-append, take-nil, subst,
}
use vps_manager_nodejs.Monitoring.Pages.{Place, newest_first, sort_by}
use vps_manager_nodejs.Monitoring.Pages.Kept.{All-take, All-sort_by}
use vps_manager_nodejs.Monitoring.Pruning.{
  add_to_group, group_by_server, newest_of_groups, prune_to_cap,
}
use vps_manager_nodejs.Monitoring.Pruning.Groups.{
  is_of, rows_in, Of, Missing, AreGroups, rows_in-group_by_server,
}

different : (a b : String) → str_eq a b ≡ false → str_eq b a ≡ false
different a b missed = elim (Bool-cases (str_eq b a)) [
  | inr other ↦ other
  | inl found ↦ let same = (eq_iff a b).1 (sym ((eq_iff b a).0 found)) in cc
]

module _ {T : Type 0} (place : T → Place) (server : T → String) where
  Missing-add :
      (key : String) (row : T) (groups : List (String × List T))
      → str_eq (server row) key ≡ false
      → Missing place server key groups
      → Missing place server key (add_to_group place server row groups)
  unfolding add_to_group
  Missing-add key row [] other missing = (other, tt)
  Missing-add key row ((k, rows) ∷ groups) other missing =
      elim (Bool-cases (str_eq k (server row))) [
        | inl found ↦ rw (found) (missing.0, missing.1)
        | inr missed ↦ rw (missed) (missing.0, Missing-add key row groups other missing.1)
      ]

  AreGroups-add :
      (row : T) (groups : List (String × List T))
      → AreGroups place server groups
      → AreGroups place server (add_to_group place server row groups)
  unfolding add_to_group
  AreGroups-add row [] are = ((refl, tt), (tt, tt))
  AreGroups-add row ((key, rows) ∷ groups) (own, (missing, are)) =
      elim (Bool-cases (str_eq key (server row))) [
        | inl found ↦ rw (found) (
          All-append (Of place server key) rows (row ∷ []) own
              (sym ((eq_iff key (server row)).0 found), tt),
          (missing, are),
        )
        | inr missed ↦ rw (missed) (
          own,
          (
            Missing-add key row groups (different key (server row) missed) missing,
            AreGroups-add row groups are,
          ),
        )
      ]

  AreGroups-group_by_server :
      (rows : List T) (groups : List (String × List T))
      → AreGroups place server groups
      → AreGroups place server (group_by_server place server rows groups)
  unfolding group_by_server
  AreGroups-group_by_server [] groups are = are
  AreGroups-group_by_server (row ∷ rows) groups are =
      AreGroups-group_by_server rows (add_to_group place server row groups)
        (AreGroups-add row groups are)

  own_rows :
      (key vps_id : String) (rows : List T)
      → str_eq key vps_id ≡ true
      → All (Of place server key) rows
      → filterb (is_of place server vps_id) rows ≡ rows
  own_rows key vps_id [] its own = refl
  own_rows key vps_id (x ∷ xs) its (here, own) =
      let at_x : str_eq (server x) vps_id ≡ true = ap (λ k. str_eq k vps_id) here ∙ its in
      rw (at_x) (ap (λ r. x ∷ r) (own_rows key vps_id xs its own))

  other_rows :
      (key vps_id : String) (rows : List T)
      → str_eq key vps_id ≡ false
      → All (Of place server key) rows
      → filterb (is_of place server vps_id) rows ≡ []
  other_rows key vps_id [] other own = refl
  other_rows key vps_id (x ∷ xs) other (here, own) =
      let at_x : str_eq (server x) vps_id ≡ false = ap (λ k. str_eq k vps_id) here ∙ other in
      rw (at_x) (other_rows key vps_id xs other own)

  module _ (before : String → String → Bool) (limit : ℕ) where
    -- The newest rows of an array, up to the limit.
    abbrev pub newest : List T → List T
    newest rows = take limit (sort_by (newest_first before place) rows)

    newest-own :
        (key : String) (rows : List T)
        → All (Of place server key) rows
        → All (Of place server key) (newest rows)
    newest-own key rows own =
        All-take (Of place server key) limit (sort_by (newest_first before place) rows)
          (All-sort_by (Of place server key) (newest_first before place) rows own)

    newest_of_Missing :
        (vps_id : String) (groups : List (String × List T))
        → Missing place server vps_id groups
        → AreGroups place server groups
        → filterb (is_of place server vps_id) (newest_of_groups place server before limit groups)
          ≡ []
    unfolding newest_of_groups
    newest_of_Missing vps_id [] missing are = refl
    newest_of_Missing vps_id ((key, rows) ∷ groups) (other, missing) (own, (_, are)) =
        filterb-append (is_of place server vps_id) (newest rows)
          (newest_of_groups place server before limit groups)
        ∙ ap
            (λ r.
              r
              ++ filterb (is_of place server vps_id)
                  (newest_of_groups place server before limit groups))
            (other_rows key vps_id (newest rows) other (newest-own key rows own))
        ∙ newest_of_Missing vps_id groups missing are

    newest_of_groups-rows_in :
        (vps_id : String) (groups : List (String × List T))
        → AreGroups place server groups
        → filterb (is_of place server vps_id) (newest_of_groups place server before limit groups)
          ≡ newest (rows_in place server vps_id groups)
    unfolding newest_of_groups rows_in sort_by
    newest_of_groups-rows_in vps_id [] are = sym (take-nil limit)
    newest_of_groups-rows_in vps_id ((key, rows) ∷ groups) (own, (missing, are)) =
        filterb-append (is_of place server vps_id) (newest rows)
          (newest_of_groups place server before limit groups)
        ∙ elim (Bool-cases (str_eq key vps_id)) [
          | inl its ↦
              let none_else =
                newest_of_Missing vps_id groups
                  (subst (λ k. Missing place server k groups) ((eq_iff key vps_id).0 its) missing)
                  are in
              ap
                (λ r.
                  r
                  ++ filterb (is_of place server vps_id)
                      (newest_of_groups place server before limit groups))
                (own_rows key vps_id (newest rows) its (newest-own key rows own))
              ∙ ap (λ r. newest rows ++ r) none_else
              ∙ append-nil (newest rows)
              ∙ rw (its) refl
          | inr other ↦
              ap
                (λ r.
                  r
                  ++ filterb (is_of place server vps_id)
                      (newest_of_groups place server before limit groups))
                (other_rows key vps_id (newest rows) other (newest-own key rows own))
              ∙ newest_of_groups-rows_in vps_id groups are
              ∙ rw (other) refl
        ]

    -- What is kept of each server are its newest rows, up to the limit, in the order of the lists;
    -- how the rows of several servers are mixed makes no difference.
    pub prune_to_cap-newest :
        (vps_id : String) (rows : List T)
        → filterb (is_of place server vps_id) (prune_to_cap place server before limit rows)
          ≡ newest (filterb (is_of place server vps_id) rows)
    unfolding prune_to_cap rows_in
    prune_to_cap-newest vps_id rows =
        newest_of_groups-rows_in vps_id (group_by_server place server rows [])
          (AreGroups-group_by_server rows [] tt)
        ∙ ap newest (rows_in-group_by_server place server vps_id rows [])
