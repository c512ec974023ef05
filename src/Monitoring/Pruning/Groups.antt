-- ===== src/Monitoring/Pruning/Groups.antt =====
-- packages/api/src/persistence/repositories/docker-monitoring.repository.ts: how
-- `pruneToCapNewestFirst` groups the rows by their servers.
use vps_manager_nodejs.Prelude.{
  String, Bool, true, false, List, [], ◌∷◌, ◌++◌, ◌≡◌, refl, sym, ap, ◌∙◌, inl, inr, All, filterb,
  filterb-append, append_assoc, append-nil, if◌then◌else◌, str_eq, eq_iff, Bool-cases,
}
use vps_manager_nodejs.Monitoring.Pages.{Place}
use vps_manager_nodejs.Monitoring.Pruning.{add_to_group, group_by_server}

module _ {T : Type 0} (place : T → Place) (server : T → String) where
  abbrev pub is_of : String → T → Bool
  is_of vps_id row = str_eq (server row) vps_id

  -- The rows of a server's group.
  unfoldable pub rows_in : String → List (String × List T) → List T
  rows_in vps_id [] = []
  rows_in vps_id ((key, rows) ∷ groups) = if str_eq key vps_id then rows else rows_in vps_id groups

  abbrev pub Of : String → T → Type 0
  Of key row = server row ≡ key

  abbrev pub Missing : String → List (String × List T) → Type 0
  Missing key groups = All (λ group. str_eq group.0 key ≡ false) groups

  -- Each group has the rows of its own server, and each server one group.
  abbrev pub AreGroups : List (String × List T) → Type 0
  AreGroups [] = Unit
  AreGroups ((key, rows) ∷ groups) = All (Of key) rows × (Missing key groups × AreGroups groups)

  rows_in-add :
      (vps_id : String) (row : T) (groups : List (String × List T))
      → rows_in vps_id (add_to_group place server row groups)
        ≡ rows_in vps_id groups ++ filterb (is_of vps_id) (row ∷ [])
  unfolding rows_in add_to_group
  rows_in-add vps_id row [] = elim (Bool-cases (str_eq (server row) vps_id)) [
    | inl its ↦ rw (its) refl
    | inr other ↦ rw (other) refl
  ]
  rows_in-add vps_id row ((key, rows) ∷ groups) = elim (Bool-cases (str_eq key (server row))) [
    | inl found ↦
        let same = (eq_iff key (server row)).0 found in
        elim (Bool-cases (str_eq key vps_id)) [
          | inl its ↦
              let at_row : str_eq (server row) vps_id ≡ true =
                ap (λ k. str_eq k vps_id) (sym same) ∙ its in
              rw (found, its, at_row) refl
          | inr other ↦
              let at_row : str_eq (server row) vps_id ≡ false =
                ap (λ k. str_eq k vps_id) (sym same) ∙ other in
              rw (found, other, at_row) (sym (append-nil (rows_in vps_id groups)))
        ]
    | inr missed ↦ elim (Bool-cases (str_eq key vps_id)) [
      | inl its ↦
          let elsewhere : str_eq (server row) vps_id ≡ false = apart key row missed its in
          rw (missed, its, elsewhere) (sym (append-nil rows))
      | inr other ↦ rw (missed, other) (rows_in-add vps_id row groups)
    ]
  ]
    where
      apart :
          (key : String) (row : T)
          → str_eq key (server row) ≡ false
          → str_eq key vps_id ≡ true
          → str_eq (server row) vps_id ≡ false
      apart key row missed its = elim (Bool-cases (str_eq (server row) vps_id)) [
        | inr other ↦ other
        | inl found ↦
            let same = (eq_iff key vps_id).0 its ∙ sym ((eq_iff (server row) vps_id).0 found) in
            let both = (eq_iff key (server row)).1 same in cc
      ]

  pub rows_in-group_by_server :
      (vps_id : String) (rows : List T) (groups : List (String × List T))
      → rows_in vps_id (group_by_server place server rows groups)
        ≡ rows_in vps_id groups ++ filterb (is_of vps_id) rows
  unfolding group_by_server
  rows_in-group_by_server vps_id [] groups = sym (append-nil (rows_in vps_id groups))
  rows_in-group_by_server vps_id (row ∷ rows) groups =
      rows_in-group_by_server vps_id rows (add_to_group place server row groups)
      ∙ ap (λ r. r ++ filterb (is_of vps_id) rows) (rows_in-add vps_id row groups)
      ∙ append_assoc (rows_in vps_id groups) (filterb (is_of vps_id) (row ∷ []))
          (filterb (is_of vps_id) rows)
      ∙ ap (λ r. rows_in vps_id groups ++ r) (sym (filterb-append (is_of vps_id) (row ∷ []) rows))
