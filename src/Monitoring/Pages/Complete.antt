-- ===== src/Monitoring/Pages/Complete.antt =====
-- packages/api/src/persistence/repositories/docker-monitoring.repository.ts: a client that follows the
-- cursors of a list reads all of it.
use vps_manager_nodejs.Prelude.{
  ℕ, zero, suc, ◌+◌, ◌≤◌, ◌<◌, String, List, [], ◌∷◌, ◌++◌, Option, none, some, ◌≡◌, refl, sym, ap,
  ◌∙◌, subst, inl, inr, arith, length, take, drop, ltb, Bool-cases, ltb→lt, append_assoc,
  length-append, length-drop, ok,
}
use vps_manager_nodejs.Monitoring.Cursor.{Codec, Binding}
use vps_manager_nodejs.Monitoring.Pages.{Place, last, start_of}
use vps_manager_nodejs.Monitoring.Pages.Following.{
  take-drop, last-split, Distinct, All-middle, read_pages, IsEncodable, Encodable, cursor_of,
  start_of-row, last_page, next_page,
}

-- The rows of a page that does not end a list, up to its last row.
pub page-split :
    {T : Type 0} (limit : ℕ) (rest : List T)
    → 1 ≤ limit
    → limit < length rest
    → (row : T) × ((before : List T) × ((take limit rest ≡ before ++ row ∷ [])
          × (last (take limit rest) ≡ some row)))
page-split zero rest some_row long = elim some_row [ ]
page-split (suc n) [] some_row long = elim long [ ]
page-split (suc n) (x ∷ xs) some_row long = last-split x (take n xs)

module _ {T : Type 0} (place : T → Place) (codec : Codec) (binding : Binding) (limit : ℕ)
    (some_row : 1 ≤ limit) where
  -- From any place in the list on.
  read_pages-from :
      (fuel : ℕ) (incoming : Option String) (done rest : List T)
      → Distinct place (done ++ rest)
      → Encodable place codec binding limit (done ++ rest)
      → length rest < fuel
      → start_of codec place binding incoming (done ++ rest) ≡ ok (length done)
      → read_pages place codec binding limit fuel incoming (done ++ rest) ≡ ok rest
  read_pages-from zero incoming done rest distinct valid enough starts = elim enough [ ]
  read_pages-from (suc fuel) incoming done rest distinct valid enough starts =
      elim (Bool-cases (ltb limit (length rest))) [
        | inr short ↦
            last_page place codec binding limit fuel incoming done rest starts (ground arith)
        | inl more ↦
            let long = ltb→lt limit (length rest) more in
            let (row, (before, (split, is_last))) = page-split limit rest some_row long in
            let others = drop limit rest in
            let whole : done ++ rest ≡ (done ++ before) ++ row ∷ others =
              ap (λ r. done ++ r)
                (sym (take-drop limit rest)
                  ∙ ap (λ r. r ++ others) split
                  ∙ append_assoc before (row ∷ []) others)
              ∙ sym (append_assoc done before (row ∷ others)) in
            let valid_row =
              All-middle place (IsEncodable place codec binding limit) (done ++ before) row others
                (subst (Encodable place codec binding limit) whole valid) in
            let later : read_pages place codec binding limit fuel
                  (some (cursor_of place codec binding limit row)) (done ++ rest)
                ≡ ok others =
              let eq = sym (append_assoc (done ++ before) (row ∷ []) others) in
              let full = whole ∙ eq in
              let cursor = some (cursor_of place codec binding limit row) in
              let counted : length (done ++ before) + 1 ≡ length ((done ++ before) ++ row ∷ []) =
                omega (arith, length-append (done ++ before) (row ∷ [])) in
              subst (λ rows. read_pages place codec binding limit fuel cursor rows ≡ ok others)
                (sym full)
                (read_pages-from fuel cursor ((done ++ before) ++ row ∷ []) others
                  (subst (Distinct place) full distinct)
                  (subst (Encodable place codec binding limit) full valid)
                  (omega (arith, length-drop limit rest, long, enough, some_row))
                  (subst
                    (λ rows.
                      start_of codec place binding cursor rows
                      ≡ ok (length ((done ++ before) ++ row ∷ [])))
                    eq
                    (start_of-row place codec binding limit (done ++ before) row others
                        (subst (Distinct place) whole distinct) valid_row
                      ∙ ap ok counted))) in
            next_page place codec binding limit fuel incoming done rest others row starts long
              is_last (valid_row.0) later
            ∙ ap ok (take-drop limit rest)
      ]

  -- A client that asks for pages of at least one row and follows the cursors gets every row of the
  -- list once, in its order, and the last page ends the reading: after as many pages as the list has
  -- rows, and one more, at most. The rows differ in time or id, and each can stand in a cursor whose
  -- text reads back.
  pub read_pages-rows :
      (fuel : ℕ) (rows : List T)
      → Distinct place rows
      → Encodable place codec binding limit rows
      → length rows < fuel
      → read_pages place codec binding limit fuel none rows ≡ ok rows
  unfolding start_of
  read_pages-rows fuel rows distinct valid enough =
      read_pages-from fuel none [] rows distinct valid enough refl
