-- ===== src/Monitoring/Pages/Following.antt =====
-- packages/api/src/persistence/repositories/docker-monitoring.repository.ts: reading a list page by page,
-- each with the cursor that the page before it gave.
use vps_manager_nodejs.Prelude.{
  ℕ, zero, suc, ◌+◌, ◌≤◌, ◌<◌, min, String, Bool, true, false, List, [], ◌∷◌, ◌++◌, Option, none,
  some, ◌≡◌, refl, ap, arith, All, length, take, drop, ltb, str_eq, eq_refl, true-&&, length-append,
  take_all, Outcome, ok, ◌>>=◌,
}
use vps_manager_nodejs.Monitoring.Cursor.{
  Codec, Binding, CursorError, is_valid_payload, encode_cursor,
}
use vps_manager_nodejs.Monitoring.Cursor.RoundTrip.{
  ReadsBack, assert_binding-written, decode_cursor-write,
}
use vps_manager_nodejs.Monitoring.Pages.{
  Place, same_place, find_index, suc_of, last, payload_of, start_of, next_of, paginate_keyset,
}

drop-length : {A : Type 0} (xs ys : List A) → drop (length xs) (xs ++ ys) ≡ ys
drop-length [] ys = refl
drop-length (x ∷ xs) ys = drop-length xs ys

pub take-drop : {A : Type 0} (n : ℕ) (xs : List A) → take n xs ++ drop n xs ≡ xs
take-drop zero xs = refl
take-drop (suc n) [] = refl
take-drop (suc n) (x ∷ xs) = ap (λ r. x ∷ r) (take-drop n xs)

pub length-take : {A : Type 0} (n : ℕ) (xs : List A) → length (take n xs) ≡ min n (length xs)
length-take zero xs = omega arith
length-take (suc n) [] = omega arith
length-take (suc n) (x ∷ xs) = omega (arith, length-take n xs)

-- A list of at least one row, as its last row and the ones before it.
pub last-split :
    {A : Type 0} (x : A) (xs : List A)
    → (row : A) × ((before : List A) × ((x ∷ xs ≡ before ++ row ∷ []) × (last (x ∷ xs) ≡ some row)))
last-split x [] = (x, ([], (refl, refl)))
last-split x (y ∷ ys) =
    let (row, (before, (split, is_last))) = last-split y ys in
    (row, (x ∷ before, (ap (λ r. x ∷ r) split, is_last)))

same_place_refl : (p : Place) → same_place p p ≡ true
same_place_refl (at, id) = true-&& (str_eq at at) (str_eq id id) (eq_refl at) (eq_refl id)

module _ {T : Type 0} (place : T → Place) where
  -- No two rows have the same time and the same id.
  abbrev pub Distinct : List T → Type 0
  Distinct [] = Unit
  Distinct (x ∷ xs) = All (λ y. same_place (place x) (place y) ≡ false) xs × Distinct xs

  pub All-middle : (P : T → Type 0) (xs : List T) (y : T) (ys : List T) → All P (xs ++ y ∷ ys) → P y
  All-middle P [] y ys all = all.0
  All-middle P (x ∷ xs) y ys all = All-middle P xs y ys all.1

  -- The place of a row is found where the row is.
  find_index-row :
      (before : List T) (row : T) (rest : List T)
      → Distinct (before ++ row ∷ rest)
      → find_index (λ r. same_place (place r) (place row)) (before ++ row ∷ rest)
        ≡ some (length before)
  find_index-row [] row rest distinct = rw (same_place_refl (place row)) refl
  find_index-row (x ∷ before) row rest distinct =
      let other =
        All-middle (λ y. same_place (place x) (place y) ≡ false) before row rest distinct.0 in
      rw (other) (ap suc_of (find_index-row before row rest distinct.1))

  module _ (codec : Codec) (binding : Binding) (limit : ℕ) where
    -- The rows that a client gets which follows the cursors from `incoming` on, for `fuel` pages.
    unfoldable pub read_pages : ℕ → Option String → List T → Outcome CursorError (List T)
    unfolding paginate_keyset
    read_pages zero incoming rows = ok []
    read_pages (suc fuel) incoming rows =
        paginate_keyset codec place binding limit incoming rows >>= λ page. elim page.next_cursor [
          | none ↦ ok page.rows
          | some text ↦ read_pages fuel (some text) rows >>= λ others. ok (page.rows ++ others)
        ]

    -- A row can stand in a cursor: the payload passes the schema, and its text reads back.
    abbrev pub IsEncodable : T → Type 0
    IsEncodable row =
        (is_valid_payload codec (payload_of codec place binding row) ≡ true)
        × ReadsBack codec (payload_of codec place binding row)

    abbrev pub Encodable : List T → Type 0
    Encodable rows = All IsEncodable rows

    abbrev pub cursor_of : T → String
    cursor_of row = codec.write (payload_of codec place binding row)

    pub start_of-row :
        (before : List T) (row : T) (rest : List T)
        → Distinct (before ++ row ∷ rest)
        → IsEncodable row
        → start_of codec place binding (some (cursor_of row)) (before ++ row ∷ rest)
          ≡ ok (length before + 1)
    unfolding start_of
    start_of-row before row rest distinct (valid, reads) =
        rw
          (
            decode_cursor-write codec (payload_of codec place binding row) reads valid,
            assert_binding-written codec (payload_of codec place binding row),
            find_index-row before row rest distinct,
          )
          refl

    next_of-row :
        (row : T)
        → is_valid_payload codec (payload_of codec place binding row) ≡ true
        → next_of codec place binding true (some row) ≡ ok (some (cursor_of row))
    unfolding next_of encode_cursor
    next_of-row row valid = rw (valid) refl

    next_of-end : (row : Option T) → next_of codec place binding false row ≡ ok none
    unfolding next_of
    next_of-end none = refl
    next_of-end (some row) = refl

    -- A page whose start and next cursor are known.
    page_from :
        (incoming next : Option String) (done rest : List T) (more : Bool)
        → start_of codec place binding incoming (done ++ rest) ≡ ok (length done)
        → ltb (length done + length (take limit rest)) (length (done ++ rest)) ≡ more
        → next_of codec place binding more (last (take limit rest)) ≡ ok next
        → paginate_keyset codec place binding limit incoming (done ++ rest)
          ≡ ok (record {
            rows = take limit rest;
            limit = limit;
            has_more = more;
            next_cursor = next;
          })
    unfolding paginate_keyset
    page_from incoming next done rest more starts has_more gives =
        rw (starts, drop-length done rest, has_more, gives) refl

    pub last_page :
        (fuel : ℕ) (incoming : Option String) (done rest : List T)
        → start_of codec place binding incoming (done ++ rest) ≡ ok (length done)
        → length rest ≤ limit
        → read_pages (suc fuel) incoming (done ++ rest) ≡ ok rest
    unfolding read_pages
    last_page fuel incoming done rest starts short =
        let whole : take limit rest ≡ rest = take_all limit rest short in
        let stop : ltb (length done + length (take limit rest)) (length (done ++ rest)) ≡ false =
          ground (arith, length-append done rest, length-take limit rest) in
        rw
          (page_from incoming none done rest false starts stop
            (next_of-end (last (take limit rest))))
          (ap ok whole)

    pub next_page :
        (fuel : ℕ) (incoming : Option String) (done rest others : List T) (row : T)
        → start_of codec place binding incoming (done ++ rest) ≡ ok (length done)
        → limit < length rest
        → last (take limit rest) ≡ some row
        → is_valid_payload codec (payload_of codec place binding row) ≡ true
        → read_pages fuel (some (cursor_of row)) (done ++ rest) ≡ ok others
        → read_pages (suc fuel) incoming (done ++ rest) ≡ ok (take limit rest ++ others)
    unfolding read_pages
    next_page fuel incoming done rest others row starts long is_last valid later =
        let more : ltb (length done + length (take limit rest)) (length (done ++ rest)) ≡ true =
          ground (arith, length-append done rest, length-take limit rest) in
        let gives : next_of codec place binding true (last (take limit rest))
            ≡ ok (some (cursor_of row)) =
          rw (is_last) (next_of-row row valid) in
        rw (page_from incoming (some (cursor_of row)) done rest true starts more gives, later) refl
