-- ===== src/Monitoring/Pages.antt =====
-- packages/api/src/persistence/repositories/docker-monitoring.repository.ts: the order of the lists,
-- `inRange`, and `paginateKeyset`, which cuts a page out of the rows of a list.
pub mod Following
pub mod Complete
pub mod Kept
use vps_manager_nodejs.Prelude.{
  ℕ, suc, ◌+◌, String, Bool, true, false, not, ◌&&◌, List, [], ◌∷◌, Option, none, some, length,
  take, drop, ltb, if◌then◌else◌, str_eq, Outcome, ok, err, ◌>>=◌, ◌>>◌,
}
use vps_manager_nodejs.Monitoring.Cursor.{
  Codec, Binding, optional, CursorPayload, CursorError, encode_cursor, decode_cursor,
  assert_binding,
}

-- The place of a row in a list: its time and its id.
abbrev pub Place : Type 0
Place = String × String

abbrev pub same_place : Place → Place → Bool
same_place (at, id) (other_at, other_id) = str_eq at other_at && str_eq id other_id

-- `rows.sort(compare)`, which keeps the order of equal rows; `first a b` is `compare(a, b) < 0`.
unfoldable pub insert_row : {T : Type 0} → (T → T → Bool) → T → List T → List T
insert_row first x [] = x ∷ []
insert_row first x (y ∷ ys) =
    let later = insert_row first x ys in if first y x then y ∷ later else x ∷ y ∷ ys

unfoldable pub sort_by : {T : Type 0} → (T → T → Bool) → List T → List T
unfolding insert_row
sort_by first [] = []
sort_by first (x ∷ xs) = insert_row first x (sort_by first xs)

module _ (before : String → String → Bool) where
  -- `compareDesc(a, b) < 0`: the later time first, then the greater id.
  unfoldable pub comes_first : Place → Place → Bool
  comes_first (at_a, id_a) (at_b, id_b) =
      if not (str_eq at_a at_b)
      then not (before at_a at_b)
      else if not (str_eq id_a id_b)
      then not (before id_a id_b)
      else false

  unfoldable pub in_range : String → Option String → Option String → Bool
  in_range at from to =
      optional (λ t. not (before at t)) from && optional (λ t. not (before t at)) to

  -- compareDesc as the order of rows that have places.
  unfoldable pub newest_first : {T : Type 0} → (T → Place) → T → T → Bool
  unfolding comes_first
  newest_first place a b = comes_first (place a) (place b)

abbrev pub suc_of : Option ℕ → Option ℕ
suc_of none = none
suc_of (some i) = some (suc i)

-- `rows.findIndex(p)`
abbrev pub find_index : {T : Type 0} → (T → Bool) → List T → Option ℕ
find_index p [] = none
find_index p (x ∷ xs) = if p x then some 0 else suc_of (find_index p xs)

abbrev pub last : {T : Type 0} → List T → Option T
last [] = none
last (x ∷ []) = some x
last (x ∷ y ∷ ys) = last (y ∷ ys)

-- DockerPage
pub record Page (T : Type 0) : Type 0 where
  pub rows : List T
  pub limit : ℕ
  pub has_more : Bool
  pub next_cursor : Option String

-- `idx === -1 ? rows.length : idx + 1`
abbrev pub after_index : ℕ → Option ℕ → ℕ
after_index all none = all
after_index all (some i) = i + 1

module _ {T : Type 0} (codec : Codec) (place : T → Place) (binding : Binding) where
  abbrev pub payload_of : T → CursorPayload
  payload_of row = record { binding = binding; at = (place row).0; id = (place row).1 }

  -- The index at which a page starts.
  unfoldable pub start_of : Option String → List T → Outcome CursorError ℕ
  unfolding decode_cursor assert_binding
  start_of none rows = ok 0
  start_of (some text) rows = decode_cursor codec text >>= λ decoded.
      assert_binding codec decoded.binding binding
      >> ok (
          after_index (length rows)
            (find_index (λ r. same_place (place r) (decoded.at, decoded.id)) rows))

  -- The cursor of the next page.
  unfoldable pub next_of : Bool → Option T → Outcome CursorError (Option String)
  unfolding encode_cursor
  next_of true (some row) = encode_cursor codec (payload_of row) >>= λ text. ok (some text)
  next_of _ _ = ok none

  -- paginateKeyset
  unfoldable pub paginate_keyset : ℕ → Option String → List T → Outcome CursorError (Page T)
  unfolding start_of next_of
  paginate_keyset limit incoming rows = start_of incoming rows >>= λ start.
      let slice = take limit (drop start rows) in
      let has_more = ltb (start + length slice) (length rows) in
      next_of has_more (last slice) >>= λ next.
      ok (record { rows = slice; limit = limit; has_more = has_more; next_cursor = next })
