-- ===== src/Monitoring/Tables.antt =====
-- packages/api/src/persistence/repositories/docker-monitoring.repository.ts: the patterns with which it
-- reads and writes its arrays and its maps.
pub mod Upserts
use vps_manager_nodejs.Prelude.{
  String, Bool, true, false, not, List, [], ◌∷◌, Option, none, some, if◌then◌else◌, str_eq,
}

module _ {ℓ} {A : Type ℓ} where
  -- `const i = rows.findIndex(p); if (i >= 0) rows[i] = change(rows[i]);`
  abbrev pub update_first : (A → Bool) → (A → A) → List A → List A
  update_first p change [] = []
  update_first p change (x ∷ xs) = if p x then change x ∷ xs else x ∷ update_first p change xs

  -- `const i = rows.findIndex(p); if (i >= 0) rows[i] = row; else rows.push(row);`
  abbrev pub upsert : (A → Bool) → A → List A → List A
  upsert p row [] = row ∷ []
  upsert p row (x ∷ xs) = if p x then row ∷ xs else x ∷ upsert p row xs

  -- `map[key] = value` and `delete map[key]`.
  abbrev pub set_entry : String → Option A → (String → Option A) → String → Option A
  set_entry key value entries other = if str_eq key other then value else entries other

-- `value === undefined ? true : value === wanted`, for an optional filter of a query.
abbrev pub admits : Option String → String → Bool
admits none given = true
admits (some wanted) given = str_eq given wanted

-- A text that JavaScript takes as true.
abbrev pub truthy : Option String → Option String
truthy none = none
truthy (some t) = if str_eq t "" then none else some t
